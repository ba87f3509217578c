-- ===== src/Psbt/Csval/Mpc/Accepts.antt =====
-- When the setters of psbt/src/csval/mpc.rs succeed.
use bp_std.Prelude.{Bytes, Bool, true, false, none, some, ◌≡◌, ◌↔◌, ◌⊎◌, inl, inr, refl, Bool-cases}
use bp_std.Prelude.Results.{ok, err}
use bp_std.Prelude.Eq.{bytes_eq_iff}
use bp_std.Consensus.{Types, Equalities}
use bp_std.Psbt.Errors.{PropKey}
use bp_std.Psbt.Data.Output.{Output}
use bp_std.Psbt.Keys.Output.{output_key_type}
use bp_std.Psbt.KeyMap.{proprietary, has_proprietary}
use bp_std.Psbt.KeyMap.Values.{Codecs}
use bp_std.Psbt.KeyMap.OutputMap.{output_key_map}
use bp_std.Psbt.Csval.Mpc.{
  Protocols, finalized, mpc_commitment_key, message_key, push_value, set_value, set_mpc_message,
}
use bp_std.Psbt.Csval.Mpc.Messages.{set_value-cases}
use bp_std.Psbt.Csval.Stored.{get, push-free}

module _ {T : Types} (p : Protocols) (v : Codecs T) (e : Equalities T) where
  abbrev is_finalized : Output T → Bool
  is_finalized o = has_proprietary (output_key_map v e) o mpc_commitment_key

  set_value-finalized :
      (o : Output T) (key : PropKey) (val : Bytes)
      → is_finalized o ≡ true
      → set_value p v e o key val ≡ (o, err finalized)
  unfolding set_value
  set_value-finalized o key val h = rw h refl

  set_value-free :
      (o : Output T) (key : PropKey) (val : Bytes)
      → is_finalized o ≡ false
      → get v e o key ≡ none
      → (set_value p v e o key val).1 ≡ ok true
  unfolding set_value
  set_value-free o key val h free = rw (h, free, push_value, push-free v e o key val free) refl

  set_value-same :
      (o : Output T) (key : PropKey) (val : Bytes)
      → is_finalized o ≡ false
      → get v e o key ≡ some val
      → (set_value p v e o key val).1 ≡ ok false
  unfolding set_value
  set_value-same o key val h found = rw (h, found, (bytes_eq_iff val val).1 refl) refl

  set_value-ok :
      (o : Output T) (key : PropKey) (val : Bytes) (done : Bool)
      → (set_value p v e o key val).1 ≡ ok done
      → (is_finalized o ≡ false) × ((get v e o key ≡ none) ⊎ (get v e o key ≡ some val))
  set_value-ok o key val done h = (
    elim (Bool-cases (is_finalized o)) [
      | inl f ↦ let eq = set_value-finalized o key val f in cc
      | inr f ↦ f
    ],
    elim (set_value-cases p v e o key val) [
      | inl (r, eq) ↦ cc
      | inr (inl (found, eq)) ↦ inr found
      | inr (inr (free, eq)) ↦ inl free
    ],
  )

  -- A message can be set for a protocol exactly where no commitment was made and the protocol has no
  -- message, or has that one already.
  pub set_mpc_message-ok_iff :
      (o : Output T) (i : p.ProtocolId) (m : p.Message)
      → ((done : Bool) × ((set_mpc_message p v e o i m).1 ≡ ok done)) ↔ (
          (has_proprietary (output_key_map v e) o mpc_commitment_key ≡ false)
          × ((proprietary (output_key_map v e) o (message_key p v e i) ≡ none)
              ⊎ (proprietary (output_key_map v e) o (message_key p v e i)
                  ≡ some (p.message_to_vec m))))
  unfolding set_mpc_message
  set_mpc_message-ok_iff o i m =
      let key : PropKey = message_key p v e i in
      let val : Bytes = p.message_to_vec m in
      (
        λ (done, h). set_value-ok o key val done h,
        λ (f, held). elim held [
          | inl free ↦ (true, set_value-free o key val f free)
          | inr found ↦ (false, set_value-same o key val f found)
        ],
      )
