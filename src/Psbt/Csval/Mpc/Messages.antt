-- ===== src/Psbt/Csval/Mpc/Messages.antt =====
-- What the setters of psbt/src/csval/mpc.rs store.
use bp_std.Prelude.{
  ℕ, Bytes, [], ◌∷◌, Bool, true, false, Option, none, some, ◌≡◌, ap, ◌≢◌, ◌↔◌, refl, ◌<◌, ◌^◌, ◌⊎◌,
  inl, inr, Bool-cases, Option-cases,
}
use bp_std.Prelude.Results.{ok, err}
use bp_std.Prelude.Eq.{bytes_eq, bytes_eq_iff}
use bp_std.Prelude.IndexMap
use bp_std.Prelude.Little.{to_le_bytes, length-to_le_bytes, from_le_bytes-to_le_bytes}
use bp_std.Consensus.{Types, Equalities}
use bp_std.Psbt.Errors.{PropKey}
use bp_std.Psbt.Coders.Values.{prop_key_eq, prop_key_eq_iff, prop_key_instance}
use bp_std.Psbt.Data.Output.{Output}
use bp_std.Psbt.Keys.Output.{output_key_type}
use bp_std.Psbt.KeyMap.{proprietary, has_proprietary}
use bp_std.Psbt.KeyMap.Values.{Codecs}
use bp_std.Psbt.KeyMap.OutputMap.{output_key_map}
use bp_std.Psbt.Csval.Stored.{get, stored, push-free, push-taken}
use bp_std.Psbt.Csval.Mpc.{
  finalized, invalid_key_value, key_already_present, min_tree_depth_key, entropy_key, push_value,
  Protocols, IsProtocols, mpc_commitment_key, MpcPsbtError, message_key, mpc_message, mpc_entropy,
  mpc_min_tree_depth, set_value, set_mpc_message, set_mpc_entropy, set_mpc_min_tree_depth,
}

module _ {T : Types} (p : Protocols) (v : Codecs T) (e : Equalities T) where
  pub set_value-cases :
      (o : Output T) (key : PropKey) (val : Bytes)
      → ((r : MpcPsbtError) × (set_value p v e o key val ≡ (o, err r)))
        ⊎ ((get v e o key ≡ some val) × (set_value p v e o key val ≡ (o, ok false)))
        ⊎ ((get v e o key ≡ none) × (set_value p v e o key val ≡ (stored v e o key val, ok true)))
  unfolding set_value
  set_value-cases o key val =
      elim (Bool-cases (has_proprietary (output_key_map v e) o mpc_commitment_key)) [
        | inl h ↦ inl (finalized, rw h refl)
        | inr h ↦ elim (Option-cases (get v e o key)) [
          | inl free ↦ inr (inr (free, rw (h, free, push_value, push-free v e o key val free) refl))
          | inr (present, found) ↦ elim (Bool-cases (bytes_eq present val)) [
            | inl same ↦
                inr (
                  inl
                    (rw (found, (bytes_eq_iff present val).0 same) refl, rw (h, found, same) refl))
            | inr other ↦ inl (invalid_key_value, rw (h, found, other) refl)
          ]
        ]
      ]

  -- what a setter that succeeds leaves under its key and under another one
  pub set_value-get :
      (o : Output T) (key : PropKey) (val : Bytes) (done : Bool)
      → (set_value p v e o key val).1 ≡ ok done
      → get v e (set_value p v e o key val).0 key ≡ some val
  unfolding proprietary
  set_value-get o key val done h = elim (set_value-cases o key val) [
    | inl (r, eq) ↦ cc
    | inr (inl (found, eq)) ↦ rw eq found
    | inr (inr (free, eq)) ↦
        rw (eq, IndexMap.get-insert key key val o.proprietary, (prop_key_eq_iff key key).1 refl)
          refl
  ]

  pub set_value-frame :
      (o : Output T) (key j : PropKey) (val : Bytes)
      → prop_key_eq key j ≡ false
      → get v e (set_value p v e o key val).0 j ≡ get v e o j
  unfolding proprietary
  set_value-frame o key j val other = elim (set_value-cases o key val) [
    | inl (r, eq) ↦ rw eq refl
    | inr (inl (found, eq)) ↦ rw eq refl
    | inr (inr (free, eq)) ↦ rw (eq, IndexMap.get-insert key j val o.proprietary, other) refl
  ]

  set_depth-cases :
      (o : Output T) (d : ℕ)
      → ((r : MpcPsbtError) × (set_mpc_min_tree_depth p v e o d ≡ (o, err r)))
        ⊎ ((get v e o min_tree_depth_key ≡ none)
            × (set_mpc_min_tree_depth p v e o d
                ≡ (stored v e o min_tree_depth_key (d ∷ []), ok none)))
  unfolding set_mpc_min_tree_depth
  set_depth-cases o d =
      elim (Bool-cases (has_proprietary (output_key_map v e) o mpc_commitment_key)) [
        | inl f ↦ inl (finalized, rw f refl)
        | inr f ↦ elim (Option-cases (get v e o min_tree_depth_key)) [
          | inl free ↦ inr (
            free,
            rw (f, push_value, push-free v e o min_tree_depth_key (d ∷ []) free, free) refl,
          )
          | inr (present, found) ↦ inl (
            key_already_present,
            rw (f, push_value, push-taken v e o min_tree_depth_key (d ∷ []) present found) refl,
          )
        ]
      ]

  set_value-done :
      (o : Output T) (key : PropKey) (val : Bytes) (done : Bool)
      → (set_value p v e o key val).1 ≡ ok done
      → (done ≡ false) ↔ (get v e o key ≡ some val)
  set_value-done o key val done h = elim (set_value-cases o key val) [
    | inl (r, eq) ↦ cc
    | inr (inl (found, eq)) ↦ (λ _. found, λ _. cc)
    | inr (inr (free, eq)) ↦ (λ no. cc, λ found. cc)
  ]

  other_message :
      (lawful : IsProtocols p) (i j : p.ProtocolId)
      → i ≢ j
      → prop_key_eq (message_key p v e i) (message_key p v e j) ≡ false
  other_message lawful i j distinct =
      let a : PropKey = message_key p v e i in
      let b : PropKey = message_key p v e j in
      elim (Bool-cases (prop_key_eq a b)) [
        | inl h ↦
            let same_id = ap (λ k. k.key_data) ((prop_key_eq_iff a b).0 h) in
            absurd (distinct (lawful.id_to_vec_injective i j same_id))
        | inr h ↦ h
      ]

  -- Setting a message of a protocol, where it succeeds, makes it the message of that protocol,
  -- leaves that of any other protocol and the entropy as they were, and tells false exactly if the
  -- same bytes were there.
  pub set_mpc_message-mpc_message :
      (lawful : IsProtocols p) (o : Output T) (i j : p.ProtocolId) (m : p.Message) (done : Bool)
      → i ≢ j
      → (set_mpc_message p v e o i m).1 ≡ ok done
      → let after : Output T = (set_mpc_message p v e o i m).0 in
        (mpc_message p v e after i ≡ some m)
        × (mpc_message p v e after j ≡ mpc_message p v e o j)
        × (mpc_entropy p v e after ≡ mpc_entropy p v e o)
        × ((done ≡ false) ↔ (
            proprietary (output_key_map v e) o (message_key p v e i) ≡ some (p.message_to_vec m)))
  unfolding set_mpc_message mpc_message mpc_entropy prop_key_eq
  set_mpc_message-mpc_message lawful o i j m done distinct h =
      let key = message_key p v e i in
      let val = p.message_to_vec m in
      (
        rw (set_value-get o key val done h) (lawful.message_round_trips m),
        rw (set_value-frame o key (message_key p v e j) val (other_message lawful i j distinct))
            refl,
        rw (set_value-frame o key entropy_key val refl) refl,
        set_value-done o key val done h,
      )

  -- Setting the entropy, a word of 64 bits, makes it the entropy where it succeeds, and leaves every
  -- message as it was.
  set_mpc_entropy-mpc_entropy :
      (o : Output T) (i : p.ProtocolId) (n : ℕ) (done : Bool)
      → n < 2 ^ 64
      → (set_mpc_entropy p v e o n).1 ≡ ok done
      → let after : Output T = (set_mpc_entropy p v e o n).0 in
        (mpc_entropy p v e after ≡ some n) × (mpc_message p v e after i ≡ mpc_message p v e o i)
  unfolding set_mpc_entropy mpc_message mpc_entropy prop_key_eq
  set_mpc_entropy-mpc_entropy o i n done fits h =
      let val = to_le_bytes 8 n in
      (
        rw
            (
              set_value-get o entropy_key val done h,
              length-to_le_bytes 8 n,
              from_le_bytes-to_le_bytes 8 n fits,
            )
            refl,
        rw (set_value-frame o entropy_key (message_key p v e i) val refl) refl,
      )

  -- Setting the minimal tree depth succeeds only where no value was there, valid or not: it never
  -- returns a previous depth. Where it succeeds, the depth is the one that was set.
  set_mpc_min_tree_depth-mpc_min_tree_depth :
      (o : Output T) (d : ℕ) (prev : Option ℕ)
      → (set_mpc_min_tree_depth p v e o d).1 ≡ ok prev
      → (proprietary (output_key_map v e) o min_tree_depth_key ≡ none)
        × (prev ≡ none)
        × (mpc_min_tree_depth p v e (set_mpc_min_tree_depth p v e o d).0 ≡ some d)
  unfolding mpc_min_tree_depth proprietary
  set_mpc_min_tree_depth-mpc_min_tree_depth o d prev h = elim (set_depth-cases o d) [
    | inl (r, eq) ↦ cc
    | inr (free, eq) ↦ (
      free,
      cc,
      rw
          (
            eq,
            IndexMap.get-insert min_tree_depth_key min_tree_depth_key (d ∷ []) o.proprietary,
            (prop_key_eq_iff min_tree_depth_key min_tree_depth_key).1 refl,
          )
          refl,
    )
  ]
