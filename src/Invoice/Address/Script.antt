-- ===== src/Invoice/Address/Script.antt =====
-- An address of invoice/src/address.rs is made again from its script.
use bp_std.Prelude.{Option, none, ◌≢◌, ◌↔◌, Bytes, length, true, false, some, ◌≡◌, refl}
use bp_std.Prelude.Big.{range, drop}
use bp_std.Prelude.Results.{Result, ok}
use bp_std.Invoice.Address.{
  Scripts, AddressError, p2sh, address_type, AddressPayload, pkh, sh, wpkh, wsh, tr, Address,
  AddressNetwork, script_pubkey, from_script, with_script,
}

-- What is documented of the templates: each is recognized as itself and as none of those before
-- it, and holds its hash or key where the source reads it.
pub record IsScripts (s : Scripts) : Type 0 where
  pub pk_length : (pk : s.OutputPk) → length (s.to_byte_array pk) ≡ 32
  pub pk_back : (pk : s.OutputPk) → s.from_byte_array (s.to_byte_array pk) ≡ some pk
  pub p2pkh_is : (h : Bytes) → s.is_p2pkh (s.p2pkh h) ≡ true
  pub p2pkh_hash : (h : Bytes) → length h ≡ 20 → range (s.p2pkh h) 3 23 ≡ h
  pub p2sh_is : (h : Bytes) → (s.is_p2pkh (s.p2sh h) ≡ false) × (s.is_p2sh (s.p2sh h) ≡ true)
  pub p2sh_length : (h : Bytes) → length h ≡ 20 → length (drop 2 (s.p2sh h)) ≡ 21
  pub p2wpkh_is :
      (h : Bytes)
      → (s.is_p2pkh (s.p2wpkh h) ≡ false)
        × (s.is_p2sh (s.p2wpkh h) ≡ false)
        × (s.is_p2wpkh (s.p2wpkh h) ≡ true)
  pub p2wpkh_hash : (h : Bytes) → length h ≡ 20 → drop 2 (s.p2wpkh h) ≡ h
  pub p2wsh_is :
      (h : Bytes)
      → (s.is_p2pkh (s.p2wsh h) ≡ false)
        × (s.is_p2sh (s.p2wsh h) ≡ false)
        × (s.is_p2wpkh (s.p2wsh h) ≡ false)
        × (s.is_p2wsh (s.p2wsh h) ≡ true)
  pub p2wsh_hash : (h : Bytes) → length h ≡ 32 → drop 2 (s.p2wsh h) ≡ h
  pub p2tr_is :
      (pk : s.OutputPk)
      → (s.is_p2pkh (s.p2tr_tweaked pk) ≡ false)
        × (s.is_p2sh (s.p2tr_tweaked pk) ≡ false)
        × (s.is_p2wpkh (s.p2tr_tweaked pk) ≡ false)
        × (s.is_p2wsh (s.p2tr_tweaked pk) ≡ false)
        × (s.is_p2tr (s.p2tr_tweaked pk) ≡ true)
  pub p2tr_key : (pk : s.OutputPk) → drop 2 (s.p2tr_tweaked pk) ≡ s.to_byte_array pk

-- a payload whose hash has its length
abbrev pub IsPayload : {s : Scripts} → AddressPayload s → Type 0
IsPayload (pkh h) = length h ≡ 20
IsPayload (sh h) = length h ≡ 20
IsPayload (wpkh h) = length h ≡ 20
IsPayload (wsh h) = length h ≡ 32
IsPayload (tr pk) = Unit

module _ (s : Scripts) (lawful : IsScripts s) where
  -- what `from_script` makes of the script of a payload: nothing, if it is that of a script hash
  abbrev again : AddressPayload s → Option (Result AddressError (AddressPayload s))
  again (pkh h) = some (ok (pkh h))
  again (sh h) = none
  again (wpkh h) = some (ok (wpkh h))
  again (wsh h) = some (ok (wsh h))
  again (tr pk) = some (ok (tr pk))

  from_script-script_pubkey :
      (p : AddressPayload s) → IsPayload p → from_script s (script_pubkey s p) ≡ again p
  unfolding from_script script_pubkey
  from_script-script_pubkey (pkh h) len = rw (lawful.p2pkh_is h, lawful.p2pkh_hash h len, len) refl
  from_script-script_pubkey (sh h) len =
      let (a, is) = lawful.p2sh_is h in rw (a, is, lawful.p2sh_length h len) refl
  from_script-script_pubkey (wpkh h) len =
      let (a, b, is) = lawful.p2wpkh_is h in rw (a, b, is, lawful.p2wpkh_hash h len, len) refl
  from_script-script_pubkey (wsh h) len =
      let (a, b, c, is) = lawful.p2wsh_is h in rw (a, b, c, is, lawful.p2wsh_hash h len, len) refl
  from_script-script_pubkey (tr pk) len =
      let (a, b, c, d, is) = lawful.p2tr_is pk in
      rw (a, b, c, d, is, lawful.p2tr_key pk, lawful.pk_length pk, lawful.pk_back pk) refl

  made_again :
      (p : AddressPayload s) (n : AddressNetwork)
      → IsPayload p
      → from_script s (script_pubkey s p) ≡ again p
      → (with_script s (script_pubkey s p) n ≡ some (ok (record { payload = p; network = n })))
        ↔ (address_type s p ≢ p2sh)
  unfolding with_script address_type
  made_again (pkh h) n len e = (λ read t. cc, λ other. rw (with_script, e) refl)
  made_again (sh h) n len e = (
    λ read.
        let f : with_script s (script_pubkey s (sh h)) n ≡ none = rw (with_script, e) refl in cc,
    λ other. absurd (other refl),
  )
  made_again (wpkh h) n len e = (λ read t. cc, λ other. rw (with_script, e) refl)
  made_again (wsh h) n len e = (λ read t. cc, λ other. rw (with_script, e) refl)
  made_again (tr pk) n len e = (λ read t. cc, λ other. rw (with_script, e) refl)

  panics :
      (p : AddressPayload s) (n : AddressNetwork)
      → from_script s (script_pubkey s p) ≡ again p
      → (with_script s (script_pubkey s p) n ≡ none) ↔ (address_type s p ≡ p2sh)
  unfolding with_script address_type
  panics (pkh h) n e = (
    λ read.
        let f : with_script s (script_pubkey s (pkh h)) n
            ≡ some (ok (record { payload = pkh h; network = n })) =
          rw (with_script, e) refl in
        cc,
    λ is_sh. cc,
  )
  panics (sh h) n e = (λ read. refl, λ is_sh. rw (with_script, e) refl)
  panics (wpkh h) n e = (
    λ read.
        let f : with_script s (script_pubkey s (wpkh h)) n
            ≡ some (ok (record { payload = wpkh h; network = n })) =
          rw (with_script, e) refl in
        cc,
    λ is_sh. cc,
  )
  panics (wsh h) n e = (
    λ read.
        let f : with_script s (script_pubkey s (wsh h)) n
            ≡ some (ok (record { payload = wsh h; network = n })) =
          rw (with_script, e) refl in
        cc,
    λ is_sh. cc,
  )
  panics (tr pk) n e = (
    λ read.
        let f : with_script s (script_pubkey s (tr pk)) n
            ≡ some (ok (record { payload = tr pk; network = n })) =
          rw (with_script, e) refl in
        cc,
    λ is_sh. cc,
  )

  -- An address, its hash of 20 or 32 bytes, is made again from its script in its network exactly
  -- where it is no P2SH address; the code panics exactly on the script of one of those.
  pub with_script-script_pubkey_iff :
      (a : Address s)
      → IsPayload a.payload
      → ((with_script s (script_pubkey s a.payload) a.network ≡ some (ok a))
          ↔ (address_type s a.payload ≢ p2sh))
        × ((with_script s (script_pubkey s a.payload) a.network ≡ none)
            ↔ (address_type s a.payload ≡ p2sh))
  with_script-script_pubkey_iff a len =
      let e = from_script-script_pubkey a.payload len in
      (made_again a.payload a.network len e, panics a.payload a.network e)
