-- ===== src/Invoice/Address.antt =====
-- invoice/src/address.rs: addresses, their scripts and their text.
pub mod Script
use bp_std.Prelude.{
  ℕ, Bytes, [], ◌∷◌, length, ◌==◌, Bool, true, false, if◌then◌else◌, Option, none, some, ◌≡◌, ◌≤◌,
  codes,
}
use bp_std.Prelude.Big.{range, drop}
use bp_std.Prelude.Results.{Result, ok, err, ◌>>=◌}

-- What is taken from bp-core: templates of scripts over their bytes, and the output keys of
-- taproot. Hashes are the arrays of their bytes.
pub record Scripts : Type 1 where
  pub OutputPk : Type 0
  pub to_byte_array : OutputPk → Bytes
  pub from_byte_array : Bytes → Option OutputPk
  pub p2pkh : Bytes → Bytes
  pub p2sh : Bytes → Bytes
  pub p2wpkh : Bytes → Bytes
  pub p2wsh : Bytes → Bytes
  pub p2tr_tweaked : OutputPk → Bytes
  pub is_p2pkh : Bytes → Bool
  pub is_p2sh : Bytes → Bool
  pub is_p2wpkh : Bytes → Bool
  pub is_p2wsh : Bytes → Bool
  pub is_p2tr : Bytes → Bool

pub data AddressError : Type 0 where
  invalid_taproot_key unsupported_script_pubkey : AddressError

pub data AddressNetwork : Type 0 where
  mainnet testnet regtest : AddressNetwork

pub data AddressType : Type 0 where
  p2pkh p2sh p2wpkh p2wsh p2tr : AddressType

pub data AddressPayload (s : Scripts) : Type 0 where
  pkh sh wpkh wsh : Bytes → AddressPayload s
  tr : s.OutputPk → AddressPayload s

pub record Address (s : Scripts) : Type 0 where
  pub payload : AddressPayload s
  pub network : AddressNetwork

-- `AddressNetwork::is_testnet`, `bech32_hrp`
abbrev pub is_testnet : AddressNetwork → Bool
is_testnet mainnet = false
is_testnet testnet = true
is_testnet regtest = true

abbrev pub bech32_hrp : AddressNetwork → Bytes
bech32_hrp mainnet = codes "bc"
bech32_hrp testnet = codes "tb"
bech32_hrp regtest = codes "bcrt"

module _ (s : Scripts) where
  unfoldable pub script_pubkey : AddressPayload s → Bytes
  script_pubkey (pkh hash) = s.p2pkh hash
  script_pubkey (sh hash) = s.p2sh hash
  script_pubkey (wpkh hash) = s.p2wpkh hash
  script_pubkey (wsh hash) = s.p2wsh hash
  script_pubkey (tr output_key) = s.p2tr_tweaked output_key

  unfoldable pub address_type : AddressPayload s → AddressType
  address_type (pkh hash) = p2pkh
  address_type (sh hash) = p2sh
  address_type (wpkh hash) = p2wpkh
  address_type (wsh hash) = p2wsh
  address_type (tr output_key) = p2tr

  -- `copy_from_slice` into an array of `n` bytes: `none` is its panic on a slice of another length
  abbrev pub copied :
      ℕ
      → Bytes
      → (Bytes → Result AddressError (AddressPayload s))
      → Option (Result AddressError (AddressPayload s))
  copied n slice make = if length slice == n then some (make slice) else none

  abbrev pub taproot_payload : Option s.OutputPk → Result AddressError (AddressPayload s)
  taproot_payload none = err invalid_taproot_key
  taproot_payload (some output_key) = ok (tr output_key)

  -- `none` is a panic
  unfoldable pub from_script : Bytes → Option (Result AddressError (AddressPayload s))
  from_script script =
      if s.is_p2pkh script
      then copied 20 (range script 3 23) (λ bytes. ok (pkh bytes))
      else if s.is_p2sh script
      then copied 20 (drop 2 script) (λ bytes. ok (sh bytes))
      else if s.is_p2wpkh script
      then copied 20 (drop 2 script) (λ bytes. ok (wpkh bytes))
      else if s.is_p2wsh script
      then copied 32 (drop 2 script) (λ bytes. ok (wsh bytes))
      else if s.is_p2tr script
      then copied 32 (drop 2 script) (λ bytes. taproot_payload (s.from_byte_array bytes))
      else some (err unsupported_script_pubkey)

  abbrev pub in_network :
      AddressNetwork → Result AddressError (AddressPayload s) → Result AddressError (Address s)
  in_network network made = do payload ← made; ok (record { payload = payload; network = network })

  -- `Address::with`
  unfoldable pub with_script : Bytes → AddressNetwork → Option (Result AddressError (Address s))
  unfolding from_script
  with_script script network = elim (from_script script) [
    | none ↦ none
    | some made ↦ some (in_network network made)
  ]
