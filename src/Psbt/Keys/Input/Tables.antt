-- ===== src/Psbt/Keys/Input/Tables.antt =====
-- `InputKey` of psbt/src/keys.rs: the tables of the trait `KeyType`.
use bp_std.Prelude.{ℕ, Bool, true, false, Option, none, ◌+◌}
use bp_std.Psbt.Ver.{PsbtVer, v0, v2}
use bp_std.Psbt.Keys.Input.Code.{
  InputKey, unknown, non_witness_utxo, witness_utxo, partial_sig, sighash_type, redeem_script,
  witness_script, bip32_derivation, final_script_sig, final_witness, por_commitment, ripemd160,
  sha256, hash160, hash256, previous_txid, output_index, sequence, required_time_lock,
  required_heigh_lock, tap_key_sig, tap_script_sig, tap_leaf_script, tap_bip32_derivation,
  tap_internal_key, tap_merkle_root, proprietary,
}

-- `KeyType::has_key_data`
unfoldable pub has_key_data : InputKey → Bool
has_key_data non_witness_utxo = false
has_key_data witness_utxo = false
has_key_data partial_sig = true
has_key_data sighash_type = false
has_key_data redeem_script = false
has_key_data witness_script = false
has_key_data bip32_derivation = true
has_key_data final_script_sig = false
has_key_data final_witness = false
has_key_data por_commitment = false
has_key_data ripemd160 = true
has_key_data sha256 = true
has_key_data hash160 = true
has_key_data hash256 = true
has_key_data previous_txid = false
has_key_data output_index = false
has_key_data sequence = false
has_key_data required_time_lock = false
has_key_data required_heigh_lock = false
has_key_data tap_key_sig = false
has_key_data tap_script_sig = true
has_key_data tap_leaf_script = true
has_key_data tap_bip32_derivation = true
has_key_data tap_internal_key = false
has_key_data tap_merkle_root = false
has_key_data proprietary = true
has_key_data (unknown _) = true

-- `KeyType::present_since`
unfoldable pub present_since : InputKey → PsbtVer
present_since non_witness_utxo = v0
present_since witness_utxo = v0
present_since partial_sig = v0
present_since sighash_type = v0
present_since redeem_script = v0
present_since witness_script = v0
present_since bip32_derivation = v0
present_since final_script_sig = v0
present_since final_witness = v0
present_since por_commitment = v0
present_since ripemd160 = v0
present_since sha256 = v0
present_since hash160 = v0
present_since hash256 = v0
present_since previous_txid = v2
present_since output_index = v2
present_since sequence = v2
present_since required_time_lock = v2
present_since required_heigh_lock = v2
present_since tap_key_sig = v0
present_since tap_script_sig = v0
present_since tap_leaf_script = v0
present_since tap_bip32_derivation = v0
present_since tap_internal_key = v0
present_since tap_merkle_root = v0
present_since proprietary = v0
present_since (unknown _) = v0

-- `KeyType::deprecated_since`
unfoldable pub deprecated_since : InputKey → Option PsbtVer
deprecated_since non_witness_utxo = none
deprecated_since witness_utxo = none
deprecated_since partial_sig = none
deprecated_since sighash_type = none
deprecated_since redeem_script = none
deprecated_since witness_script = none
deprecated_since bip32_derivation = none
deprecated_since final_script_sig = none
deprecated_since final_witness = none
deprecated_since por_commitment = none
deprecated_since ripemd160 = none
deprecated_since sha256 = none
deprecated_since hash160 = none
deprecated_since hash256 = none
deprecated_since previous_txid = none
deprecated_since output_index = none
deprecated_since sequence = none
deprecated_since required_time_lock = none
deprecated_since required_heigh_lock = none
deprecated_since tap_key_sig = none
deprecated_since tap_script_sig = none
deprecated_since tap_leaf_script = none
deprecated_since tap_bip32_derivation = none
deprecated_since tap_internal_key = none
deprecated_since tap_merkle_root = none
deprecated_since proprietary = none
deprecated_since (unknown _) = none

-- `KeyType::is_required`
unfoldable pub is_required : InputKey → Bool
is_required non_witness_utxo = false
is_required witness_utxo = false
is_required partial_sig = false
is_required sighash_type = false
is_required redeem_script = false
is_required witness_script = false
is_required bip32_derivation = false
is_required final_script_sig = false
is_required final_witness = false
is_required por_commitment = false
is_required ripemd160 = false
is_required sha256 = false
is_required hash160 = false
is_required hash256 = false
is_required previous_txid = true
is_required output_index = true
is_required sequence = false
is_required required_time_lock = false
is_required required_heigh_lock = false
is_required tap_key_sig = false
is_required tap_script_sig = false
is_required tap_leaf_script = false
is_required tap_bip32_derivation = false
is_required tap_internal_key = false
is_required tap_merkle_root = false
is_required proprietary = false
is_required (unknown _) = false

-- `KeyType::is_proprietary`
unfoldable pub is_proprietary : InputKey → Bool
is_proprietary proprietary = true
is_proprietary _ = false

-- the derived order: the position of the variant, then the payload
unfoldable pub order : InputKey → ℕ
order non_witness_utxo = 0
order witness_utxo = 1
order partial_sig = 2
order sighash_type = 3
order redeem_script = 4
order witness_script = 5
order bip32_derivation = 6
order final_script_sig = 7
order final_witness = 8
order por_commitment = 9
order ripemd160 = 10
order sha256 = 11
order hash160 = 12
order hash256 = 13
order previous_txid = 14
order output_index = 15
order sequence = 16
order required_time_lock = 17
order required_heigh_lock = 18
order tap_key_sig = 19
order tap_script_sig = 20
order tap_leaf_script = 21
order tap_bip32_derivation = 22
order tap_internal_key = 23
order tap_merkle_root = 24
order proprietary = 25
order (unknown x) = 26 + x
