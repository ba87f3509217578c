-- ===== src/Psbt/Keys/Input/Code.antt =====
-- `InputKey` of psbt/src/keys.rs: the keys of an input map and their bytes.
use bp_std.Prelude.{ℕ, ◌==◌, if◌then◌else◌}

pub data InputKey : Type 0 where
  non_witness_utxo witness_utxo partial_sig sighash_type redeem_script witness_script
        bip32_derivation final_script_sig final_witness por_commitment ripemd160 sha256 hash160
        hash256 previous_txid output_index sequence required_time_lock required_heigh_lock
        tap_key_sig tap_script_sig tap_leaf_script tap_bip32_derivation tap_internal_key
        tap_merkle_root proprietary :
      InputKey
  unknown : ℕ → InputKey

abbrev pub psbt_in_non_witness_utxo : ℕ
psbt_in_non_witness_utxo = 0x00

abbrev pub psbt_in_witness_utxo : ℕ
psbt_in_witness_utxo = 0x01

abbrev pub psbt_in_partial_sig : ℕ
psbt_in_partial_sig = 0x02

abbrev pub psbt_in_sighash_type : ℕ
psbt_in_sighash_type = 0x03

abbrev pub psbt_in_redeem_script : ℕ
psbt_in_redeem_script = 0x04

abbrev pub psbt_in_witness_script : ℕ
psbt_in_witness_script = 0x05

abbrev pub psbt_in_bip32_derivation : ℕ
psbt_in_bip32_derivation = 0x06

abbrev pub psbt_in_final_scriptsig : ℕ
psbt_in_final_scriptsig = 0x07

abbrev pub psbt_in_final_scriptwitness : ℕ
psbt_in_final_scriptwitness = 0x08

abbrev pub psbt_in_por_commitment : ℕ
psbt_in_por_commitment = 0x09

abbrev pub psbt_in_ripemd160 : ℕ
psbt_in_ripemd160 = 0x0a

abbrev pub psbt_in_sha256 : ℕ
psbt_in_sha256 = 0x0b

abbrev pub psbt_in_hash160 : ℕ
psbt_in_hash160 = 0x0c

abbrev pub psbt_in_hash256 : ℕ
psbt_in_hash256 = 0x0d

abbrev pub psbt_in_previous_txid : ℕ
psbt_in_previous_txid = 0x0e

abbrev pub psbt_in_output_index : ℕ
psbt_in_output_index = 0x0f

abbrev pub psbt_in_sequence : ℕ
psbt_in_sequence = 0x10

abbrev pub psbt_in_required_time_locktime : ℕ
psbt_in_required_time_locktime = 0x11

abbrev pub psbt_in_required_height_locktime : ℕ
psbt_in_required_height_locktime = 0x12

abbrev pub psbt_in_tap_key_sig : ℕ
psbt_in_tap_key_sig = 0x13

abbrev pub psbt_in_tap_script_sig : ℕ
psbt_in_tap_script_sig = 0x14

abbrev pub psbt_in_tap_leaf_script : ℕ
psbt_in_tap_leaf_script = 0x15

abbrev pub psbt_in_tap_bip32_derivation : ℕ
psbt_in_tap_bip32_derivation = 0x16

abbrev pub psbt_in_tap_internal_key : ℕ
psbt_in_tap_internal_key = 0x17

abbrev pub psbt_in_tap_merkle_root : ℕ
psbt_in_tap_merkle_root = 0x18

abbrev pub psbt_in_proprietary : ℕ
psbt_in_proprietary = 0xFC

-- `KeyType::into_u8`
unfoldable pub into_u8 : InputKey → ℕ
into_u8 non_witness_utxo = psbt_in_non_witness_utxo
into_u8 witness_utxo = psbt_in_witness_utxo
into_u8 partial_sig = psbt_in_partial_sig
into_u8 sighash_type = psbt_in_sighash_type
into_u8 redeem_script = psbt_in_redeem_script
into_u8 witness_script = psbt_in_witness_script
into_u8 bip32_derivation = psbt_in_bip32_derivation
into_u8 final_script_sig = psbt_in_final_scriptsig
into_u8 final_witness = psbt_in_final_scriptwitness
into_u8 por_commitment = psbt_in_por_commitment
into_u8 ripemd160 = psbt_in_ripemd160
into_u8 sha256 = psbt_in_sha256
into_u8 hash160 = psbt_in_hash160
into_u8 hash256 = psbt_in_hash256
into_u8 previous_txid = psbt_in_previous_txid
into_u8 output_index = psbt_in_output_index
into_u8 sequence = psbt_in_sequence
into_u8 required_time_lock = psbt_in_required_time_locktime
into_u8 required_heigh_lock = psbt_in_required_height_locktime
into_u8 tap_key_sig = psbt_in_tap_key_sig
into_u8 tap_script_sig = psbt_in_tap_script_sig
into_u8 tap_leaf_script = psbt_in_tap_leaf_script
into_u8 tap_bip32_derivation = psbt_in_tap_bip32_derivation
into_u8 tap_internal_key = psbt_in_tap_internal_key
into_u8 tap_merkle_root = psbt_in_tap_merkle_root
into_u8 proprietary = psbt_in_proprietary
into_u8 (unknown x) = x

-- `KeyType::from_u8`: the first variant whose byte is `val`
unfoldable pub from_u8 : ℕ → InputKey
unfolding into_u8
from_u8 val =
    if val == into_u8 non_witness_utxo
    then non_witness_utxo
    else if val == into_u8 witness_utxo
    then witness_utxo
    else if val == into_u8 partial_sig
    then partial_sig
    else if val == into_u8 sighash_type
    then sighash_type
    else if val == into_u8 redeem_script
    then redeem_script
    else if val == into_u8 witness_script
    then witness_script
    else if val == into_u8 bip32_derivation
    then bip32_derivation
    else if val == into_u8 final_script_sig
    then final_script_sig
    else if val == into_u8 final_witness
    then final_witness
    else if val == into_u8 por_commitment
    then por_commitment
    else if val == into_u8 ripemd160
    then ripemd160
    else if val == into_u8 sha256
    then sha256
    else if val == into_u8 hash160
    then hash160
    else if val == into_u8 hash256
    then hash256
    else if val == into_u8 previous_txid
    then previous_txid
    else if val == into_u8 output_index
    then output_index
    else if val == into_u8 sequence
    then sequence
    else if val == into_u8 required_time_lock
    then required_time_lock
    else if val == into_u8 required_heigh_lock
    then required_heigh_lock
    else if val == into_u8 tap_key_sig
    then tap_key_sig
    else if val == into_u8 tap_script_sig
    then tap_script_sig
    else if val == into_u8 tap_leaf_script
    then tap_leaf_script
    else if val == into_u8 tap_bip32_derivation
    then tap_bip32_derivation
    else if val == into_u8 tap_internal_key
    then tap_internal_key
    else if val == into_u8 tap_merkle_root
    then tap_merkle_root
    else if val == into_u8 proprietary
    then proprietary
    else unknown val
