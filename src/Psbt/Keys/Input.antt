-- ===== src/Psbt/Keys/Input.antt =====
-- `InputKey` of psbt/src/keys.rs.
mod Code
mod Tables
pub use Code.{
  InputKey, unknown, non_witness_utxo, witness_utxo, partial_sig, sighash_type, redeem_script,
  witness_script, bip32_derivation, final_script_sig, final_witness, por_commitment, ripemd160,
  sha256, hash160, hash256, previous_txid, output_index, sequence, required_time_lock,
  required_heigh_lock, tap_key_sig, tap_script_sig, tap_leaf_script, tap_bip32_derivation,
  tap_internal_key, tap_merkle_root, proprietary,
}
unfoldable pub use Code.{from_u8, into_u8}
unfoldable pub use Tables.{
  has_key_data, present_since, deprecated_since, is_required, is_proprietary, order,
}
use bp_std.Prelude.{List, [], ◌∷◌}
use bp_std.Psbt.Keys.KeyType.{KeyType}

-- `KeyType::STANDARD`
abbrev pub standard : List InputKey
standard =
    non_witness_utxo ∷ witness_utxo ∷ partial_sig ∷ sighash_type ∷ redeem_script ∷ witness_script
    ∷ bip32_derivation ∷ final_script_sig ∷ final_witness ∷ por_commitment ∷ ripemd160 ∷ sha256
    ∷ hash160 ∷ hash256 ∷ previous_txid ∷ output_index ∷ sequence ∷ required_time_lock
    ∷ required_heigh_lock ∷ tap_key_sig ∷ tap_script_sig ∷ tap_leaf_script ∷ tap_bip32_derivation
    ∷ tap_internal_key ∷ tap_merkle_root ∷ []

instance abbrev pub input_key_type : KeyType InputKey
input_key_type = record {
  standard = standard;
  unknown_unchecked = unknown;
  from_u8 = from_u8;
  into_u8 = into_u8;
  has_key_data = has_key_data;
  present_since = present_since;
  deprecated_since = deprecated_since;
  is_required = is_required;
  is_proprietary = is_proprietary;
  order = order;
}
