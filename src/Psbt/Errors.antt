-- ===== src/Psbt/Errors.antt =====
-- The errors of psbt/src/coders.rs. Values of error types that other crates define are left out.
use bp_std.Prelude.{ℕ, Bytes}
use bp_std.Psbt.Ver.{PsbtVer, PsbtUnsupportedVer}

pub data MapName : Type 0 where
  global input output : MapName

pub record PropKey : Type 0 where
  pub identifier : Bytes
  pub subtype : ℕ
  pub key_data : Bytes

pub data PsbtError : Type 0 where
  unexpected_eod data_not_consumed : PsbtError
  invalid_magic : Bytes → PsbtError
  unexpected_key deprecated_key required_key_absent : MapName → ℕ → PsbtVer → PsbtError
  repeated_key : MapName → ℕ → PsbtError
  repeated_prop_key : MapName → PropKey → PsbtError
  repeated_unknown_key : MapName → ℕ → PsbtError
  non_empty_key_data : MapName → ℕ → Bytes → PsbtError
  unsupported_version : PsbtUnsupportedVer → PsbtError
  signed_tx : PsbtError
  invalid_lock_height invalid_lock_timestamp : ℕ → PsbtError
  invalid_compr_pubkey invalid_uncompr_pubkey invalid_xonly_pubkey : Bytes → PsbtError
  invalid_sig invalid_sighash invalid_xpub : PsbtError
  xpub_unhardened_origin invalid_derivation_path : PsbtError
  unrecognized_key_format : ℕ → PsbtError
  invalid_por_string : PsbtError
  invalid_tap_leaf_depth invalid_tap_leaf_script_size : ℕ → PsbtError
  invalid_tap_leaf_ver invalid_tap_tree consensus confinement : PsbtError

pub data DecodeError : Type 0 where
  io : DecodeError
  psbt : PsbtError → DecodeError

-- `From<DecodeError> for PsbtError`
unfoldable pub from_decode_error : DecodeError → PsbtError
from_decode_error (psbt e) = e
from_decode_error io = unexpected_eod
