-- ===== src/Psbt/KeyMap/OutputMap.antt =====
-- `KeyMap for Output` of psbt/src/maps.rs.
use bp_std.Prelude.{Bytes, List, [], some}
use bp_std.Prelude.Results.{Result, ok, err, ◌>>=◌}
use bp_std.Prelude.Eq.{bytes_instance}
use bp_std.Prelude.IndexMap
use bp_std.Consensus.{Types, Equalities}
use bp_std.Psbt.Ver.{PsbtVer}
use bp_std.Psbt.Errors.{PsbtError}
use bp_std.Psbt.Coders.Pairs.{PairToWrite}
use bp_std.Psbt.Keys.Output.{OutputKey, output_key_type}
use bp_std.Psbt.Data.Output.{Output}
use bp_std.Psbt.KeyMap.{Fault, panicked, KeyMap}
use bp_std.Psbt.KeyMap.Values.{Codecs}
use bp_std.Psbt.KeyMap.Pairs.{once, option, iter, read}

module _ {T : Types} (v : Codecs T) where
  -- `retrieve_key_pair`; the proprietary and unknown keys are unreachable
  unfoldable pub retrieve_output : Output T → PsbtVer → OutputKey → List (PairToWrite OutputKey)
  retrieve_output o version OutputKey.redeem_script =
      option OutputKey.redeem_script v.redeem_script.encode o.redeem_script
  retrieve_output o version OutputKey.witness_script =
      option OutputKey.witness_script v.witness_script.encode o.witness_script
  retrieve_output o version OutputKey.bip32_derivation =
      iter OutputKey.bip32_derivation v.compressed_pk.encode v.key_origin.encode o.bip32_derivation
  retrieve_output o version OutputKey.amount = once OutputKey.amount (v.sats.encode o.amount)
  retrieve_output o version OutputKey.script =
      once OutputKey.script (v.script_pubkey.encode o.script)
  retrieve_output o version OutputKey.tap_internal_key =
      option OutputKey.tap_internal_key v.internal_pk.encode o.tap_internal_key
  retrieve_output o version OutputKey.tap_tree =
      option OutputKey.tap_tree v.tap_tree.encode o.tap_tree
  retrieve_output o version OutputKey.tap_bip32_derivation =
      iter OutputKey.tap_bip32_derivation v.xonly_pk.encode v.tap_derivation.encode
        o.tap_bip32_derivation
  retrieve_output o version OutputKey.proprietary = []
  retrieve_output o version (OutputKey.unknown b) = []

  -- `insert_singular`
  unfoldable pub insert_singular_output :
      Output T → OutputKey → Bytes → Result (Fault PsbtError) (Output T)
  insert_singular_output o OutputKey.redeem_script bytes = do
    value ← read v.redeem_script bytes
    ok (record o { redeem_script = some value })
  insert_singular_output o OutputKey.witness_script bytes = do
    value ← read v.witness_script bytes
    ok (record o { witness_script = some value })
  insert_singular_output o OutputKey.bip32_derivation bytes = err panicked
  insert_singular_output o OutputKey.amount bytes = do
    value ← read v.sats bytes
    ok (record o { amount = value })
  insert_singular_output o OutputKey.script bytes = do
    value ← read v.script_pubkey bytes
    ok (record o { script = value })
  insert_singular_output o OutputKey.tap_internal_key bytes = do
    value ← read v.internal_pk bytes
    ok (record o { tap_internal_key = some value })
  insert_singular_output o OutputKey.tap_tree bytes = do
    value ← read v.tap_tree bytes
    ok (record o { tap_tree = some value })
  insert_singular_output o OutputKey.tap_bip32_derivation bytes = err panicked
  insert_singular_output o OutputKey.proprietary bytes = err panicked
  insert_singular_output o (OutputKey.unknown b) bytes = err panicked

module _ {T : Types} (v : Codecs T) (e : Equalities T) where
  -- `insert_plural`
  unfoldable pub insert_plural_output :
      Output T → OutputKey → Bytes → Bytes → Result (Fault PsbtError) (Output T)
  insert_plural_output o OutputKey.redeem_script key bytes = err panicked
  insert_plural_output o OutputKey.witness_script key bytes = err panicked
  insert_plural_output o OutputKey.bip32_derivation key bytes = do
    read_key ← read v.compressed_pk key
    value ← read v.key_origin bytes
    ok (record o {
      bip32_derivation = IndexMap.insert ⦃e = e.compressed_pk⦄ read_key value o.bip32_derivation;
    })
  insert_plural_output o OutputKey.amount key bytes = err panicked
  insert_plural_output o OutputKey.script key bytes = err panicked
  insert_plural_output o OutputKey.tap_internal_key key bytes = err panicked
  insert_plural_output o OutputKey.tap_tree key bytes = err panicked
  insert_plural_output o OutputKey.tap_bip32_derivation key bytes = do
    read_key ← read v.xonly_pk key
    value ← read v.tap_derivation bytes
    ok (record o {
      tap_bip32_derivation = IndexMap.insert ⦃e = e.xonly_pk⦄ read_key value o.tap_bip32_derivation;
    })
  insert_plural_output o OutputKey.proprietary key bytes = err panicked
  insert_plural_output o (OutputKey.unknown b) key bytes = err panicked

  abbrev pub output_key_map : KeyMap (Output T) OutputKey
  output_key_map = record {
    proprietary_type = OutputKey.proprietary;
    unknown_key = OutputKey.unknown;
    proprietary_map = λ o. o.proprietary;
    with_proprietary_map = λ o m. record o { proprietary = m };
    unknown_map = λ o. o.unknown;
    with_unknown_map = λ o m. record o { unknown = m };
    retrieve_key_pair = retrieve_output v;
    insert_singular = insert_singular_output v;
    insert_plural = insert_plural_output;
  }
