-- ===== src/Psbt/KeyMap/GlobalMap.antt =====
-- `KeyMap for Psbt` of psbt/src/maps.rs.
use bp_std.Prelude.{Bytes, List, [], length, some}
use bp_std.Prelude.Results.{Result, ok, err, ◌>>=◌}
use bp_std.Prelude.Eq.{bytes_instance}
use bp_std.Prelude.IndexMap
use bp_std.Consensus.{Types, Constants, Equalities}
use bp_std.Psbt.Ver.{PsbtVer}
use bp_std.Psbt.Errors.{PsbtError}
use bp_std.Psbt.Coders.Wire.{Wire}
use bp_std.Psbt.Coders.Pairs.{PairToWrite}
use bp_std.Psbt.Coders.Values.{encode_ver, decode_ver}
use bp_std.Psbt.Coders.Wire.{Codec}
use bp_std.Psbt.Keys.Global.{GlobalKey, global_key_type}
use bp_std.Psbt.Data.Flags.{encode_flags, decode_flags, ModifiableFlags}
use bp_std.Psbt.Data.Container.{
  Psbt, to_unsigned_tx, reset_from_unsigned_tx, reset_inputs, reset_outputs,
}
use bp_std.Psbt.KeyMap.{Fault, panicked, KeyMap}
use bp_std.Psbt.KeyMap.Values.{Codecs}
use bp_std.Psbt.KeyMap.Pairs.{once, option, iter, read}

module _ {T : Types} (c : Constants T) (w : Wire) (v : Codecs T) where
  abbrev pub ver_codec : Codec PsbtVer
  ver_codec = record { encode = encode_ver w; decode = decode_ver w }

  abbrev pub flags_codec : Codec ModifiableFlags
  flags_codec = record { encode = encode_flags w; decode = decode_flags w }

  -- `retrieve_key_pair`; the proprietary and unknown keys are unreachable
  unfoldable pub retrieve_global : Psbt T → PsbtVer → GlobalKey → List (PairToWrite GlobalKey)
  retrieve_global p version GlobalKey.unsigned_tx =
      once GlobalKey.unsigned_tx (v.unsigned_tx.encode (to_unsigned_tx c p))
  retrieve_global p version GlobalKey.xpub =
      iter GlobalKey.xpub v.xpub.encode v.xpub_origin.encode p.xpubs
  retrieve_global p version GlobalKey.tx_version =
      once GlobalKey.tx_version (v.tx_ver.encode p.tx_version)
  retrieve_global p version GlobalKey.fallback_locktime =
      option GlobalKey.fallback_locktime v.lock_time.encode p.fallback_locktime
  retrieve_global p version GlobalKey.input_count =
      once GlobalKey.input_count (w.varint.encode (length p.inputs))
  retrieve_global p version GlobalKey.output_count =
      once GlobalKey.output_count (w.varint.encode (length p.outputs))
  retrieve_global p version GlobalKey.tx_modifiable =
      option GlobalKey.tx_modifiable flags_codec.encode p.tx_modifiable
  retrieve_global p version GlobalKey.version = once GlobalKey.version (ver_codec.encode version)
  retrieve_global p version GlobalKey.proprietary = []
  retrieve_global p version (GlobalKey.unknown b) = []

  -- `insert_singular`
  unfoldable pub insert_singular_global :
      Psbt T → GlobalKey → Bytes → Result (Fault PsbtError) (Psbt T)
  insert_singular_global p GlobalKey.unsigned_tx bytes = do
    tx ← read v.unsigned_tx bytes
    ok (reset_from_unsigned_tx c p tx)
  insert_singular_global p GlobalKey.xpub bytes = err panicked
  insert_singular_global p GlobalKey.tx_version bytes = do
    value ← read v.tx_ver bytes
    ok (record p { tx_version = value })
  insert_singular_global p GlobalKey.fallback_locktime bytes = do
    value ← read v.lock_time bytes
    ok (record p { fallback_locktime = some value })
  insert_singular_global p GlobalKey.input_count bytes = do
    count ← read w.varint bytes
    ok (reset_inputs c p count)
  insert_singular_global p GlobalKey.output_count bytes = do
    count ← read w.varint bytes
    ok (reset_outputs c p count)
  insert_singular_global p GlobalKey.tx_modifiable bytes = do
    value ← read flags_codec bytes
    ok (record p { tx_modifiable = some value })
  insert_singular_global p GlobalKey.version bytes = do
    value ← read ver_codec bytes
    ok (record p { version = value })
  insert_singular_global p GlobalKey.proprietary bytes = err panicked
  insert_singular_global p (GlobalKey.unknown b) bytes = err panicked

module _ {T : Types} (c : Constants T) (w : Wire) (v : Codecs T) (e : Equalities T) where
  -- `insert_plural`
  unfoldable pub insert_plural_global :
      Psbt T → GlobalKey → Bytes → Bytes → Result (Fault PsbtError) (Psbt T)
  insert_plural_global p GlobalKey.xpub key bytes = do
    read_key ← read v.xpub key
    value ← read v.xpub_origin bytes
    ok (record p { xpubs = IndexMap.insert ⦃e = e.xpub⦄ read_key value p.xpubs })
  insert_plural_global p _ key bytes = err panicked

  abbrev pub global_key_map : KeyMap (Psbt T) GlobalKey
  global_key_map = record {
    proprietary_type = GlobalKey.proprietary;
    unknown_key = GlobalKey.unknown;
    proprietary_map = λ p. p.proprietary;
    with_proprietary_map = λ p m. record p { proprietary = m };
    unknown_map = λ p. p.unknown;
    with_unknown_map = λ p m. record p { unknown = m };
    retrieve_key_pair = retrieve_global c w v;
    insert_singular = insert_singular_global c w v;
    insert_plural = insert_plural_global;
  }
