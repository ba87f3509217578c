-- ===== src/Psbt/KeyMap/InputMap.antt =====
-- `KeyMap for Input` of psbt/src/maps.rs.
use bp_std.Prelude.{Bytes, List, [], none, some}
use bp_std.Prelude.Results.{Result, ok, err, ◌>>=◌}
use bp_std.Prelude.Eq.{bytes_instance}
use bp_std.Prelude.IndexMap
use bp_std.Consensus.{Types, Equalities}
use bp_std.Psbt.Ver.{PsbtVer}
use bp_std.Psbt.Errors.{PsbtError}
use bp_std.Psbt.Coders.Writer.{raw}
use bp_std.Psbt.Coders.Pairs.{PairToWrite}
use bp_std.Psbt.Coders.Arrays.{array, both, raw_bytes}
use bp_std.Psbt.Keys.Input.{InputKey, input_key_type}
use bp_std.Psbt.Data.Input.{Input}
use bp_std.Psbt.KeyMap.{Fault, panicked, refused, KeyMap}
use bp_std.Psbt.KeyMap.Values.{Codecs}
use bp_std.Psbt.KeyMap.Pairs.{once, option, iter, read}
use bp_std.Psbt.Errors.{invalid_por_string}

module _ {T : Types} (v : Codecs T) where
  -- `retrieve_key_pair`; the proprietary and unknown keys are unreachable
  unfoldable pub retrieve_input : Input T → PsbtVer → InputKey → List (PairToWrite InputKey)
  retrieve_input i version InputKey.non_witness_utxo =
      option InputKey.non_witness_utxo v.tx.encode i.non_witness_tx
  retrieve_input i version InputKey.witness_utxo =
      option InputKey.witness_utxo v.tx_out.encode i.witness_utxo
  retrieve_input i version InputKey.partial_sig =
      iter InputKey.partial_sig v.legacy_pk.encode v.legacy_sig.encode i.partial_sigs
  retrieve_input i version InputKey.sighash_type =
      option InputKey.sighash_type v.sighash_type.encode i.sighash_type
  retrieve_input i version InputKey.redeem_script =
      option InputKey.redeem_script v.redeem_script.encode i.redeem_script
  retrieve_input i version InputKey.witness_script =
      option InputKey.witness_script v.witness_script.encode i.witness_script
  retrieve_input i version InputKey.bip32_derivation =
      iter InputKey.bip32_derivation v.compressed_pk.encode v.key_origin.encode i.bip32_derivation
  retrieve_input i version InputKey.final_script_sig =
      option InputKey.final_script_sig v.sig_script.encode i.final_script_sig
  retrieve_input i version InputKey.final_witness =
      option InputKey.final_witness v.witness.encode i.final_witness
  retrieve_input i version InputKey.por_commitment =
      option InputKey.por_commitment raw i.proof_of_reserves
  retrieve_input i version InputKey.ripemd160 =
      iter InputKey.ripemd160 (array 20).encode raw i.ripemd160
  retrieve_input i version InputKey.sha256 = iter InputKey.sha256 (array 32).encode raw i.sha256
  retrieve_input i version InputKey.hash160 = iter InputKey.hash160 (array 20).encode raw i.hash160
  retrieve_input i version InputKey.hash256 = iter InputKey.hash256 (array 32).encode raw i.hash256
  retrieve_input i version InputKey.previous_txid =
      once InputKey.previous_txid (v.txid.encode i.previous_outpoint.txid)
  retrieve_input i version InputKey.output_index =
      once InputKey.output_index (v.vout.encode i.previous_outpoint.vout)
  retrieve_input i version InputKey.sequence =
      option InputKey.sequence v.seq_no.encode i.sequence_number
  retrieve_input i version InputKey.required_time_lock =
      option InputKey.required_time_lock v.lock_timestamp.encode i.required_time_lock
  retrieve_input i version InputKey.required_heigh_lock =
      option InputKey.required_heigh_lock v.lock_height.encode i.required_height_lock
  retrieve_input i version InputKey.tap_key_sig =
      option InputKey.tap_key_sig v.bip340_sig.encode i.tap_key_sig
  retrieve_input i version InputKey.tap_script_sig =
      iter InputKey.tap_script_sig (both v.internal_pk (array 32)).encode v.bip340_sig.encode
        i.tap_script_sig
  retrieve_input i version InputKey.tap_leaf_script =
      iter InputKey.tap_leaf_script v.control_block.encode v.leaf_script.encode i.tap_leaf_script
  retrieve_input i version InputKey.tap_bip32_derivation =
      iter InputKey.tap_bip32_derivation v.xonly_pk.encode v.tap_derivation.encode
        i.tap_bip32_derivation
  retrieve_input i version InputKey.tap_internal_key =
      option InputKey.tap_internal_key v.internal_pk.encode i.tap_internal_key
  retrieve_input i version InputKey.tap_merkle_root =
      option InputKey.tap_merkle_root v.tap_node_hash.encode i.tap_merkle_root
  retrieve_input i version InputKey.proprietary = []
  retrieve_input i version (InputKey.unknown b) = []

  abbrev read_por : Bytes → Result (Fault PsbtError) Bytes
  read_por bytes = do
    raw_data ← read raw_bytes bytes
    elim (v.from_utf8 raw_data) [ none ↦ err (refused invalid_por_string) | some text ↦ ok text ]

  -- `insert_singular`
  unfoldable pub insert_singular_input :
      Input T → InputKey → Bytes → Result (Fault PsbtError) (Input T)
  insert_singular_input i InputKey.non_witness_utxo bytes = do
    value ← read v.tx bytes
    ok (record i { non_witness_tx = some value })
  insert_singular_input i InputKey.witness_utxo bytes = do
    value ← read v.tx_out bytes
    ok (record i { witness_utxo = some value })
  insert_singular_input i InputKey.partial_sig bytes = err panicked
  insert_singular_input i InputKey.sighash_type bytes = do
    value ← read v.sighash_type bytes
    ok (record i { sighash_type = some value })
  insert_singular_input i InputKey.redeem_script bytes = do
    value ← read v.redeem_script bytes
    ok (record i { redeem_script = some value })
  insert_singular_input i InputKey.witness_script bytes = do
    value ← read v.witness_script bytes
    ok (record i { witness_script = some value })
  insert_singular_input i InputKey.bip32_derivation bytes = err panicked
  insert_singular_input i InputKey.final_script_sig bytes = do
    value ← read v.sig_script bytes
    ok (record i { final_script_sig = some value })
  insert_singular_input i InputKey.final_witness bytes = do
    value ← read v.witness bytes
    ok (record i { final_witness = some value })
  insert_singular_input i InputKey.por_commitment bytes = do
    por ← read_por bytes
    ok (record i { proof_of_reserves = some por })
  insert_singular_input i InputKey.ripemd160 bytes = err panicked
  insert_singular_input i InputKey.sha256 bytes = err panicked
  insert_singular_input i InputKey.hash160 bytes = err panicked
  insert_singular_input i InputKey.hash256 bytes = err panicked
  insert_singular_input i InputKey.previous_txid bytes = do
    value ← read v.txid bytes
    ok (record i { previous_outpoint = record i.previous_outpoint { txid = value } })
  insert_singular_input i InputKey.output_index bytes = do
    value ← read v.vout bytes
    ok (record i { previous_outpoint = record i.previous_outpoint { vout = value } })
  insert_singular_input i InputKey.sequence bytes = do
    value ← read v.seq_no bytes
    ok (record i { sequence_number = some value })
  insert_singular_input i InputKey.required_time_lock bytes = do
    value ← read v.lock_timestamp bytes
    ok (record i { required_time_lock = some value })
  insert_singular_input i InputKey.required_heigh_lock bytes = do
    value ← read v.lock_height bytes
    ok (record i { required_height_lock = some value })
  insert_singular_input i InputKey.tap_key_sig bytes = do
    value ← read v.bip340_sig bytes
    ok (record i { tap_key_sig = some value })
  insert_singular_input i InputKey.tap_script_sig bytes = err panicked
  insert_singular_input i InputKey.tap_leaf_script bytes = err panicked
  insert_singular_input i InputKey.tap_bip32_derivation bytes = err panicked
  insert_singular_input i InputKey.tap_internal_key bytes = do
    value ← read v.internal_pk bytes
    ok (record i { tap_internal_key = some value })
  insert_singular_input i InputKey.tap_merkle_root bytes = do
    value ← read v.tap_node_hash bytes
    ok (record i { tap_merkle_root = some value })
  insert_singular_input i InputKey.proprietary bytes = err panicked
  insert_singular_input i (InputKey.unknown b) bytes = err panicked

module _ {T : Types} (v : Codecs T) (e : Equalities T) where
  -- `insert_plural`
  unfoldable pub insert_plural_input :
      Input T → InputKey → Bytes → Bytes → Result (Fault PsbtError) (Input T)
  insert_plural_input i InputKey.non_witness_utxo key bytes = err panicked
  insert_plural_input i InputKey.witness_utxo key bytes = err panicked
  insert_plural_input i InputKey.partial_sig key bytes = do
    read_key ← read v.legacy_pk key
    value ← read v.legacy_sig bytes
    ok (record i { partial_sigs = IndexMap.insert ⦃e = e.legacy_pk⦄ read_key value i.partial_sigs })
  insert_plural_input i InputKey.sighash_type key bytes = err panicked
  insert_plural_input i InputKey.redeem_script key bytes = err panicked
  insert_plural_input i InputKey.witness_script key bytes = err panicked
  insert_plural_input i InputKey.bip32_derivation key bytes = do
    read_key ← read v.compressed_pk key
    value ← read v.key_origin bytes
    ok (record i {
      bip32_derivation = IndexMap.insert ⦃e = e.compressed_pk⦄ read_key value i.bip32_derivation;
    })
  insert_plural_input i InputKey.final_script_sig key bytes = err panicked
  insert_plural_input i InputKey.final_witness key bytes = err panicked
  insert_plural_input i InputKey.por_commitment key bytes = err panicked
  insert_plural_input i InputKey.ripemd160 key bytes = do
    read_key ← read (array 20) key
    ok (record i { ripemd160 = IndexMap.insert read_key bytes i.ripemd160 })
  insert_plural_input i InputKey.sha256 key bytes = do
    read_key ← read (array 32) key
    ok (record i { sha256 = IndexMap.insert read_key bytes i.sha256 })
  insert_plural_input i InputKey.hash160 key bytes = do
    read_key ← read (array 20) key
    ok (record i { hash160 = IndexMap.insert read_key bytes i.hash160 })
  insert_plural_input i InputKey.hash256 key bytes = do
    read_key ← read (array 32) key
    ok (record i { hash256 = IndexMap.insert read_key bytes i.hash256 })
  insert_plural_input i InputKey.previous_txid key bytes = err panicked
  insert_plural_input i InputKey.output_index key bytes = err panicked
  insert_plural_input i InputKey.sequence key bytes = err panicked
  insert_plural_input i InputKey.required_time_lock key bytes = err panicked
  insert_plural_input i InputKey.required_heigh_lock key bytes = err panicked
  insert_plural_input i InputKey.tap_key_sig key bytes = err panicked
  insert_plural_input i InputKey.tap_script_sig key bytes = do
    read_key ← read (both v.internal_pk (array 32)) key
    value ← read v.bip340_sig bytes
    ok (record i {
      tap_script_sig = IndexMap.insert ⦃e = e.tap_script_sig_key⦄ read_key value i.tap_script_sig;
    })
  insert_plural_input i InputKey.tap_leaf_script key bytes = do
    read_key ← read v.control_block key
    value ← read v.leaf_script bytes
    ok (record i {
      tap_leaf_script = IndexMap.insert ⦃e = e.control_block⦄ read_key value i.tap_leaf_script;
    })
  insert_plural_input i InputKey.tap_bip32_derivation key bytes = do
    read_key ← read v.xonly_pk key
    value ← read v.tap_derivation bytes
    ok (record i {
      tap_bip32_derivation = IndexMap.insert ⦃e = e.xonly_pk⦄ read_key value i.tap_bip32_derivation;
    })
  insert_plural_input i InputKey.tap_internal_key key bytes = err panicked
  insert_plural_input i InputKey.tap_merkle_root key bytes = err panicked
  insert_plural_input i InputKey.proprietary key bytes = err panicked
  insert_plural_input i (InputKey.unknown b) key bytes = err panicked

  abbrev pub input_key_map : KeyMap (Input T) InputKey
  input_key_map = record {
    proprietary_type = InputKey.proprietary;
    unknown_key = InputKey.unknown;
    proprietary_map = λ i. i.proprietary;
    with_proprietary_map = λ i m. record i { proprietary = m };
    unknown_map = λ i. i.unknown;
    with_unknown_map = λ i m. record i { unknown = m };
    retrieve_key_pair = retrieve_input v;
    insert_singular = insert_singular_input v;
    insert_plural = insert_plural_input;
  }
