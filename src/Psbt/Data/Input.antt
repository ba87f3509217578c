-- ===== src/Psbt/Data/Input.antt =====
-- `Input` of psbt/src/data.rs.
use bp_std.Prelude.{ℕ, Bytes, [], Option, none, some}
use bp_std.Prelude.IndexMap.{IndexMap}
use bp_std.Consensus.{Types, Constants}
use bp_std.Derive.Origins.{KeyOrigin, TapDerivation}
use bp_std.Psbt.Errors.{PropKey}
use bp_std.Psbt.Data.Tx.{Outpoint, TxOut, Tx, UnsignedTxIn, Prevout}

pub record Input (T : Types) : Type 0 where
  pub index : ℕ
  pub previous_outpoint : Outpoint T
  pub sequence_number : Option T.SeqNo
  pub required_time_lock : Option T.LockTimestamp
  pub required_height_lock : Option T.LockHeight
  pub non_witness_tx : Option (Tx T)
  pub witness_utxo : Option (TxOut T)
  pub partial_sigs : IndexMap T.LegacyPk T.LegacySig
  pub sighash_type : Option T.SighashType
  pub redeem_script : Option T.RedeemScript
  pub witness_script : Option T.WitnessScript
  pub bip32_derivation : IndexMap T.CompressedPk (KeyOrigin T)
  pub final_script_sig : Option T.SigScript
  pub final_witness : Option T.Witness
  pub proof_of_reserves : Option Bytes
  pub ripemd160 : IndexMap Bytes Bytes
  pub sha256 : IndexMap Bytes Bytes
  pub hash160 : IndexMap Bytes Bytes
  pub hash256 : IndexMap Bytes Bytes
  pub tap_key_sig : Option T.Bip340Sig
  pub tap_script_sig : IndexMap (T.InternalPk × Bytes) T.Bip340Sig
  pub tap_leaf_script : IndexMap T.ControlBlock T.LeafScript
  pub tap_bip32_derivation : IndexMap T.XOnlyPk (TapDerivation T)
  pub tap_internal_key : Option T.InternalPk
  pub tap_merkle_root : Option T.TapNodeHash
  pub proprietary : IndexMap PropKey Bytes
  pub unknown : IndexMap ℕ (IndexMap Bytes Bytes)

module _ {T : Types} (c : Constants T) where
  -- `Input::new`, with the outpoint of a coinbase
  abbrev pub new : ℕ → Input T
  new index = record {
    index = index;
    previous_outpoint = record { txid = c.coinbase_txid; vout = c.coinbase_vout };
    sequence_number = none;
    required_time_lock = none;
    required_height_lock = none;
    non_witness_tx = none;
    witness_utxo = none;
    partial_sigs = [];
    sighash_type = none;
    redeem_script = none;
    witness_script = none;
    bip32_derivation = [];
    final_script_sig = none;
    final_witness = none;
    proof_of_reserves = none;
    ripemd160 = [];
    sha256 = [];
    hash160 = [];
    hash256 = [];
    tap_key_sig = none;
    tap_script_sig = [];
    tap_leaf_script = [];
    tap_bip32_derivation = [];
    tap_internal_key = none;
    tap_merkle_root = none;
    proprietary = [];
    unknown = [];
  }

  -- `Input::with_txin`, which `Input::from_unsigned_txin` calls
  unfoldable pub with_txin : UnsignedTxIn T → ℕ → Input T
  with_txin txin index = record (new index) {
    previous_outpoint = txin.prev_output;
    sequence_number = some txin.sequence;
  }

  -- `Input::to_unsigned_txin`
  unfoldable pub to_unsigned_txin : Input T → UnsignedTxIn T
  to_unsigned_txin i = record {
    prev_output = i.previous_outpoint;
    sequence = elim i.sequence_number [
      | none ↦ c.seq_no_from_consensus_u32 0
      | some sequence ↦ sequence
    ];
  }

module _ {T : Types} where
  -- `Input::prev_txout` panics where there is no witness output: that is `none` here
  abbrev pub prev_txout : Input T → Option (TxOut T)
  prev_txout i = i.witness_utxo

  -- `Input::value`
  abbrev pub value : Input T → Option ℕ
  value i = elim i.witness_utxo [ none ↦ none | some txout ↦ some txout.value ]

  -- `Input::prevout`
  abbrev pub prevout : Input T → Option (Prevout T)
  prevout i = elim (value i) [
    | none ↦ none
    | some sats ↦
        some (record {
          txid = i.previous_outpoint.txid;
          vout = i.previous_outpoint.vout;
          value = sats;
        })
  ]
