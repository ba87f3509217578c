-- ===== src/Psbt/KeyMap/Values.antt =====
-- The interface of psbt/src/maps.rs to the coders: one codec for each type of value or key.
use bp_std.Prelude.{ℕ, Bytes, Option}
use bp_std.Consensus.{Types}
use bp_std.Derive.Origins.{XpubOrigin, KeyOrigin, TapDerivation}
use bp_std.Derive.TapTree.{TapTree}
use bp_std.Psbt.Data.Tx.{Tx, TxOut, UnsignedTx}
use bp_std.Psbt.Coders.Wire.{Codec}

pub record Codecs (T : Types) : Type 0 where
  pub unsigned_tx : Codec (UnsignedTx T)
  pub xpub : Codec T.Xpub
  pub xpub_origin : Codec (XpubOrigin T)
  pub tx_ver : Codec T.TxVer
  pub lock_time : Codec T.LockTime
  pub tx : Codec (Tx T)
  pub tx_out : Codec (TxOut T)
  pub txid : Codec T.Txid
  pub vout : Codec T.Vout
  pub seq_no : Codec T.SeqNo
  pub lock_timestamp : Codec T.LockTimestamp
  pub lock_height : Codec T.LockHeight
  pub legacy_pk : Codec T.LegacyPk
  pub legacy_sig : Codec T.LegacySig
  pub sighash_type : Codec T.SighashType
  pub redeem_script : Codec T.RedeemScript
  pub witness_script : Codec T.WitnessScript
  pub compressed_pk : Codec T.CompressedPk
  pub key_origin : Codec (KeyOrigin T)
  pub sig_script : Codec T.SigScript
  pub witness : Codec T.Witness
  pub bip340_sig : Codec T.Bip340Sig
  pub internal_pk : Codec T.InternalPk
  pub control_block : Codec T.ControlBlock
  pub leaf_script : Codec T.LeafScript
  pub xonly_pk : Codec T.XOnlyPk
  pub tap_derivation : Codec (TapDerivation T)
  pub tap_node_hash : Codec T.TapNodeHash
  pub tap_tree : Codec (TapTree T)
  pub sats : Codec ℕ
  pub script_pubkey : Codec T.ScriptPubkey
  -- `String::from_utf8`: the same bytes, if they are UTF-8
  pub from_utf8 : Bytes → Option Bytes
