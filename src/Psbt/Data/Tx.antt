-- ===== src/Psbt/Data/Tx.antt =====
-- Transactions: the structures of bp-core that psbt/src/data.rs takes apart, and `UnsignedTx`,
-- `UnsignedTxIn` and `Prevout`.
use bp_std.Prelude.{ℕ, List, [], ◌∷◌, map, ◌≡◌, refl, ap, arith, All}
use bp_std.Consensus.{Types, Constants}

pub record Outpoint (T : Types) : Type 0 where
  pub txid : T.Txid
  pub vout : T.Vout

pub record TxIn (T : Types) : Type 0 where
  pub prev_output : Outpoint T
  pub sig_script : T.SigScript
  pub sequence : T.SeqNo
  pub witness : T.Witness

pub record TxOut (T : Types) : Type 0 where
  pub value : ℕ
  pub script_pubkey : T.ScriptPubkey

pub record Tx (T : Types) : Type 0 where
  pub version : T.TxVer
  pub inputs : List (TxIn T)
  pub outputs : List (TxOut T)
  pub lock_time : T.LockTime

pub record UnsignedTxIn (T : Types) : Type 0 where
  pub prev_output : Outpoint T
  pub sequence : T.SeqNo

pub record UnsignedTx (T : Types) : Type 0 where
  pub version : T.TxVer
  pub inputs : List (UnsignedTxIn T)
  pub outputs : List (TxOut T)
  pub lock_time : T.LockTime

pub record Prevout (T : Types) : Type 0 where
  pub txid : T.Txid
  pub vout : T.Vout
  pub value : ℕ

module _ {T : Types} where
  -- `Prevout::new` and `Prevout::outpoint`
  unfoldable pub prevout_new : Outpoint T → ℕ → Prevout T
  prevout_new o value = record { txid = o.txid; vout = o.vout; value = value }

  unfoldable pub outpoint : Prevout T → Outpoint T
  outpoint p = record { txid = p.txid; vout = p.vout }

  -- `UnsignedTxIn::with_sigs_removed`
  unfoldable pub input_sigs_removed : TxIn T → UnsignedTxIn T
  input_sigs_removed i = record { prev_output = i.prev_output; sequence = i.sequence }

  -- `UnsignedTx::with_sigs_removed`
  unfoldable pub with_sigs_removed : Tx T → UnsignedTx T
  with_sigs_removed tx = record {
    version = tx.version;
    inputs = map input_sigs_removed tx.inputs;
    outputs = tx.outputs;
    lock_time = tx.lock_time;
  }

module _ {T : Types} (c : Constants T) where
  -- `From<UnsignedTxIn> for TxIn`, which is `UnsignedTxIn::finalize`
  unfoldable pub finalize_input : UnsignedTxIn T → TxIn T
  finalize_input i = record {
    prev_output = i.prev_output;
    sig_script = c.empty_sig_script;
    sequence = i.sequence;
    witness = c.empty_witness;
  }

  -- `UnsignedTx::finalize`; the number of inputs was that of a `VarIntArray`
  unfoldable pub finalize : UnsignedTx T → Tx T
  finalize tx = record {
    version = tx.version;
    inputs = map (finalize_input) tx.inputs;
    outputs = tx.outputs;
    lock_time = tx.lock_time;
  }

  sigs_removed-map :
      (is' : List (UnsignedTxIn T)) → map input_sigs_removed (map finalize_input is') ≡ is'
  unfolding input_sigs_removed finalize_input
  sigs_removed-map [] = refl
  sigs_removed-map (i ∷ is') = ap (λ rest. i ∷ rest) (sigs_removed-map is')

  abbrev pub IsUnsigned : TxIn T → Type 0
  IsUnsigned i = (i.sig_script ≡ c.empty_sig_script) × (i.witness ≡ c.empty_witness)

  finalize-map :
      (is' : List (TxIn T))
      → All IsUnsigned is'
      → map finalize_input (map input_sigs_removed is') ≡ is'
  unfolding input_sigs_removed finalize_input
  finalize-map [] u = refl
  finalize-map (i ∷ is') ((s, w), u) = ground (arith, s, w, finalize-map is' u)

  -- An unsigned transaction is that of its final form with the signatures removed, and a
  -- transaction whose inputs have empty scripts and witnesses is the final form of its unsigned
  -- one.
  pub finalize-with_sigs_removed :
      (unsigned : UnsignedTx T) (tx : Tx T)
      → All IsUnsigned tx.inputs
      → (with_sigs_removed (finalize unsigned) ≡ unsigned) × (finalize (with_sigs_removed tx) ≡ tx)
  unfolding with_sigs_removed finalize
  finalize-with_sigs_removed unsigned tx u = (
    ap (λ is'. record unsigned { inputs = is' }) (sigs_removed-map unsigned.inputs),
    ap (λ is'. record tx { inputs = is' }) (finalize-map tx.inputs u),
  )
