-- ===== src/Psbt/Data/Unsigned.antt =====
-- The unsigned transaction of a PSBT in psbt/src/data.rs.
use bp_std.Prelude.{ℕ, suc, List, [], ◌∷◌, map, ◌≡◌, refl, ap, arith}
use bp_std.Consensus.{Types, Constants}
use bp_std.Psbt.Data.Tx.{TxOut, UnsignedTxIn, UnsignedTx}
use bp_std.Psbt.Data.Input
use bp_std.Psbt.Data.Output
use bp_std.Psbt.Data.Output.{to_txout}
use bp_std.Psbt.Data.Container.{enumerate_from, reset_from_unsigned_tx, to_unsigned_tx, Psbt}

module _ {T : Types} (c : Constants T) where
  inputs_back :
      (n : ℕ) (is' : List (UnsignedTxIn T))
      → map (Input.to_unsigned_txin c) (enumerate_from (Input.with_txin c) n is') ≡ is'
  unfolding enumerate_from Input.to_unsigned_txin Input.with_txin
  inputs_back n [] = refl
  inputs_back n (i ∷ is') = ap (λ rest. i ∷ rest) (inputs_back (suc n) is')

  outputs_back :
      (n : ℕ) (os : List (TxOut T)) → map to_txout (enumerate_from (Output.with_txout c) n os) ≡ os
  unfolding enumerate_from to_txout Output.with_txout
  outputs_back n [] = refl
  outputs_back n (o ∷ os) = ap (λ rest. o ∷ rest) (outputs_back (suc n) os)

  -- Whatever the PSBT held before, after it is reset from an unsigned transaction its unsigned
  -- transaction is that one.
  pub to_unsigned_tx-reset_from_unsigned_tx :
      (psbt : Psbt T) (tx : UnsignedTx T) → to_unsigned_tx c (reset_from_unsigned_tx c psbt tx) ≡ tx
  unfolding to_unsigned_tx reset_from_unsigned_tx
  to_unsigned_tx-reset_from_unsigned_tx psbt tx =
      ground (arith, inputs_back 0 tx.inputs, outputs_back 0 tx.outputs)
