-- ===== src/Psbt/Csval/Dbc/Whole.antt =====
-- What `Psbt::dbc_commit` of psbt/src/csval/dbc.rs leaves behind for an opret commitment.
use bp_std.Prelude.{
  List, [], ◌∷◌, ◌++◌, true, false, none, ◌≡◌, ◌⊎◌, inl, inr, refl, ◌∙◌, sym, ap, Bool-cases,
}
use bp_std.Prelude.Results.{Result, ok, err}
use bp_std.Consensus.{Types, Equalities}
use bp_std.Derive.TapTree.{Taproot}
use bp_std.Psbt.Coders.Values.{prop_key_instance}
use bp_std.Psbt.Data.Output.{Output}
use bp_std.Psbt.Data.Container.{Psbt, are_outputs_modifiable}
use bp_std.Psbt.Keys.Output.{output_key_type}
use bp_std.Psbt.KeyMap.{Fault, refused}
use bp_std.Psbt.KeyMap.Values.{Codecs}
use bp_std.Psbt.Csval.{Scripting, IsScripting}
use bp_std.Psbt.Csval.Tapret.{Tapret}
use bp_std.Psbt.Csval.Mpc.{Protocols}
use bp_std.Psbt.Csval.Mpc.Commit.{Merkle}
use bp_std.Psbt.Csval.Dbc.Agrees.{Agrees, opret_dbc_commit-Agrees}
use bp_std.Psbt.Csval.Dbc.{
  DbcPsbtError, no_proper_output, tx_outputs_modifiable, DbcPsbtProof, find_proper, is_proper,
  commit_first, dbc_commit, opret_dbc_commit, opret_proof,
}

module _ {T : Types} (p : Protocols) (s : Scripting T) (m : Merkle p s.Commitment)
    (t : Tapret T s.Commitment) (r : Taproot T) (v : Codecs T) (e : Equalities T) where
  module _ {D : Type 0} (proof : DbcPsbtProof p s m t r v e D) where
    -- where the first proper output stands among the outputs, and what is left there
    Hit :
        List (Output T) → List (Output T) × Result (Fault DbcPsbtError) (m.MerkleBlock × D) → Type 0
    Hit os after =
        (before : List (Output T)) × (o : Output T) × (rest : List (Output T)) × (os
          ≡ before ++ o ∷ rest)
        × (find_proper p s m t r v e proof before ≡ none)
        × (is_proper p s m t r v e proof.method o ≡ true)
        × (after ≡ (before ++ (proof.dbc_commit o).0 ∷ rest, (proof.dbc_commit o).1))

    commit_first-cases :
        (os : List (Output T))
        → ((find_proper p s m t r v e proof os ≡ none)
            × (commit_first p s m t r v e proof os
                ≡ (os, err (refused (no_proper_output proof.method)))))
          ⊎ Hit os (commit_first p s m t r v e proof os)
    unfolding commit_first Hit
    commit_first-cases [] = inl (refl, refl)
    commit_first-cases (o ∷ os) = elim (Bool-cases (is_proper p s m t r v e proof.method o)) [
      | inl proper ↦ inr ([], o, os, refl, refl, proper, rw proper refl)
      | inr other ↦ elim (commit_first-cases os) [
        | inl (none_there, f) ↦ inl (rw (other, none_there) refl, rw (other, f) refl)
        | inr (before, p', rest, split, none_there, proper, f) ↦ inr (
          o ∷ before,
          p',
          rest,
          ap (λ x. o ∷ x) split,
          rw (other, none_there) refl,
          proper,
          rw (other, f) refl,
        )
      ]
    ]

  dbc_commit-modifiable :
      (psbt : Psbt T)
      → are_outputs_modifiable psbt ≡ true
      → dbc_commit p s m t r v e (opret_proof p s m t r v e) psbt
        ≡ (psbt, err (refused tx_outputs_modifiable))
  unfolding dbc_commit
  dbc_commit-modifiable psbt h = rw h refl

  dbc_commit-fixed :
      (psbt : Psbt T) (outputs : List (Output T))
      (made : Result (Fault DbcPsbtError) (m.MerkleBlock × Unit {0}))
      → are_outputs_modifiable psbt ≡ false
      → commit_first p s m t r v e (opret_proof p s m t r v e) psbt.outputs ≡ (outputs, made)
      → dbc_commit p s m t r v e (opret_proof p s m t r v e) psbt
        ≡ (record psbt { outputs = outputs }, made)
  unfolding dbc_commit
  dbc_commit-fixed psbt outputs made h f = rw h (ap (λ x. (record psbt { outputs = x.0 }, x.1)) f)

  -- An opret commitment of a PSBT that succeeds was made where are_outputs_modifiable is false. It
  -- changes the first output with an OP_RETURN script and nothing else; in that output the opret
  -- commitment and the multi-protocol commitment are the same, and it hosts no longer.
  pub dbc_commit-Agrees :
      (lawful : IsScripting s) (psbt : Psbt T) (block : m.MerkleBlock)
      → (dbc_commit p s m t r v e (opret_proof p s m t r v e) psbt).1 ≡ ok (block, tt)
      → (are_outputs_modifiable psbt ≡ false)
        × (before : List (Output T)) × (o : Output T) × (rest : List (Output T)) × (after : Output
            T)
        × (c : s.Commitment) × (psbt.outputs ≡ before ++ o ∷ rest)
        × (find_proper p s m t r v e (opret_proof p s m t r v e) before ≡ none)
        × (s.is_op_return o.script ≡ true)
        × ((dbc_commit p s m t r v e (opret_proof p s m t r v e) psbt).0
            ≡ record psbt { outputs = before ++ after ∷ rest })
        × Agrees p s m v e after c
  unfolding Hit
  dbc_commit-Agrees lawful psbt block h = elim (Bool-cases (are_outputs_modifiable psbt)) [
    | inl modifiable ↦ let f = dbc_commit-modifiable psbt modifiable in cc
    | inr fixed ↦ elim (commit_first-cases (opret_proof p s m t r v e) psbt.outputs) [
      | inl (_, f) ↦
          let g =
            dbc_commit-fixed psbt psbt.outputs
              (err (refused (no_proper_output (opret_proof p s m t r v e).method))) fixed f in
          cc
      | inr (before, o, rest, split, none_there, proper, f) ↦
          let made = opret_dbc_commit p s m t r v e o in
          let g = dbc_commit-fixed psbt (before ++ made.0 ∷ rest) made.1 fixed f in
          let (c, agrees) =
            opret_dbc_commit-Agrees p s m v e lawful t r o block (sym (ap (λ x. x.1) g) ∙ h) in
          (fixed, before, o, rest, made.0, c, split, none_there, proper, ap (λ x. x.0) g, agrees)
    ]
  ]
