-- ===== src/Psbt/Csval/Dbc/Agrees.antt =====
-- What `DbcPsbtProof::dbc_commit` of psbt/src/csval/dbc.rs leaves behind for an opret commitment.
use bp_std.Prelude.{true, false, some, ◌≡◌, ◌⊎◌, inl, inr, refl, ◌∙◌, ap, Option-cases, Bool-cases}
use bp_std.Prelude.Results.{Result, ok, err}
use bp_std.Prelude.IndexMap
use bp_std.Consensus.{Types, Equalities}
use bp_std.Derive.TapTree.{Taproot}
use bp_std.Psbt.Coders.Values.{prop_key_eq, prop_key_instance}
use bp_std.Psbt.Data.Output.{Output}
use bp_std.Psbt.Keys.Output.{output_key_type}
use bp_std.Psbt.KeyMap.{Fault, refused, proprietary, has_proprietary}
use bp_std.Psbt.KeyMap.Values.{Codecs}
use bp_std.Psbt.KeyMap.OutputMap.{output_key_map}
use bp_std.Psbt.Csval.{Scripting, IsScripting}
use bp_std.Psbt.Csval.Stored.{get, push-taken}
use bp_std.Psbt.Csval.Opret.{
  host_key, commitment_key, output_already_has_commitment, is_opret_host, opret_commitment,
  opret_commit, commit_key,
}
use bp_std.Psbt.Csval.Opret.Commit.{
  opret_commit-committed, opret_commitment-committed, not-host-committed, committed,
}
use bp_std.Psbt.Csval.Tapret.{Tapret}
use bp_std.Psbt.Csval.Mpc.{Protocols, MpcPsbtError, set_mpc_entropy, mpc_commitment_key}
use bp_std.Psbt.Csval.Mpc.Commit.{Merkle}
use bp_std.Psbt.Csval.Mpc.Finalized.{mpc_commit-cases, get-sealed-commitment, sealed}
use bp_std.Psbt.Csval.Dbc.{
  DbcPsbtError, no_host_output, opret, from_mpc, opret_after_mpc, opret_dbc_commit, proved_opret,
}

module _ {T : Types} (s : Scripting T) (v : Codecs T) (e : Equalities T) where
  opret_commit-cases :
      (o : Output T) (c : s.Commitment)
      → is_opret_host s v e o ≡ true
      → (has_proprietary (output_key_map v e) o commitment_key ≡ false)
        ⊎ ((left : Output T) × (opret_commit s v e o c ≡ (left, err output_already_has_commitment)))
  unfolding opret_commit has_proprietary proprietary
  opret_commit-cases o c host = elim (Option-cases (get v e o commitment_key)) [
    | inl free ↦ inl (rw free refl)
    | inr (a, taken) ↦
        let val = s.to_byte_array c in
        let changed : Output T = record o { script = s.op_return val } in
        inr (
          changed,
          rw (opret_commit, host, commit_key, push-taken v e changed commitment_key val a taken)
              refl,
        )
  ]

module _ {T : Types} (p : Protocols) (s : Scripting T) (m : Merkle p s.Commitment) (v : Codecs T)
    (e : Equalities T) where
  -- the output with both commitments
  abbrev pub Agrees : Output T → s.Commitment → Type 0
  Agrees after c =
      (opret_commitment s v e after ≡ ok c)
      × (proprietary (output_key_map v e) after mpc_commitment_key ≡ some (s.to_byte_array c))
      × (is_opret_host s v e after ≡ false)

  module _ (lawful : IsScripting s) where
    get-committed-mpc :
        (o : Output T) (c : s.Commitment)
        → get v e (committed s lawful v e o c) mpc_commitment_key ≡ get v e o mpc_commitment_key
    unfolding proprietary prop_key_eq
    get-committed-mpc o c =
        let with_commitment = IndexMap.insert commitment_key (s.to_byte_array c) o.proprietary in
        IndexMap.get-shift_remove host_key mpc_commitment_key with_commitment
        ∙ IndexMap.get-insert commitment_key mpc_commitment_key (s.to_byte_array c) o.proprietary

    committed-Agrees :
        (o : Output T) (c : s.Commitment)
        → get v e o mpc_commitment_key ≡ some (s.to_byte_array c)
        → Agrees (committed s lawful v e o c) c
    committed-Agrees o c found = (
      opret_commitment-committed s lawful v e o c,
      get-committed-mpc o c ∙ found,
      not-host-committed s lawful v e o c,
    )

    module _ (t : Tapret T s.Commitment) (r : Taproot T) where
      Outcome : Output T × Result (Fault DbcPsbtError) (m.MerkleBlock × Unit {0}) → Type 0
      Outcome made =
          ((left : Output T) × (f : Fault DbcPsbtError) × (made ≡ (left, err f)))
          ⊎ ((after : Output T) × (c : s.Commitment) × (block : m.MerkleBlock) × (made
                ≡ (after, ok (block, tt)))
              × Agrees after c)

      failed-Outcome :
          (left : Output T) (f : Fault MpcPsbtError)
          → Outcome (opret_after_mpc p s m t r v e (left, err f))
      unfolding Outcome
      failed-Outcome left f = inl (left, from_mpc p s m t r v e f, refl)

      hosted-cases :
          (o : Output T) (c : s.Commitment) (block : m.MerkleBlock)
          → get v e o mpc_commitment_key ≡ some (s.to_byte_array c)
          → is_opret_host s v e o ≡ true
          → Outcome (proved_opret p s m t r v e block (opret_commit s v e o c))
      unfolding Outcome
      hosted-cases o c block found host = elim (opret_commit-cases s v e o c host) [
        | inr (left, f) ↦ inl (
          left,
          refused (opret output_already_has_commitment),
          ap (proved_opret p s m t r v e block) f,
        )
        | inl free ↦ inr (
          committed s lawful v e o c,
          c,
          block,
          ap (proved_opret p s m t r v e block) (opret_commit-committed s lawful v e o c host free),
          committed-Agrees o c found,
        )
      ]

      after_mpc-cases :
          (o : Output T) (c : s.Commitment) (block : m.MerkleBlock)
          → get v e o mpc_commitment_key ≡ some (s.to_byte_array c)
          → Outcome (opret_after_mpc p s m t r v e (o, ok (c, block)))
      unfolding Outcome
      after_mpc-cases o c block found = elim (Bool-cases (is_opret_host s v e o)) [
        | inr no_host ↦ inl (o, refused no_host_output, rw no_host refl)
        | inl host ↦ rw host (hosted-cases o c block found host)
      ]

      opret_dbc_commit-cases : (o : Output T) → Outcome (opret_dbc_commit p s m t r v e o)
      unfolding opret_dbc_commit
      opret_dbc_commit-cases o = elim (mpc_commit-cases p s m v e o) [
        | inl (left, f, is_f) ↦ rw is_f (failed-Outcome left f)
        | inr (tree, done, _, set, f) ↦
            let o1 = (set_mpc_entropy p v e o (m.entropy tree)).0 in
            rw f (
              after_mpc-cases (sealed p s m v e o1 tree) (m.commit_id tree) (m.merkle_block tree)
                (get-sealed-commitment p s m v e o1 tree))
      ]

      pub opret_dbc_commit-Agrees :
          (o : Output T) (block : m.MerkleBlock)
          → (opret_dbc_commit p s m t r v e o).1 ≡ ok (block, tt)
          → (c : s.Commitment) × Agrees (opret_dbc_commit p s m t r v e o).0 c
      unfolding Outcome
      opret_dbc_commit-Agrees o block h = elim (opret_dbc_commit-cases o) [
        | inl (left, f, g) ↦ cc
        | inr (after, c, found, g, agrees) ↦ (c, rw g agrees)
      ]
