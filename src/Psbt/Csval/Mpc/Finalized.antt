-- ===== src/Psbt/Csval/Mpc/Finalized.antt =====
-- What `Output::mpc_commit` of psbt/src/csval/mpc.rs leaves behind.
use bp_std.Prelude.{ℕ, Bool, true, some, ◌≡◌, ◌⊎◌, inl, inr, refl, Option-cases}
use bp_std.Prelude.Results.{ok, err, Result-cases}
use bp_std.Prelude.IndexMap
use bp_std.Consensus.{Types, Equalities}
use bp_std.Psbt.Coders.Values.{prop_key_eq, prop_key_instance}
use bp_std.Psbt.Data.Output.{Output}
use bp_std.Psbt.Keys.Output.{output_key_type}
use bp_std.Psbt.KeyMap.{Fault, refused, proprietary, has_proprietary}
use bp_std.Psbt.KeyMap.Values.{Codecs}
use bp_std.Psbt.KeyMap.OutputMap.{output_key_map}
use bp_std.Psbt.Csval.{Scripting}
use bp_std.Psbt.Csval.Mpc.{
  Protocols, MpcPsbtError, output_already_has_commitment, finalized, mpc_commitment_key,
  set_mpc_message, set_mpc_entropy, set_mpc_min_tree_depth,
}
use bp_std.Psbt.Csval.Mpc.Commit.{
  Merkle, mpc_proof_key, commit_source, mpc_commit, push_commitment, commit_tree,
}
use bp_std.Psbt.Csval.Stored.{get, stored, push-free, push-taken}

module _ {T : Types} (p : Protocols) (s : Scripting T) (t : Merkle p s.Commitment) (v : Codecs T)
    (e : Equalities T) where
  -- the output with a commitment and its proof
  abbrev pub sealed : Output T → t.MerkleTree → Output T
  sealed o tree =
      let one = stored v e o mpc_commitment_key (s.to_byte_array (t.commit_id tree)) in
      stored v e one mpc_proof_key (t.to_strict_serialized (t.merkle_block tree))

  push_commitment-cases :
      (o : Output T) (tree : t.MerkleTree)
      → ((left : Output T) × (r : Fault MpcPsbtError) × (push_commitment p s t v e o tree
            ≡ (left, err r)))
        ⊎ (push_commitment p s t v e o tree
            ≡ (sealed o tree, ok (t.commit_id tree, t.merkle_block tree)))
  push_commitment-cases o tree =
      let val = s.to_byte_array (t.commit_id tree) in
      let proof = t.to_strict_serialized (t.merkle_block tree) in
      let one = stored v e o mpc_commitment_key val in
      elim (Option-cases (get v e o mpc_commitment_key)) [
        | inr (a, taken) ↦ inl (
          o,
          refused output_already_has_commitment,
          rw (push_commitment, push-taken v e o mpc_commitment_key val a taken) refl,
        )
        | inl free ↦ elim (Option-cases (get v e one mpc_proof_key)) [
          | inr (a, taken) ↦ inl (
            one,
            refused output_already_has_commitment,
            rw
                (
                  push_commitment,
                  push-free v e o mpc_commitment_key val free,
                  push-taken v e one mpc_proof_key proof a taken,
                )
                refl,
          )
          | inl free_proof ↦ inr (
              rw
                (
                  push_commitment,
                  push-free v e o mpc_commitment_key val free,
                  push-free v e one mpc_proof_key proof free_proof,
                )
                refl)
        ]
      ]

  pub mpc_commit-cases :
      (o : Output T)
      → ((left : Output T) × (r : Fault MpcPsbtError) × (mpc_commit p s t v e o ≡ (left, err r)))
        ⊎ ((tree : t.MerkleTree) × (done : Bool) × (commit_source p s t v e o ≡ ok tree)
            × ((set_mpc_entropy p v e o (t.entropy tree)).1 ≡ ok done)
            × (mpc_commit p s t v e o ≡ (
              sealed (set_mpc_entropy p v e o (t.entropy tree)).0 tree,
              ok (t.commit_id tree, t.merkle_block tree),
            )))
  unfolding mpc_commit
  mpc_commit-cases o = elim (Result-cases (commit_source p s t v e o)) [
    | inr (r, f) ↦ inl (o, r, rw (mpc_commit, f) refl)
    | inl (tree, found) ↦
        let after = set_mpc_entropy p v e o (t.entropy tree) in
        elim (Result-cases after.1) [
          | inr (r, f) ↦ inl (after.0, refused r, rw (mpc_commit, found, commit_tree, f) refl)
          | inl (done, set) ↦ elim (push_commitment-cases after.0 tree) [
            | inl (left, r, f) ↦ inl (left, r, rw (mpc_commit, found, commit_tree, set, f) refl)
            | inr f ↦ inr (tree, done, found, set, rw (mpc_commit, found, commit_tree, set, f) refl)
          ]
        ]
  ]

  pub get-sealed-commitment :
      (o : Output T) (tree : t.MerkleTree)
      → get v e (sealed o tree) mpc_commitment_key ≡ some (s.to_byte_array (t.commit_id tree))
  unfolding proprietary prop_key_eq
  get-sealed-commitment o tree =
      let val = s.to_byte_array (t.commit_id tree) in
      let proof = t.to_strict_serialized (t.merkle_block tree) in
      rw
        (
          IndexMap.get-insert mpc_proof_key mpc_commitment_key proof
              (IndexMap.insert mpc_commitment_key val o.proprietary),
          IndexMap.get-insert mpc_commitment_key mpc_commitment_key val o.proprietary,
        )
        refl

  get-sealed-proof :
      (o : Output T) (tree : t.MerkleTree)
      → get v e (sealed o tree) mpc_proof_key ≡ some (t.to_strict_serialized (t.merkle_block tree))
  unfolding proprietary prop_key_eq
  get-sealed-proof o tree =
      let val = s.to_byte_array (t.commit_id tree) in
      let proof = t.to_strict_serialized (t.merkle_block tree) in
      rw
        (IndexMap.get-insert mpc_proof_key mpc_proof_key proof
          (IndexMap.insert mpc_commitment_key val o.proprietary))
        refl

  has-sealed-commitment :
      (o : Output T) (tree : t.MerkleTree)
      → has_proprietary (output_key_map v e) (sealed o tree) mpc_commitment_key ≡ true
  unfolding has_proprietary
  has-sealed-commitment o tree = rw (get-sealed-commitment o tree) refl

  refuses-set_message :
      (o : Output T) (i : p.ProtocolId) (m : p.Message)
      → has_proprietary (output_key_map v e) o mpc_commitment_key ≡ true
      → set_mpc_message p v e o i m ≡ (o, err finalized)
  unfolding set_mpc_message
  refuses-set_message o i m h = rw h refl

  refuses-set_entropy :
      (o : Output T) (n : ℕ)
      → has_proprietary (output_key_map v e) o mpc_commitment_key ≡ true
      → set_mpc_entropy p v e o n ≡ (o, err finalized)
  unfolding set_mpc_entropy
  refuses-set_entropy o n h = rw h refl

  refuses-set_depth :
      (o : Output T) (d : ℕ)
      → has_proprietary (output_key_map v e) o mpc_commitment_key ≡ true
      → set_mpc_min_tree_depth p v e o d ≡ (o, err finalized)
  unfolding set_mpc_min_tree_depth
  refuses-set_depth o d h = rw h refl

  -- A multi-protocol commitment that succeeds is that of the tree which the output's messages, depth
  -- and entropy give, and is stored with its proof; then the output refuses to set any message,
  -- entropy or depth and stays as it is.
  pub mpc_commit-finalizes :
      (o : Output T) (c : s.Commitment) (b : t.MerkleBlock) (i : p.ProtocolId) (m : p.Message)
      (n d : ℕ)
      → (mpc_commit p s t v e o).1 ≡ ok (c, b)
      → let after : Output T = (mpc_commit p s t v e o).0 in
        ((tree : t.MerkleTree) × (commit_source p s t v e o ≡ ok tree)
          × (c ≡ t.commit_id tree)
          × (b ≡ t.merkle_block tree))
        × (proprietary (output_key_map v e) after mpc_commitment_key ≡ some (s.to_byte_array c))
        × (proprietary (output_key_map v e) after mpc_proof_key ≡ some (t.to_strict_serialized b))
        × (set_mpc_message p v e after i m ≡ (after, err finalized))
        × (set_mpc_entropy p v e after n ≡ (after, err finalized))
        × (set_mpc_min_tree_depth p v e after d ≡ (after, err finalized))
  mpc_commit-finalizes o c b i m n d h = elim (mpc_commit-cases o) [
    | inl (left, r, f) ↦ cc
    | inr (tree, done, found, set, f) ↦
        let o1 : Output T = (set_mpc_entropy p v e o (t.entropy tree)).0 in
        let is_c : c ≡ t.commit_id tree = cc in
        let is_b : b ≡ t.merkle_block tree = cc in
        let has = has-sealed-commitment o1 tree in
        rw (f, is_c, is_b)
          (
            (tree, found, refl, refl),
            get-sealed-commitment o1 tree,
            get-sealed-proof o1 tree,
            refuses-set_message (sealed o1 tree) i m has,
            refuses-set_entropy (sealed o1 tree) n has,
            refuses-set_depth (sealed o1 tree) d has,
          )
  ]
