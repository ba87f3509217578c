-- ===== src/Psbt/Csval/Tapret/Commit.antt =====
-- What `Output::tapret_commit` of psbt/src/csval/tapret.rs leaves behind.
use bp_std.Prelude.{true, none, some, ◌≡◌, refl, ◌∙◌, arith}
use bp_std.Prelude.Results.{ok, err}
use bp_std.Consensus.{Types, Equalities}
use bp_std.Derive.TapTree.{TapTree, Taproot, with_single_leaf, merkle_root}
use bp_std.Psbt.Coders.Values.{prop_key_eq}
use bp_std.Psbt.Data.Output.{Output}
use bp_std.Psbt.Keys.Output.{output_key_type}
use bp_std.Psbt.KeyMap.{proprietary, has_proprietary}
use bp_std.Psbt.KeyMap.Values.{Codecs}
use bp_std.Psbt.KeyMap.OutputMap.{output_key_map}
use bp_std.Psbt.Csval.Stored.{get, stored, push-free, get-stored}
use bp_std.Psbt.Csval.Tapret.{
  Tapret, IsTapret, tapret_host_key, tapret_commitment_key, tapret_proof_key, tap_tree_non_empty,
  is_tapret_host, tapret_commitment, tapret_commit, tapret_proof, commit_keys,
}

module _ {T : Types} {C : Type 0} (t : Tapret T C) (r : Taproot T) (v : Codecs T)
    (e : Equalities T) where
  -- the output with a commitment, its proof, and the tree of its leaf
  abbrev committed : Output T → T.InternalPk → C → Output T
  committed o pk c =
      let commitment = t.commitment_with c 0 in
      let one = stored v e o tapret_commitment_key (t.write_commitment commitment) in
      let two = stored v e one tapret_proof_key (t.write_proof (t.root_proof 0 pk)) in
      record two {
        script = t.p2tr pk (some (r.leaf_hash (t.leaf_script commitment)));
        tap_tree = some (with_single_leaf (t.leaf_script commitment));
      }

  commit_keys-committed :
      (o : Output T) (pk : T.InternalPk) (c : C)
      → get v e o tapret_commitment_key ≡ none
      → get v e o tapret_proof_key ≡ none
      → commit_keys t r v e o pk (t.commitment_with c 0)
        ≡ (committed o pk c, ok (t.root_proof 0 pk))
  unfolding with_single_leaf merkle_root prop_key_eq
  commit_keys-committed o pk c free free_proof =
      let val = t.write_commitment (t.commitment_with c 0) in
      let one = stored v e o tapret_commitment_key val in
      let still_free : get v e one tapret_proof_key ≡ none =
        rw (get-stored v e o tapret_commitment_key tapret_proof_key val) free_proof in
      rw
        (
          commit_keys,
          push-free v e o tapret_commitment_key val free,
          push-free v e one tapret_proof_key (t.write_proof (t.root_proof 0 pk)) still_free,
        )
        refl

  host-parts :
      (o : Output T)
      → is_tapret_host t r v e o ≡ true
      → (has_proprietary (output_key_map v e) o tapret_host_key ≡ true)
        × (t.is_p2tr o.script ≡ true)
  unfolding is_tapret_host
  host-parts o h = ground arith

  tapret_commit-keys :
      (o : Output T) (pk : T.InternalPk) (c : C)
      → is_tapret_host t r v e o ≡ true
      → o.tap_tree ≡ none
      → o.tap_internal_key ≡ some pk
      → tapret_commit t r v e o c ≡ commit_keys t r v e o pk (t.commitment_with c 0)
  unfolding tapret_commit
  tapret_commit-keys o pk c host no_tree key =
      let (held, p2tr) = host-parts o host in simp (tapret_commit, p2tr, held, no_tree, key)

  tapret_commit-committed :
      (o : Output T) (pk : T.InternalPk) (c : C)
      → is_tapret_host t r v e o ≡ true
      → o.tap_tree ≡ none
      → o.tap_internal_key ≡ some pk
      → get v e o tapret_commitment_key ≡ none
      → get v e o tapret_proof_key ≡ none
      → tapret_commit t r v e o c ≡ (committed o pk c, ok (t.root_proof 0 pk))
  tapret_commit-committed o pk c host no_tree key free free_proof =
      tapret_commit-keys o pk c host no_tree key ∙ commit_keys-committed o pk c free free_proof

  get-committed-commitment :
      (o : Output T) (pk : T.InternalPk) (c : C)
      → get v e (committed o pk c) tapret_commitment_key
        ≡ some (t.write_commitment (t.commitment_with c 0))
  unfolding prop_key_eq proprietary
  get-committed-commitment o pk c =
      let val = t.write_commitment (t.commitment_with c 0) in
      let one = stored v e o tapret_commitment_key val in
      get-stored v e one tapret_proof_key tapret_commitment_key (t.write_proof (t.root_proof 0 pk))
      ∙ get-stored v e o tapret_commitment_key tapret_commitment_key val

  get-committed-proof :
      (o : Output T) (pk : T.InternalPk) (c : C)
      → get v e (committed o pk c) tapret_proof_key ≡ some (t.write_proof (t.root_proof 0 pk))
  unfolding prop_key_eq proprietary
  get-committed-proof o pk c =
      let one = stored v e o tapret_commitment_key (t.write_commitment (t.commitment_with c 0)) in
      get-stored v e one tapret_proof_key tapret_proof_key (t.write_proof (t.root_proof 0 pk))

  get-committed-host :
      (o : Output T) (pk : T.InternalPk) (c : C)
      → get v e (committed o pk c) tapret_host_key ≡ get v e o tapret_host_key
  unfolding prop_key_eq proprietary
  get-committed-host o pk c =
      let val = t.write_commitment (t.commitment_with c 0) in
      let one = stored v e o tapret_commitment_key val in
      get-stored v e one tapret_proof_key tapret_host_key (t.write_proof (t.root_proof 0 pk))
      ∙ get-stored v e o tapret_commitment_key tapret_host_key val

  module _ (lawful : IsTapret t) where
    is_tapret_host-committed :
        (o : Output T) (pk : T.InternalPk) (c : C)
        → is_tapret_host t r v e o ≡ true
        → is_tapret_host t r v e (committed o pk c) ≡ true
    unfolding is_tapret_host has_proprietary
    is_tapret_host-committed o pk c host =
        let (held, p2tr) = host-parts o host in
        rw (get-committed-host o pk c, held, lawful.p2tr_is_p2tr) refl

    tapret_commitment-committed :
        (o : Output T) (pk : T.InternalPk) (c : C)
        → tapret_commitment t r v e (committed o pk c) ≡ ok (t.commitment_with c 0)
    unfolding tapret_commitment
    tapret_commitment-committed o pk c =
        rw
          (
            lawful.p2tr_is_p2tr,
            get-committed-commitment o pk c,
            lawful.commitment_short (t.commitment_with c 0),
            lawful.commitment_back (t.commitment_with c 0),
          )
          refl

    tapret_proof-committed :
        (o : Output T) (pk : T.InternalPk) (c : C)
        → tapret_proof t r v e (committed o pk c) ≡ some (t.root_proof 0 pk)
    unfolding tapret_proof
    tapret_proof-committed o pk c =
        let short = lawful.proof_short (t.root_proof 0 pk) in
        let back = lawful.proof_back (t.root_proof 0 pk) in
        rw (get-committed-proof o pk c) (ground (arith, short, back))

    tapret_commit-refuses :
        (o : Output T) (tree : TapTree T) (c : C)
        → is_tapret_host t r v e o ≡ true
        → o.tap_tree ≡ some tree
        → tapret_commit t r v e o c ≡ (o, err tap_tree_non_empty)
    unfolding tapret_commit
    tapret_commit-refuses o tree c host has_tree =
        let (held, p2tr) = host-parts o host in rw (tapret_commit, p2tr, held, has_tree) refl

    -- Committing to a tapret host with an internal key, without a tree, a commitment or a proof,
    -- succeeds. Then the commitment and the proof are found, the tree is the leaf that commits, and
    -- the script is that of the internal key with the Merkle root of the tree; any other
    -- commitment is refused because of the tree, not as one that is already there, and the output
    -- stays as it is.
    pub tapret_commit-once :
        (o : Output T) (pk : T.InternalPk) (c d : C)
        → is_tapret_host t r v e o ≡ true
        → o.tap_tree ≡ none
        → o.tap_internal_key ≡ some pk
        → proprietary (output_key_map v e) o tapret_commitment_key ≡ none
        → proprietary (output_key_map v e) o tapret_proof_key ≡ none
        → let after : Output T = (tapret_commit t r v e o c).0 in
          let tree : TapTree T = with_single_leaf (t.leaf_script (t.commitment_with c 0)) in
          ((tapret_commit t r v e o c).1 ≡ ok (t.root_proof 0 pk))
          × (tapret_commitment t r v e after ≡ ok (t.commitment_with c 0))
          × (tapret_proof t r v e after ≡ some (t.root_proof 0 pk))
          × (after.tap_tree ≡ some tree)
          × (after.script ≡ t.p2tr pk (merkle_root r tree))
          × (tapret_commit t r v e after d ≡ (after, err tap_tree_non_empty))
    unfolding with_single_leaf merkle_root
    tapret_commit-once o pk c d host no_tree key free free_proof =
        rw (tapret_commit-committed o pk c host no_tree key free free_proof) (
          refl,
          tapret_commitment-committed o pk c,
          tapret_proof-committed o pk c,
          refl,
          refl,
          tapret_commit-refuses (committed o pk c)
              (with_single_leaf (t.leaf_script (t.commitment_with c 0))) d
              (is_tapret_host-committed o pk c host) refl,
        )
