-- ===== src/Derive/TapTree.antt =====
-- `TapTree`, its builder and `ControlBlockFactory` of derive/src/taptree.rs. A method on `&mut self`
-- returns the new value beside its result.
pub mod Builder
use bp_std.Prelude.{
  ℕ, Bytes, [], ◌∷◌, ◌++◌, Bool, true, false, List, ◌==◌, if◌then◌else◌, Option, none, some,
}
use bp_std.Prelude.Results.{Result, ok, err, map_err, ◌>>=◌}
use bp_std.Consensus.{Types}

-- `LeafInfo`; the depth is a `u7`
pub record LeafInfo (T : Types) : Type 0 where
  pub depth : ℕ
  pub script : T.LeafScript

abbrev pub TapTree : Types → Type 0
TapTree T = List (LeafInfo T)

-- `MerkleBuoy<u7>` of commit_verify: how far the leafs that were pushed fill one tree
pub record MerkleBuoy : Type 1 where
  pub Buoy : Type 0
  pub zero : Buoy
  pub push : ℕ → Buoy → Buoy
  pub level : Buoy → ℕ

pub record FinalizedTree : Type 0 where

pub record UnfinalizedTree : Type 0 where
  pub level : ℕ

pub data InvalidTree : Type 0 where
  unfinalized : UnfinalizedTree → InvalidTree
  mountain_range : InvalidTree

pub record TapTreeBuilder (T : Types) (m : MerkleBuoy) : Type 0 where
  pub leafs : List (LeafInfo T)
  pub buoy : m.Buoy
  pub finalized : Bool

module _ {T : Types} (m : MerkleBuoy) where
  -- `TapTreeBuilder::new`
  abbrev pub new : TapTreeBuilder T m
  new = record { leafs = []; buoy = m.zero; finalized = false }

  unfoldable pub push_leaf :
      TapTreeBuilder T m → LeafInfo T → TapTreeBuilder T m × Result FinalizedTree Bool
  push_leaf b leaf =
      if b.finalized
      then (b, err (record {}))
      else let buoy = m.push leaf.depth b.buoy in
        let finalized = if m.level buoy == 0 then true else b.finalized in
        (record { leafs = b.leafs ++ leaf ∷ []; buoy = buoy; finalized = finalized }, ok finalized)

  -- `TapTreeBuilder::finish`, which `TapTree::from_builder` calls
  unfoldable pub finish : TapTreeBuilder T m → Result UnfinalizedTree (TapTree T)
  finish b = if b.finalized then ok b.leafs else err (record { level = m.level b.buoy })

  -- the loop of `TapTree::from_leafs`
  unfoldable pub push_leafs :
      TapTreeBuilder T m → List (LeafInfo T) → Result InvalidTree (TapTreeBuilder T m)
  unfolding push_leaf
  push_leafs b [] = ok b
  push_leafs b (leaf ∷ leafs) =
      let (b', pushed) = push_leaf b leaf in
      elim pushed [ ok _ ↦ push_leafs b' leafs | err e ↦ err mountain_range ]

  -- `TapTree::from_leafs`
  unfoldable pub from_leafs : List (LeafInfo T) → Result InvalidTree (TapTree T)
  unfolding push_leafs finish
  from_leafs leafs = do b ← push_leafs new leafs; map_err unfinalized (finish b)

-- `TapTree::with_single_leaf`, of a leaf script
unfoldable pub with_single_leaf : {T : Types} → T.LeafScript → TapTree T
with_single_leaf leaf = record { depth = 0; script = leaf } ∷ []

-- `TapLeafHash::with_leaf_script`, `InternalPk::to_output_pk` and `ControlBlock::with` of bp-core
pub record Taproot (T : Types) : Type 1 where
  pub leaf_hash : T.LeafScript → T.TapNodeHash
  pub OutputPk : Type 0
  pub Parity : Type 0
  pub TapMerklePath : Type 0
  pub to_output_pk : T.InternalPk → Option T.TapNodeHash → OutputPk × Parity
  pub empty_path : TapMerklePath
  pub control_block : T.LeafScript → T.InternalPk → Parity → TapMerklePath → T.ControlBlock

pub record ControlBlockFactory (T : Types) (r : Taproot T) : Type 0 where
  pub internal_pk : T.InternalPk
  pub output_pk : r.OutputPk
  pub parity : r.Parity
  pub merkle_root : T.TapNodeHash
  pub merkle_path : r.TapMerklePath
  pub remaining_leaves : List (LeafInfo T)

module _ {T : Types} (r : Taproot T) where
  -- `TapTree::merkle_root`, a `todo!` unless the tree is a single leaf: `none` is its panic
  unfoldable pub merkle_root : TapTree T → Option T.TapNodeHash
  merkle_root (leaf ∷ []) = some (r.leaf_hash leaf.script)
  merkle_root [] = none
  merkle_root (a ∷ b ∷ leafs) = none

  -- `ControlBlockFactory::with`, which takes the Merkle root of the tree
  unfoldable pub factory_with : T.InternalPk → TapTree T → Option (ControlBlockFactory T r)
  unfolding merkle_root
  factory_with internal_pk tap_tree = elim (merkle_root tap_tree) [
    | none ↦ none
    | some root ↦
        let (output_pk, parity) = r.to_output_pk internal_pk (some root) in
        some (record {
          internal_pk = internal_pk;
          output_pk = output_pk;
          parity = parity;
          merkle_root = root;
          merkle_path = r.empty_path;
          remaining_leaves = tap_tree;
        })
  ]

  -- `Vec::pop`
  abbrev pub pop : {A : Type 0} → List A → Option (List A × A)
  pop [] = none
  pop (a ∷ as') = elim (pop as') [
    | none ↦ some ([], a)
    | some (front, last) ↦ some (a ∷ front, last)
  ]

  -- `Iterator::next`
  unfoldable pub next :
      ControlBlockFactory T r → ControlBlockFactory T r × Option (T.ControlBlock × T.LeafScript)
  next f = elim (pop f.remaining_leaves) [
    | none ↦ (f, none)
    | some (front, leaf) ↦ (
      record f { remaining_leaves = front },
      some (r.control_block leaf.script f.internal_pk f.parity f.merkle_path, leaf.script),
    )
  ]
