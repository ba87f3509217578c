-- ===== src/Derive/TapTree/Builder.antt =====
-- Which leafs `TapTree::from_leafs` of derive/src/taptree.rs accepts.
use bp_std.Prelude.{[], ◌∷◌, ◌++◌, Bool, false, List, ◌≡◌, ◌≢◌, ◌↔◌, arith, append_assoc}
use bp_std.Prelude.Results.{Result, ok, map_err, ◌>>=◌}
use bp_std.Consensus.{Types}
use bp_std.Derive.TapTree.{
  LeafInfo, TapTree, MerkleBuoy, TapTreeBuilder, InvalidTree, push_leafs, from_leafs, finish,
  unfinalized,
}

module _ {T : Types} (m : MerkleBuoy) where
  -- The leafs, pushed one after another, make up a tree with the last of them and not before.
  abbrev pub Completes : m.Buoy → List (LeafInfo T) → Type 0
  Completes buoy [] = ⊥
  Completes buoy (leaf ∷ []) = m.level (m.push leaf.depth buoy) ≡ 0
  Completes buoy (leaf ∷ next ∷ leafs) =
      (m.level (m.push leaf.depth buoy) ≢ 0) × Completes (m.push leaf.depth buoy) (next ∷ leafs)

  abbrev at : List (LeafInfo T) → m.Buoy → Bool → TapTreeBuilder T m
  at leafs buoy finalized = record { leafs = leafs; buoy = buoy; finalized = finalized }

  finish_after : TapTreeBuilder T m → List (LeafInfo T) → Result InvalidTree (TapTree T)
  unfolding push_leafs finish
  finish_after b leafs = do b' ← push_leafs m b leafs; map_err unfinalized (finish m b')

  finish_after-Completes :
      (before : List (LeafInfo T)) (buoy : m.Buoy) (leafs : List (LeafInfo T))
      → Completes buoy leafs
      → finish_after (at before buoy false) leafs ≡ ok (before ++ leafs)
  unfolding finish_after
  finish_after-Completes before buoy [] h = absurd h
  finish_after-Completes before buoy (leaf ∷ []) h = ground arith
  finish_after-Completes before buoy (leaf ∷ next ∷ leafs) (open_level, h) =
      let ih =
        finish_after-Completes (before ++ leaf ∷ []) (m.push leaf.depth buoy) (next ∷ leafs) h in
      ground (arith, ih, append_assoc before (leaf ∷ []) (next ∷ leafs))

  Completes-finish_after :
      (before : List (LeafInfo T)) (buoy : m.Buoy) (leafs : List (LeafInfo T)) (t : TapTree T)
      → finish_after (at before buoy false) leafs ≡ ok t
      → (t ≡ before ++ leafs) × Completes buoy leafs
  unfolding finish_after
  Completes-finish_after before buoy [] t h = cc
  Completes-finish_after before buoy (leaf ∷ []) t h = ground arith
  Completes-finish_after before buoy (leaf ∷ next ∷ leafs) t h = ground (
    arith,
    append_assoc before (leaf ∷ []) (next ∷ leafs),
    Completes-finish_after (before ++ leaf ∷ []) (m.push leaf.depth buoy) (next ∷ leafs) t,
  )

  -- A tree is made of leafs exactly where they make up one with the last of them and not before;
  -- its leafs are those that were given, in their order.
  pub from_leafs_iff :
      (leafs : List (LeafInfo T)) (t : TapTree T)
      → (from_leafs m leafs ≡ ok t) ↔ ((t ≡ leafs) × Completes m.zero leafs)
  unfolding from_leafs finish_after
  from_leafs_iff leafs t = (
    λ h. Completes-finish_after [] m.zero leafs t h,
    λ (same, h). rw same (finish_after-Completes [] m.zero leafs h),
  )
