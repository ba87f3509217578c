-- ===== src/Psbt/Tests/Trees.antt =====
-- The theorems on tap trees of derive/src/taptree.rs and psbt/src/coders.rs at a concrete tree.
use bp_std.Prelude.{◌<◌, [], ◌∷◌, ◌≡◌, ◌↔◌, refl, arith}
use bp_std.Prelude.Results.{ok}
use bp_std.Derive.TapTree.{LeafInfo, TapTree, from_leafs}
use bp_std.Derive.TapTree.Builder.{Completes, from_leafs_iff}
use bp_std.Psbt.Coders.TapTrees.{encode_tap_tree, decode_tap_tree}
use bp_std.Psbt.Coders.TapTrees.RoundTrip.{IsLeaf, decode_tap_tree-encode_tap_tree}
use bp_std.Psbt.Tests.CompactSize.{wire, wire-IsWire, wire-end}
use bp_std.Psbt.Tests.Sample.{types, leafs, merkle_buoy}

-- a leaf at depth 1 and two at depth 2
abbrev three_leafs : TapTree types
three_leafs =
    record { depth = 1; script = 5 }
    ∷ record { depth = 2; script = 6 }
    ∷ record { depth = 2; script = 7 }
    ∷ []

three_leafs-Completes : Completes merkle_buoy merkle_buoy.zero three_leafs
three_leafs-Completes = (λ h. omega (arith, h), (λ h. omega (arith, h), refl))

from_leafs_iff_example :
    (from_leafs merkle_buoy three_leafs ≡ ok three_leafs)
    ↔ ((three_leafs ≡ three_leafs) × Completes merkle_buoy merkle_buoy.zero three_leafs)
from_leafs_iff_example = from_leafs_iff merkle_buoy three_leafs three_leafs

shallow-IsLeaf : (leaf : LeafInfo types) → leaf.depth < 128 → IsLeaf wire leafs merkle_buoy leaf
shallow-IsLeaf leaf small = record {
  depth_small = small;
  version_byte = omega arith;
  ver = tt;
  version_back = refl;
  script_short = omega arith;
  script_back = refl;
}

decode_tap_tree-encode_tap_tree_example :
    decode_tap_tree wire leafs merkle_buoy
      (encode_tap_tree wire leafs merkle_buoy three_leafs).written
    ≡ ok (three_leafs, [])
decode_tap_tree-encode_tap_tree_example =
    decode_tap_tree-encode_tap_tree wire leafs merkle_buoy wire-IsWire wire-end three_leafs
      (
        shallow-IsLeaf (record { depth = 1; script = 5 }) (omega arith),
        (
          shallow-IsLeaf (record { depth = 2; script = 6 }) (omega arith),
          (shallow-IsLeaf (record { depth = 2; script = 7 }) (omega arith), tt),
        ),
      )
      three_leafs-Completes
