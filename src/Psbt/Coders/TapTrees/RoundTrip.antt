-- ===== src/Psbt/Coders/TapTrees/RoundTrip.antt =====
-- A tap tree that psbt/src/coders.rs writes is read back.
use bp_std.Prelude.{
  ℕ, zero, suc, ◌<◌, ◌≤◌, ◌^◌, ltb, Bytes, [], ◌∷◌, ◌++◌, List, length, length-append, All,
  append_assoc, Option, some, true, ◌≡◌, refl, ◌∙◌, arith,
}
use bp_std.Prelude.Results.{ok, err}
use bp_std.Consensus.{Types}
use bp_std.Derive.TapTree.{LeafInfo, TapTree, MerkleBuoy}
use bp_std.Derive.TapTree.Builder.{Completes, from_leafs_iff}
use bp_std.Psbt.Errors.{DecodeError, io}
use bp_std.Psbt.Coders.Reader.{read_exact, read_exact-append, bind-ok}
use bp_std.Psbt.Coders.Writer.{raw, ◌▸◌, encode_each}
use bp_std.Psbt.Coders.Wire.{Wire, IsWire}
use bp_std.Psbt.Coders.TapTrees.{
  Leafs, or_fail, encode_leaf, encode_tap_tree, decode_leaf, decode_leafs, decode_tap_tree, tree_of,
}

or_fail-some :
    {A : Type 0} {a : A} {o : Option A} {s : Bytes} (e : DecodeError)
    → o ≡ some a
    → or_fail e o s ≡ ok (a, s)
or_fail-some e h = rw h refl

module _ {T : Types} (w : Wire) (l : Leafs T) (m : MerkleBuoy) where
  -- A leaf whose depth is a `u7`, and whose script is made again from its version and bytes.
  pub record IsLeaf (leaf : LeafInfo T) : Type 0 where
    pub depth_small : leaf.depth < 128
    pub version_byte : l.version leaf.script < 256
    pub ver : l.LeafVer
    pub version_back : l.from_consensus_u8 (l.version leaf.script) ≡ some ver
    pub script_short : length (l.script leaf.script) < 2 ^ 64
    pub script_back : l.with_bytes ver (l.script leaf.script) ≡ some leaf.script

  decode_leaf-back :
      IsWire w
      → (leaf : LeafInfo T) (rest : Bytes) → IsLeaf leaf
      → decode_leaf w l m leaf.depth (
          (w.u8.encode (l.version leaf.script)).written
          ++ ((w.varint.encode (length (l.script leaf.script))).written
              ++ (l.script leaf.script ++ rest)))
        ≡ ok (leaf, rest)
  unfolding decode_leaf
  decode_leaf-back lawful leaf rest h =
      let depth : ltb leaf.depth 128 ≡ true = ground (arith, h.depth_small) in
      let bytes = l.script leaf.script in
      rw depth (
        bind-ok w.u8.decode _ (lawful.u8_round_trips _ h.version_byte _)
        ∙ bind-ok (or_fail _ (l.from_consensus_u8 (l.version leaf.script))) _
            (or_fail-some _ h.version_back)
        ∙ bind-ok w.varint.decode _ (lawful.varint_round_trips _ h.script_short _)
        ∙ bind-ok (read_exact (length bytes)) _ (read_exact-append bytes rest)
        ∙ bind-ok (or_fail _ (l.with_bytes h.ver bytes)) _ (or_fail-some _ h.script_back))

  decode_leafs-step :
      (fuel : ℕ) {s rest rest' left : Bytes} {depth : ℕ} {leaf : LeafInfo T}
      {leafs : List (LeafInfo T)}
      → w.u8.decode s ≡ ok (depth, rest)
      → decode_leaf w l m depth rest ≡ ok (leaf, rest')
      → decode_leafs w l m fuel rest' ≡ ok (leafs, left)
      → decode_leafs w l m (suc fuel) s ≡ ok (leaf ∷ leafs, left)
  unfolding decode_leafs
  decode_leafs-step fuel h k r = rw (decode_leafs, h, k, r) refl

  -- the loop reads as many leafs as were written, if its fuel is larger
  decode_leafs-encode_each :
      IsWire w
      → w.u8.decode [] ≡ err io
      → (fuel : ℕ) (leafs : List (LeafInfo T)) → length leafs < fuel
      → All IsLeaf leafs
      → decode_leafs w l m fuel (encode_each (encode_leaf w l m) leafs).written ≡ ok (leafs, [])
  unfolding decode_leafs encode_leaf
  decode_leafs-encode_each lawful ends zero leafs h all = absurd (omega (arith, h))
  decode_leafs-encode_each lawful ends (suc fuel) [] h all = rw (decode_leafs, ends) refl
  decode_leafs-encode_each lawful ends (suc fuel) (leaf ∷ leafs) h (hl, all) =
      let after = (encode_each (encode_leaf w l m) leafs).written in
      let small : leaf.depth < 256 = omega (arith, hl.depth_small) in
      rw (append_assoc, append_assoc, append_assoc)
        (decode_leafs-step fuel (lawful.u8_round_trips leaf.depth small _)
          (decode_leaf-back lawful leaf after hl)
          (decode_leafs-encode_each lawful ends fuel leafs (omega (arith, h)) all))

  length-le-encode_tap_tree :
      IsWire w → (tree : TapTree T) → length tree ≤ length (encode_tap_tree w l m tree).written
  unfolding encode_tap_tree encode_leaf
  length-le-encode_tap_tree lawful [] = omega arith
  length-le-encode_tap_tree lawful (leaf ∷ tree) =
      let after = (encode_each (encode_leaf w l m) tree).written in
      let ih : length tree ≤ length after = length-le-encode_tap_tree lawful tree in
      let rest =
        (w.u8.encode (l.version leaf.script)
          ▸ w.varint.encode (length (l.script leaf.script))
          ▸ raw (l.script leaf.script)).written in
      rw (lawful.u8_byte leaf.depth) (omega (arith, ih, length-append rest after))

  -- A tap tree whose leafs are read back, and whose leafs make up a tree, is read back.
  pub decode_tap_tree-encode_tap_tree :
      IsWire w
      → w.u8.decode [] ≡ err io
      → (tree : TapTree T) → All IsLeaf tree
      → Completes m m.zero tree
      → decode_tap_tree w l m (encode_tap_tree w l m tree).written ≡ ok (tree, [])
  unfolding decode_tap_tree encode_tap_tree
  decode_tap_tree-encode_tap_tree lawful ends tree all complete =
      let fuel = suc (length (encode_tap_tree w l m tree).written) in
      bind-ok (decode_leafs w l m fuel) _ (
        decode_leafs-encode_each lawful ends fuel tree
          (omega (arith, length-le-encode_tap_tree lawful tree)) all)
      ∙ rw (tree_of, (from_leafs_iff m tree tree).1 (refl, complete)) refl
