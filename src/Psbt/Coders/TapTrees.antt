-- ===== src/Psbt/Coders/TapTrees.antt =====
-- The codec of tap trees in psbt/src/coders.rs. Its reader takes leafs until the stream ends.
-- The length of a script is read unchecked; a buffer of it is taken to be allocated.
pub mod RoundTrip
use bp_std.Prelude.{
  ℕ, zero, suc, ◌<◌, ◌≤◌, ◌^◌, ltb, Bytes, [], ◌∷◌, ◌++◌, List, length, length-append, All,
  append_assoc, Option, none, some, Bool, if◌then◌else◌, ◌≡◌, refl, ◌∙◌, arith,
}
use bp_std.Prelude.Results.{Result, ok, err}
use bp_std.Consensus.{Types}
use bp_std.Derive.TapTree.{LeafInfo, TapTree, MerkleBuoy, from_leafs}
use bp_std.Derive.TapTree.Builder.{Completes, from_leafs_iff}
use bp_std.Psbt.Errors.{
  DecodeError, io, psbt, unexpected_eod, invalid_tap_leaf_depth, invalid_tap_leaf_ver,
  invalid_tap_leaf_script_size, invalid_tap_tree,
}
use bp_std.Psbt.Coders.Reader.{Decoder, ◌>>=◌, pure, fail, read_exact, read_exact-append, bind-ok}
use bp_std.Psbt.Coders.Writer.{Encoder, Encoded, raw, ◌▸◌, encode_each}
use bp_std.Psbt.Coders.Wire.{Wire, IsWire}

-- `LeafScript` of bp-core: its version byte and script, and how it is made of them
pub record Leafs (T : Types) : Type 1 where
  pub LeafVer : Type 0
  pub version : T.LeafScript → ℕ
  pub script : T.LeafScript → Bytes
  pub from_consensus_u8 : ℕ → Option LeafVer
  pub with_bytes : LeafVer → Bytes → Option T.LeafScript

abbrev pub or_fail : {A : Type 0} → DecodeError → Option A → Decoder A
or_fail e none s = err e
or_fail e (some a) s = ok (a, s)

-- the errors of `u8::decode` at which the loop breaks; a reader over bytes has no other `io` error
abbrev pub at_end : {A : Type 0} → DecodeError → Bytes → Result DecodeError (List A × Bytes)
at_end io s = ok ([], s)
at_end (psbt unexpected_eod) s = ok ([], s)
at_end e s = err e

module _ {T : Types} (w : Wire) (l : Leafs T) (m : MerkleBuoy) where
  -- one round of the loop of `Encode for TapTree`
  unfoldable pub encode_leaf : Encoder (LeafInfo T)
  encode_leaf leaf =
      w.u8.encode leaf.depth
      ▸ w.u8.encode (l.version leaf.script)
      ▸ w.varint.encode (length (l.script leaf.script))
      ▸ raw (l.script leaf.script)

  unfoldable pub encode_tap_tree : Encoder (TapTree T)
  unfolding encode_leaf
  encode_tap_tree tree = encode_each encode_leaf tree

  -- one round of the loop of `Decode for TapTree`, after the byte of the depth
  unfoldable pub decode_leaf : ℕ → Decoder (LeafInfo T)
  decode_leaf depth_byte = do
    depth ← if ltb depth_byte 128 then pure depth_byte else fail (invalid_tap_leaf_depth depth_byte)
    ver_byte ← w.u8.decode
    ver ← or_fail (psbt invalid_tap_leaf_ver) (l.from_consensus_u8 ver_byte)
    len ← w.varint.decode
    bytes ← read_exact len
    script ← or_fail (psbt (invalid_tap_leaf_script_size (length bytes))) (l.with_bytes ver bytes)
    pure (record { depth = depth; script = script })

  -- the loop, on fuel
  unfoldable pub decode_leafs : ℕ → Decoder (List (LeafInfo T))
  decode_leafs zero s = ok ([], s)
  decode_leafs (suc fuel) s = elim (w.u8.decode s) [
    | err e ↦ at_end e s
    | ok (depth, rest) ↦ elim (decode_leaf depth rest) [
      | err e ↦ err e
      | ok (leaf, rest') ↦ elim (decode_leafs fuel rest') [
        | err e ↦ err e
        | ok (leafs, left) ↦ ok (leaf ∷ leafs, left)
      ]
    ]
  ]

  abbrev pub tree_of : List (LeafInfo T) → Decoder (TapTree T)
  tree_of leafs s = elim (from_leafs m leafs) [
    | ok tree ↦ ok (tree, s)
    | err e ↦ err (psbt invalid_tap_tree)
  ]

  -- each round consumes a byte
  unfoldable pub decode_tap_tree : Decoder (TapTree T)
  unfolding decode_leafs decode_leaf
  decode_tap_tree s = (decode_leafs (suc (length s)) >>= tree_of) s
