-- ===== src/Psbt/Coders/Paths/RoundTrip.antt =====
-- The codecs of derivation paths and key origins in psbt/src/coders.rs: what is read back of an
-- index is what `try_from_index` makes of its word.
use bp_std.Prelude.{
  ◌<◌, ◌≤◌, ◌^◌, Bytes, List, [], ◌∷◌, ◌++◌, All, All-map, append-nil, length, map, ◌≡◌, ◌↔◌, ◌⊎◌,
  refl, ◌∙◌, sym, ap, arith,
}
use bp_std.Prelude.Results.{Result, ok}
use bp_std.Consensus.{Types}
use bp_std.Derive.Index.{Idx}
use bp_std.Derive.Index.Derivation.{DerivationIndex, derivation_idx, index, from_index, IsInRange}
use bp_std.Derive.Index.Ranges.{index-fits, from_index-index_iff}
use bp_std.Derive.Terminal.{DerivationPath}
use bp_std.Derive.Origins.{KeyOrigin, TapDerivation}
use bp_std.Psbt.Errors.{DecodeError}
use bp_std.Psbt.Coders.Reader.{bind-ok}
use bp_std.Psbt.Coders.Wire.{Codec, RoundTrips, Wire, IsWire}
use bp_std.Psbt.Coders.Unsigned.{decode_times, decode_times-encode_each}
use bp_std.Psbt.Coders.Paths.{
  chunks_exact, encode_index, encode_path, decode_index, decode_indexes, decode_path,
  encode_key_origin, decode_key_origin, encode_tap_derivation, decode_tap_derivation,
}

chunks_exact-append :
    (word rest : Bytes)
    → length word ≡ 4
    → chunks_exact (word ++ rest)
      ≡ (let (chunks, left) = chunks_exact rest in (word ∷ chunks, left))
chunks_exact-append (a ∷ b ∷ c ∷ d ∷ []) rest h = refl
chunks_exact-append (a ∷ b ∷ c ∷ d ∷ e ∷ word) rest h = absurd (omega (arith, h))
chunks_exact-append [] rest h = absurd (omega (arith, h))
chunks_exact-append (a ∷ []) rest h = absurd (omega (arith, h))
chunks_exact-append (a ∷ b ∷ []) rest h = absurd (omega (arith, h))
chunks_exact-append (a ∷ b ∷ c ∷ []) rest h = absurd (omega (arith, h))

module _ {I : Type 0} ⦃t : Idx I⦄ (w : Wire) where
  -- The word of an index is a `u32`, of which `f` of the index is made.
  abbrev IsMade : (I → I) → I → Type 0
  IsMade f i = (t.index i < 2 ^ 32) × (t.try_from_index (t.index i) ≡ ok (f i))

  words : List I → List Bytes
  words [] = []
  words (i ∷ path) = (encode_index w i).written ∷ words path

  chunks_exact-encode_path :
      IsWire w
      → (path : DerivationPath I) → chunks_exact (encode_path w path).written ≡ (words path, [])
  unfolding encode_path words
  chunks_exact-encode_path lawful [] = refl
  chunks_exact-encode_path lawful (i ∷ path) =
      chunks_exact-append _ _ (lawful.u32_length (t.index i))
      ∙ rw (chunks_exact-encode_path lawful path) refl

  decode_index-made :
      IsWire w
      → (f : I → I) (i : I) → IsMade f i
      → decode_index w (encode_index w i).written ≡ ok (f i)
  unfolding decode_index
  decode_index-made lawful f i (small, made) =
      let back = (rw append-nil at (lawful.u32_round_trips (t.index i) small [])) in
      ground (arith, back, made)

  decode_indexes-words :
      IsWire w
      → (f : I → I) (path : List I) → All (IsMade f) path
      → decode_indexes w (words path) ≡ ok (map f path)
  unfolding decode_indexes words
  decode_indexes-words lawful f [] all = refl
  decode_indexes-words lawful f (i ∷ path) (made, all) =
      ground (arith, decode_index-made lawful f i made, decode_indexes-words lawful f path all)

  -- A path is read back with each index as it is made again from its word.
  decode_path-encode_path :
      IsWire w
      → (f : I → I) (path : DerivationPath I) → All (IsMade f) path
      → decode_path w (encode_path w path).written ≡ ok (map f path, [])
  unfolding decode_path
  decode_path-encode_path lawful f path all =
      ground (arith, chunks_exact-encode_path lawful path, decode_indexes-words lawful f path all)

-- an index as it is made again from its word
abbrev again : DerivationIndex → DerivationIndex
again i = from_index (index i)

-- the indexes that the program reads back
abbrev pub IsKept : DerivationIndex → Type 0
IsKept i = (index i < 2 ^ 28) ⊎ (2 ^ 31 ≤ index i)

again-IsMade :
    (w : Wire) (path : List DerivationIndex) → All IsInRange path → All (IsMade w again) path
again-IsMade w = All-map λ i in_range. (index-fits i in_range, refl)

map-again_iff :
    (path : List DerivationIndex) → All IsInRange path → (map again path ≡ path) ↔ All IsKept path
map-again_iff [] all = (λ e. tt, λ kept. refl)
map-again_iff (i ∷ path) (in_range, all) =
    let (to, from) = from_index-index_iff i in_range in
    let (to_rest, from_rest) = map-again_iff path all in
    (λ e. (to cc, to_rest cc), λ (kept, rest). let a = from kept in let b = from_rest rest in cc)

module _ {T : Types} (w : Wire) (fp : Codec T.XpubFp) (hash : Codec T.TapLeafHash) where
  abbrev with_path : TapDerivation T → List DerivationIndex → TapDerivation T
  with_path d path = record d { origin = record d.origin { derivation = path } }

  -- the derivation with its path as it is made again from its words
  reread : TapDerivation T → TapDerivation T
  reread d = with_path d (map again d.origin.derivation)

  key_origin-back :
      IsWire w
      → (o : KeyOrigin T) → RoundTrips fp o.master_fp
      → All IsInRange o.derivation
      → decode_key_origin w fp (encode_key_origin w fp o).written
        ≡ ok (record o { derivation = map again o.derivation }, [])
  unfolding encode_key_origin decode_key_origin
  key_origin-back lawful o hf all =
      bind-ok fp.decode _ (hf (encode_path w o.derivation).written)
      ∙ bind-ok (decode_path w) _
          (decode_path-encode_path w lawful again o.derivation (again-IsMade w o.derivation all))

  tap_derivation-back :
      IsWire w
      → (d : TapDerivation T) → length d.leaf_hashes < 2 ^ 64
      → All (RoundTrips hash) d.leaf_hashes
      → RoundTrips fp d.origin.master_fp
      → All IsInRange d.origin.derivation
      → decode_tap_derivation w fp hash (encode_tap_derivation w fp hash d).written
        ≡ ok (reread d, [])
  unfolding encode_tap_derivation decode_tap_derivation reread
  tap_derivation-back lawful d few hashes hf all =
      bind-ok w.varint.decode _ (lawful.varint_round_trips _ few _)
      ∙ bind-ok (decode_times (length d.leaf_hashes) hash.decode) _
          (decode_times-encode_each hash d.leaf_hashes _ hashes)
      ∙ bind-ok (decode_key_origin w fp) _ (key_origin-back lawful d.origin hf all)

  read_all : TapDerivation T → Result DecodeError (TapDerivation T × Bytes)
  read_all d = ok (d, [])

  same_path :
      (d d' : TapDerivation T)
      → read_all d ≡ read_all d'
      → d.origin.derivation ≡ d'.origin.derivation
  unfolding read_all
  same_path d d' e = let same : d ≡ d' = cc in ap (λ x. x.origin.derivation) same

  -- A taproot derivation with fewer than 2^64 leaf hashes, which are read back like its
  -- fingerprint, and a path of indexes in range, is read back from what was written exactly
  -- where the word of each index is below 2^28 or from 2^31 on.
  pub decode_tap_derivation-encode_tap_derivation_iff :
      IsWire w
      → (d : TapDerivation T) → length d.leaf_hashes < 2 ^ 64
      → All (RoundTrips hash) d.leaf_hashes
      → RoundTrips fp d.origin.master_fp
      → All IsInRange d.origin.derivation
      → (decode_tap_derivation w fp hash (encode_tap_derivation w fp hash d).written ≡ ok (d, []))
        ↔ All IsKept d.origin.derivation
  unfolding reread read_all
  decode_tap_derivation-encode_tap_derivation_iff lawful d few hashes hf all =
      let read = tap_derivation-back lawful d few hashes hf all in
      let (to, from) = map-again_iff d.origin.derivation all in
      (
        λ e. to (same_path (reread d) d (sym read ∙ e)),
        λ kept. read ∙ ap (λ path. read_all (with_path d path)) (from kept),
      )
