-- ===== src/Derive/Path/Segment.antt =====
-- `DerivationSeg` of derive/src/path.rs: a set of one to eight indexes, as the list of its items in
-- their order, and its text.
use bp_std.Prelude.{
  ℕ, ◌+◌, ◌<◌, ◌≤◌, ltb, leb, ◌&&◌, Bytes, List, [], ◌∷◌, ◌++◌, length, length-append, ◌==◌, true,
  false, if◌then◌else◌, ◌≡◌, refl, ◌∙◌, ap, arith, All, All-map, append-nil, ◌≢◌,
}
use bp_std.Prelude.Text.{
  Lacks, Lacks-append, split, split-append, split_last, trim_start, trim_start-Lacks, trim_end,
  trim_end-Lacks, trim_end-append, traverse,
}
use bp_std.Prelude.Results.{Result, ok, err, ◌>>=◌, map_err}
use bp_std.Derive.Index.Text.{IndexParseError}

-- `SegParseError`; the error of a collection of a wrong size carries nothing
pub data SegParseError : Type 0 where
  invalid_format : IndexParseError → SegParseError
  confinement : SegParseError

abbrev pub DerivationSeg : Type 0 → Type 0
DerivationSeg I = List I

-- an index by its number, its text and `FromStr`
module _ {I : Type 0} (number : I → ℕ) (show : I → Bytes)
    (from_str : Bytes → Result IndexParseError I) where
  -- `BTreeSet::insert`
  abbrev pub insert : I → List I → List I
  insert i [] = i ∷ []
  insert i (j ∷ items) =
      let later = insert i items in
      if ltb (number i) (number j)
      then i ∷ j ∷ items
      else if number i == number j
      then j ∷ items
      else j ∷ later

  -- `collect` into a set, whose order of insertion does not matter
  abbrev pub collect : List I → List I
  collect [] = []
  collect (i ∷ items) = insert i (collect items)

  -- `Confined::try_from_iter`
  abbrev pub confined : List I → Result SegParseError (DerivationSeg I)
  confined items =
      if leb 1 (length items) && leb (length items) 8 then ok items else err confinement

  -- `FromStr`
  unfoldable pub parse_seg : Bytes → Result SegParseError (DerivationSeg I)
  parse_seg s =
      let t = trim_end b'>' (trim_start b'<' s) in
      if length t + 2 == length s
      then (do
        items ← map_err invalid_format (traverse from_str (split b';' t))
        confined (collect items))
      else (do i ← map_err invalid_format (from_str s); ok (i ∷ []))

  -- the loop of `Display`, from its second round on
  abbrev pub show_rest : List I → Bytes
  show_rest [] = []
  show_rest (i ∷ items) = b';' ∷ (show i ++ show_rest items)

  -- `Display`
  unfoldable pub show_seg : DerivationSeg I → Bytes
  show_seg [] = b'<' ∷ b'>' ∷ []
  show_seg (i ∷ []) = show i
  show_seg (i ∷ j ∷ items) = b'<' ∷ ((show i ++ show_rest (j ∷ items)) ++ b'>' ∷ [])

  -- the items in their order
  abbrev pub Ordered : List I → Type 0
  Ordered [] = Unit
  Ordered (i ∷ []) = Unit
  Ordered (i ∷ j ∷ items) = (number i < number j) × Ordered (j ∷ items)

  -- an index whose text has none of the marks and is read back
  abbrev pub Prints : I → Type 0
  Prints i =
      Lacks b';' (show i) × Lacks b'<' (show i) × Lacks b'>' (show i) × (from_str (show i) ≡ ok i)

  collect-Ordered : (items : List I) → Ordered items → collect items ≡ items
  collect-Ordered [] h = refl
  collect-Ordered (i ∷ []) h = refl
  collect-Ordered (i ∷ j ∷ items) (less, h) =
      ap (insert i) (collect-Ordered (j ∷ items) h) ∙ ground arith

  pub show_rest-Lacks :
      (sep : ℕ) (i : I) (items : List I)
      → b';' ≢ sep
      → All (λ j. Lacks sep (show j)) (i ∷ items)
      → Lacks sep (show i ++ show_rest items)
  show_rest-Lacks sep i [] h (hi, all) = Lacks-append sep (show i) [] hi tt
  show_rest-Lacks sep i (j ∷ items) h (hi, all) =
      Lacks-append sep (show i) (b';' ∷ (show j ++ show_rest items)) hi
        (h, show_rest-Lacks sep j items h all)

  traverse-show_rest :
      (i : I) (items : List I)
      → All Prints (i ∷ items)
      → traverse from_str (split b';' (show i ++ show_rest items)) ≡ ok (i ∷ items)
  unfolding traverse
  traverse-show_rest i [] ((lacks, _, _, read), all) =
      rw (append-nil (show i), split_last b';' (show i) lacks, traverse, read) refl
  traverse-show_rest i (j ∷ items) ((lacks, _, _, read), all) =
      rw
        (
          split-append b';' (show i) (show j ++ show_rest items) lacks,
          traverse,
          read,
          traverse-show_rest j items all,
        )
        refl

  parse_seg-one : (i : I) → Prints i → parse_seg (show i) ≡ ok (i ∷ [])
  unfolding parse_seg
  parse_seg-one i (_, opened, closed, read) =
      let longer : (length (show i) + 2 == length (show i)) ≡ false = ground arith in
      rw (trim_start-Lacks b'<' (show i) opened, trim_end-Lacks b'>' (show i) closed, longer, read)
        refl

  parse_seg-marked :
      (t : Bytes) (items : List I)
      → Lacks b'<' t
      → Lacks b'>' t
      → traverse from_str (split b';' t) ≡ ok items
      → parse_seg (b'<' ∷ (t ++ b'>' ∷ [])) ≡ confined (collect items)
  unfolding parse_seg trim_start
  parse_seg-marked t items opened closed read =
      let whole : Lacks b'<' (t ++ b'>' ∷ []) =
        Lacks-append b'<' t (b'>' ∷ []) opened ((λ e. omega (arith, e)), tt) in
      let longer : (length t + 2 == length (b'<' ∷ (t ++ b'>' ∷ []))) ≡ true =
        ground (arith, length-append t (b'>' ∷ [])) in
      rw (trim_start-Lacks b'<' (t ++ b'>' ∷ []) whole, trim_end-append b'>' t closed, longer, read)
        refl

  -- A segment of one to eight indexes in their order is read back from its text.
  pub parse_seg-show_seg :
      (items : List I)
      → 1 ≤ length items
      → length items ≤ 8
      → Ordered items
      → All Prints items
      → parse_seg (show_seg items) ≡ ok items
  unfolding show_seg
  parse_seg-show_seg [] few many sorted all = absurd (omega (arith, few))
  parse_seg-show_seg (i ∷ []) few many sorted (one, _) = parse_seg-one i one
  parse_seg-show_seg (i ∷ j ∷ items) few many sorted all =
      let sizes : (leb 1 (length (i ∷ j ∷ items)) && leb (length (i ∷ j ∷ items)) 8) ≡ true =
        ground (arith, few, many) in
      parse_seg-marked (show i ++ show_rest (j ∷ items)) (i ∷ j ∷ items)
        (show_rest-Lacks b'<' i (j ∷ items) (λ e. omega (arith, e))
          (All-map (λ k h. h.1) (i ∷ j ∷ items) all))
        (show_rest-Lacks b'>' i (j ∷ items) (λ e. omega (arith, e))
          (All-map (λ k h. h.2) (i ∷ j ∷ items) all))
        (traverse-show_rest i (j ∷ items) all)
      ∙ rw (collect-Ordered (i ∷ j ∷ items) sorted, sizes) refl
