-- ===== src/Derive/Path/RoundTrip.antt =====
-- A derivation path of derive/src/path.rs is read back from its text.
use bp_std.Prelude.{ℕ, ◌≢◌, Bytes, [], ◌∷◌, ◌++◌, Bool, List, ◌≡◌, refl, All, append-nil}
use bp_std.Prelude.Results.{Result, ok}
use bp_std.Prelude.Text.{Lacks, Lacks-append, split, split-append, split_last, traverse}
use bp_std.Derive.Index.Hardened.{HardenedIndex, IsReduced}
use bp_std.Derive.Index.Derivation.{DerivationIndex, IsInRange}
use bp_std.Derive.Index.Text.{
  IndexParseError, show_hardened, parse_hardened, show_derivation, parse_derivation,
}
use bp_std.Derive.Index.Text.RoundTrip.{
  show_hardened-Lacks, parse_hardened-show_hardened, show_derivation-Lacks,
  parse_derivation-show_derivation,
}
use bp_std.Derive.Path.{show_path, parse_path}

module _ {I : Type 0} (show : I → Bytes) (from_str : Bytes → Result IndexParseError I) where
  -- an index whose text has no slash and is read back
  abbrev pub Prints : I → Type 0
  Prints i = Lacks b'/' (show i) × (from_str (show i) ≡ ok i)

  pub traverse-show_path :
      (i : I) (path : List I)
      → All Prints (i ∷ path)
      → traverse from_str (split b'/' (show i ++ show_path show path)) ≡ ok (i ∷ path)
  unfolding show_path traverse
  traverse-show_path i [] ((lacks, read), all) =
      rw (append-nil (show i), split_last b'/' (show i) lacks, traverse, read) refl
  traverse-show_path i (j ∷ path) ((lacks, read), all) =
      rw
        (
          split-append b'/' (show i) (show j ++ show_path show path) lacks,
          traverse,
          read,
          traverse-show_path j path all,
        )
        refl

  parse_path-show_path :
      (i : I) (path : List I)
      → All Prints (i ∷ path)
      → parse_path from_str (show_path show (i ∷ path)) ≡ ok (i ∷ path)
  unfolding parse_path show_path
  parse_path-show_path i path all = rw (parse_path, traverse-show_path i path all) refl

pub show_path-Lacks :
    {I : Type 0} (show : I → Bytes) (sep : ℕ) (path : List I)
    → b'/' ≢ sep
    → All (λ i. Lacks sep (show i)) path
    → Lacks sep (show_path show path)
unfolding show_path
show_path-Lacks show sep [] other all = tt
show_path-Lacks show sep (i ∷ path) other (lacks, all) =
    (other, Lacks-append sep (show i) _ lacks (show_path-Lacks show sep path other all))

pub hardened-Prints :
    (alternate : Bool) (path : List HardenedIndex)
    → All IsReduced path
    → All (Prints (show_hardened alternate) parse_hardened) path
hardened-Prints alternate [] h = tt
hardened-Prints alternate (i ∷ path) (hi, h) = (
  (show_hardened-Lacks b'/' alternate i refl refl, parse_hardened-show_hardened alternate i hi),
  hardened-Prints alternate path h,
)

pub derivation-Prints :
    (path : List DerivationIndex)
    → All IsInRange path
    → All (Prints show_derivation parse_derivation) path
derivation-Prints [] h = tt
derivation-Prints (i ∷ path) (hi, h) = (
  (show_derivation-Lacks b'/' i refl refl, parse_derivation-show_derivation i hi),
  derivation-Prints path h,
)

-- A derivation path that is not empty is read back from its text: one of hardened indexes in
-- either form, and one of normal and hardened indexes in the plain form, each index in its range.
pub paths-RoundTrip :
    (alternate : Bool) (h : HardenedIndex) (hs : List HardenedIndex) (d : DerivationIndex)
    (ds : List DerivationIndex)
    → All IsReduced (h ∷ hs)
    → All IsInRange (d ∷ ds)
    → (parse_path parse_hardened (show_path (show_hardened alternate) (h ∷ hs)) ≡ ok (h ∷ hs))
      × (parse_path parse_derivation (show_path show_derivation (d ∷ ds)) ≡ ok (d ∷ ds))
paths-RoundTrip alternate h hs d ds reduced in_range = (
  parse_path-show_path (show_hardened alternate) parse_hardened h hs
      (hardened-Prints alternate (h ∷ hs) reduced),
  parse_path-show_path show_derivation parse_derivation d ds (derivation-Prints (d ∷ ds) in_range),
)
