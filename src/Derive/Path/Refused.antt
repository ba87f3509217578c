-- ===== src/Derive/Path/Refused.antt =====
-- Texts of derivation paths that derive/src/path.rs and derive/src/index.rs write and refuse to read.
use bp_std.Prelude.{ℕ, Bytes, [], ◌∷◌, ◌++◌, true, false, ◌≡◌, ◌≢◌, refl, none, ◌^◌, inl, inr}
use bp_std.Prelude.Results.{ok, >>=-eq-ok, Result-cases}
use bp_std.Prelude.Decimal.{is_digit, show_decimal, parse_decimal}
use bp_std.Prelude.Decimal.RoundTrip.{parse_decimal-append_invalid}
use bp_std.Derive.Index.Normal.{NormalIndex}
use bp_std.Derive.Index.Text.RoundTrip.{parse_hardened-show_hardened}
use bp_std.Prelude.Text.{strip_suffix, strip_suffix-append}
use bp_std.Derive.Index.Hardened.{HardenedIndex, IsReduced}
use bp_std.Derive.Index.Derivation.{DerivationIndex, normal}
use bp_std.Derive.Index.Text.{
  word, apostrophe, derivation_mark, show_hardened, parse_hardened, parse_normal, parse_derivation,
}

parse_normal-append_invalid :
    (s : Bytes) (c : ℕ) (i : NormalIndex) → is_digit c ≡ false → parse_normal (s ++ c ∷ []) ≢ ok i
unfolding parse_normal
parse_normal-append_invalid s c i h read =
    let (n, number, rest) = >>=-eq-ok (word (s ++ c ∷ [])) _ read in
    elim (Result-cases (parse_decimal (2 ^ 32) (s ++ c ∷ []))) [
      | inl (m, eq) ↦ parse_decimal-append_invalid (2 ^ 32) s c m h eq
      | inr (e, eq) ↦ cc
    ]

parse_derivation-plain :
    (s : Bytes) (d : DerivationIndex)
    → strip_suffix derivation_mark s ≡ none
    → parse_derivation s ≡ ok d
    → (i : NormalIndex) × (parse_normal s ≡ ok i)
unfolding parse_derivation
parse_derivation-plain s d plain read =
    let (i, found, same) =
      >>=-eq-ok (parse_normal s) (λ i. ok (normal i)) (rw (parse_derivation, plain) at read) in
    (i, found)

-- The text of a hardened index in the alternate form, with an apostrophe, is read as a hardened
-- index but never as a derivation index.
pub parse_derivation_alternate :
    (i : HardenedIndex) (d : DerivationIndex)
    → IsReduced i
    → (parse_hardened (show_hardened true i) ≡ ok i)
      × (parse_derivation (show_hardened true i) ≢ ok d)
unfolding show_hardened
parse_derivation_alternate i d h = (
  parse_hardened-show_hardened true i h,
  λ read.
      let mark : strip_suffix derivation_mark (show_decimal i.value ++ apostrophe ∷ []) ≡ none =
        strip_suffix-append derivation_mark (show_decimal i.value) apostrophe in
      let (n, number) =
        parse_derivation-plain (show_decimal i.value ++ apostrophe ∷ []) d mark read in
      parse_normal-append_invalid (show_decimal i.value) apostrophe n refl number,
)
