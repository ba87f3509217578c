-- ===== src/Derive/Index/Text/RoundTrip.antt =====
-- The index types of derive/src/index.rs are read back from their text.
use bp_std.Prelude.{
  All-map, ℕ, ◌^◌, Bytes, [], ◌∷◌, ◌++◌, Bool, true, false, some, none, ◌≡◌, refl, sym, ap, arith,
}
use bp_std.Prelude.Results.{ok}
use bp_std.Prelude.Decimal.{is_digit, show_decimal, parse_decimal}
use bp_std.Prelude.Decimal.RoundTrip.{show_decimal-All, parse_decimal-show_decimal}
use bp_std.Prelude.Text.{Lacks, Lacks-append, strip_suffix, strip_suffix-append, strip_suffix-none}
use bp_std.Derive.Index.Normal.{NormalIndex, IsNormal, try_from_child_number}
use bp_std.Derive.Index.Hardened
use bp_std.Derive.Index.Hardened.{HardenedIndex, IsReduced}
use bp_std.Derive.Index.Derivation.{DerivationIndex, normal, hardened, IsInRange}
use bp_std.Derive.Index.Text.{
  apostrophe, hardened_mark, derivation_mark, show_normal, parse_normal, show_hardened,
  parse_hardened, show_derivation, parse_derivation,
}

-- a text of digits has none of the other characters
pub show_decimal-Lacks : (sep n : ℕ) → is_digit sep ≡ false → Lacks sep (show_decimal n)
show_decimal-Lacks sep n other =
    All-map (λ c h e. cc (sym h, ap is_digit e, other)) (show_decimal n) (show_decimal-All n)

pub show_normal-Lacks :
    (sep : ℕ) (i : NormalIndex) → is_digit sep ≡ false → Lacks sep (show_normal i)
unfolding show_normal
show_normal-Lacks sep i other = show_decimal-Lacks sep i.value other

pub parse_normal-show_normal : (i : NormalIndex) → IsNormal i → parse_normal (show_normal i) ≡ ok i
unfolding parse_normal show_normal try_from_child_number
parse_normal-show_normal i h =
    rw (parse_decimal-show_decimal (2 ^ 32) i.value (omega arith)) (ground arith)

parse_hardened-strip :
    (s rest : Bytes) (i : HardenedIndex)
    → strip_suffix hardened_mark s ≡ some rest
    → parse_decimal (2 ^ 32) rest ≡ ok i.value
    → IsReduced i
    → parse_hardened s ≡ ok i
unfolding parse_hardened Hardened.try_from_child_number
parse_hardened-strip s rest i stripped number h =
    rw (parse_hardened, stripped, number) (ground arith)

parse_hardened-append :
    (mark : ℕ) (i : HardenedIndex)
    → hardened_mark mark ≡ true
    → IsReduced i
    → parse_hardened (show_decimal i.value ++ mark ∷ []) ≡ ok i
parse_hardened-append mark i m h =
    parse_hardened-strip (show_decimal i.value ++ mark ∷ []) (show_decimal i.value) i
      (rw (strip_suffix-append hardened_mark (show_decimal i.value) mark, m) refl)
      (parse_decimal-show_decimal (2 ^ 32) i.value (omega arith)) h

pub parse_hardened-show_hardened :
    (alternate : Bool) (i : HardenedIndex)
    → IsReduced i
    → parse_hardened (show_hardened alternate i) ≡ ok i
unfolding show_hardened
parse_hardened-show_hardened true i h = parse_hardened-append apostrophe i refl h
parse_hardened-show_hardened false i h = parse_hardened-append b'h' i refl h

pub show_hardened-Lacks :
    (sep : ℕ) (alternate : Bool) (i : HardenedIndex)
    → is_digit sep ≡ false
    → hardened_mark sep ≡ false
    → Lacks sep (show_hardened alternate i)
unfolding show_hardened
show_hardened-Lacks sep alternate i other h =
    Lacks-append sep (show_decimal i.value) _ (show_decimal-Lacks sep i.value other) (ground arith)

pub show_derivation-Lacks :
    (sep : ℕ) (i : DerivationIndex)
    → is_digit sep ≡ false
    → hardened_mark sep ≡ false
    → Lacks sep (show_derivation i)
unfolding show_derivation
show_derivation-Lacks sep (normal i) other h = show_normal-Lacks sep i other
show_derivation-Lacks sep (hardened i) other h = show_hardened-Lacks sep false i other h

-- digits end in no mark
no_mark : (n : ℕ) → strip_suffix derivation_mark (show_decimal n) ≡ none
no_mark n =
    strip_suffix-none derivation_mark (show_decimal n)
      (All-map (λ c h. ground arith) (show_decimal n) (show_decimal-All n))

parse_derivation-strip :
    (s rest : Bytes) (i : HardenedIndex)
    → strip_suffix derivation_mark s ≡ some rest
    → parse_hardened s ≡ ok i
    → parse_derivation s ≡ ok (hardened i)
unfolding parse_derivation
parse_derivation-strip s rest i stripped read = rw (parse_derivation, stripped, read) refl

pub parse_derivation-show_derivation :
    (i : DerivationIndex) → IsInRange i → parse_derivation (show_derivation i) ≡ ok i
unfolding parse_derivation show_derivation
parse_derivation-show_derivation (normal i) h =
    rw (parse_derivation, show_derivation, no_mark i.value, parse_normal-show_normal i h) refl
parse_derivation-show_derivation (hardened i) h =
    parse_derivation-strip (show_hardened false i) (show_decimal i.value) i
      (strip_suffix-append derivation_mark (show_decimal i.value) b'h')
      (parse_hardened-show_hardened false i h)
