-- ===== src/Derive/Index/Text.antt =====
-- The text of the index types of derive/src/index.rs.
pub mod RoundTrip
use bp_std.Prelude.{
  ℕ, ◌^◌, Bytes, [], ◌∷◌, ◌++◌, Bool, true, false, ◌||◌, ◌==◌, if◌then◌else◌, none, some,
}
use bp_std.Prelude.Results.{Result, ok, err, ◌>>=◌, map_err}
use bp_std.Prelude.Decimal.{ParseIntError, show_decimal, parse_decimal}
use bp_std.Prelude.Text.{strip_suffix}
use bp_std.Derive.Index.{IndexError}
use bp_std.Derive.Index.Normal
use bp_std.Derive.Index.Normal.{NormalIndex}
use bp_std.Derive.Index.Hardened
use bp_std.Derive.Index.Hardened.{HardenedIndex}
use bp_std.Derive.Index.Derivation.{DerivationIndex, normal, hardened}

pub data IndexParseError : Type 0 where
  invalid : IndexError → IndexParseError
  parse : ParseIntError → IndexParseError
  hardened_required : Bytes → IndexParseError

-- `u32::from_str(s)?`
abbrev pub word : Bytes → Result IndexParseError ℕ
word s = map_err parse (parse_decimal (2 ^ 32) s)

-- `Display` and `FromStr` of `NormalIndex`
unfoldable pub show_normal : NormalIndex → Bytes
show_normal i = show_decimal i.value

unfoldable pub parse_normal : Bytes → Result IndexParseError NormalIndex
parse_normal s = do n ← word s; map_err invalid (Normal.try_from_child_number n)

abbrev pub apostrophe : ℕ
apostrophe = 0x27

-- `Display` of `HardenedIndex`, with a flag for the alternate form
unfoldable pub show_hardened : Bool → HardenedIndex → Bytes
show_hardened alternate i = show_decimal i.value ++ (if alternate then apostrophe else b'h') ∷ []

abbrev pub hardened_mark : ℕ → Bool
hardened_mark c = c == b'h' || c == b'H' || c == apostrophe

-- `FromStr` of `HardenedIndex`
unfoldable pub parse_hardened : Bytes → Result IndexParseError HardenedIndex
parse_hardened s = elim (strip_suffix hardened_mark s) [
  | none ↦ err (hardened_required s)
  | some rest ↦ (do n ← word rest; map_err invalid (Hardened.try_from_child_number n))
]

-- `Display` and `FromStr` of `DerivationIndex`
unfoldable pub show_derivation : DerivationIndex → Bytes
unfolding show_normal show_hardened
show_derivation (normal i) = show_normal i
show_derivation (hardened i) = show_hardened false i

-- the third mark is an asterisk
abbrev pub derivation_mark : ℕ → Bool
derivation_mark c = c == b'h' || c == b'H' || c == b'*'

unfoldable pub parse_derivation : Bytes → Result IndexParseError DerivationIndex
unfolding parse_normal parse_hardened
parse_derivation s = elim (strip_suffix derivation_mark s) [
  | some _ ↦ (do i ← parse_hardened s; ok (hardened i))
  | none ↦ (do i ← parse_normal s; ok (normal i))
]
