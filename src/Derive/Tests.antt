-- ===== src/Derive/Tests.antt =====
-- The theorems of derive/src at concrete inputs.
mod Texts
mod Keys
mod Specs
use bp_std.Prelude.{
  [], ◌∷◌, ◌++◌, inr, ◌%◌, ℕ, ◌-◌, ◌^◌, ◌≤◌, ◌<◌, none, some, ◌≡◌, ◌≢◌, ◌↔◌, ◌⊎◌, arith,
}
use bp_std.Prelude.Results.{ok}
use bp_std.Derive.Index.{
  checked_add, checked_sub, saturating_add, saturating_sub, checked_inc, checked_dec, wrapping_inc,
  wrapping_dec, wrapping_dec_assign,
}
use bp_std.Derive.Index.Normal.{NormalIndex, IsNormal, normal_idx, normal_add_assign}
use bp_std.Derive.Index.Hardened
use bp_std.Derive.Index.Hardened.{HardenedIndex, IsReduced, hardened_idx}
use bp_std.Derive.Terminal.{DerivationPath, terminal}
use bp_std.Derive.Terminal.Truncation.{terminal_truncates}
use bp_std.Derive.Index.Derivation
use bp_std.Derive.Index.Derivation.{DerivationIndex, derivation_idx, normal, hardened, IsInRange}
use bp_std.Derive.Index.Arithmetic.{checked-saturating}
use bp_std.Derive.Index.Ranges.{hardened-try_from_index, derivation-from_index}

abbrev at : ℕ → NormalIndex
at n = record { value = n }

abbrev fresh_seven : HardenedIndex
fresh_seven = record { value = 7 }

checked-saturating_example :
    (checked_add (at 5) 3 ≡ some (at 8))
    × (saturating_add (at 5) 3 ≡ at 8)
    × (checked_sub (at 5) 3 ≡ some (at 2))
    × (saturating_sub (at 5) 3 ≡ at 2)
checked-saturating_example = checked-saturating (at 5) (omega arith) 3 (omega arith)

hardened-try_from_index_example : Hardened.try_from_index 7 ≡ ok fresh_seven
hardened-try_from_index_example = hardened-try_from_index 7 (omega arith)

derivation-from_index_example :
    (Derivation.index (Derivation.from_index (2 ^ 31)) ≡ 2 ^ 31)
    × (IsInRange (Derivation.from_index (2 ^ 31)) ↔ ((2 ^ 31 < 2 ^ 28) ⊎ (2 ^ 31 ≤ 2 ^ 31)))
derivation-from_index_example = derivation-from_index (2 ^ 31) (omega arith)

abbrev prefix : DerivationPath DerivationIndex
prefix = hardened (record { value = 86 }) ∷ []

terminal_truncates_example :
    terminal (prefix ++ (normal (at 1) ∷ normal (at 65541) ∷ []))
    ≡ some (record { keychain = record { value = 1 }; index = record { value = 65541 % 2 ^ 16 } })
terminal_truncates_example = terminal_truncates prefix (at 1) (at 65541) (omega arith)
