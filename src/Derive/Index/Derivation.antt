-- ===== src/Derive/Index/Derivation.antt =====
-- `DerivationIndex` of derive/src/index.rs. `from_child_number` and `try_from_child_number` panic
-- on every input and are left out.
use bp_std.Prelude.{ℕ, ◌+◌, ◌-◌, ◌%◌, ◌^◌, leb, if◌then◌else◌, Bool, true, false, Option}
use mathlib.Core.Option
use bp_std.Prelude.Results.{ok}
use bp_std.Derive.Index.{hardened_index_boundary, Idx}
use bp_std.Derive.Index.Normal.{
  NormalIndex, normal_idx, normal_add_assign, normal_sub_assign, IsNormal,
}
use bp_std.Derive.Index.Hardened
use bp_std.Derive.Index.Hardened.{
  HardenedIndex, hardened_add_assign, hardened_sub_assign, IsReduced,
}

pub data DerivationIndex : Type 0 where
  normal : NormalIndex → DerivationIndex
  hardened : HardenedIndex → DerivationIndex

-- `value - HARDENED_INDEX_BOUNDARY` is a difference of words
unfoldable pub from_index : ℕ → DerivationIndex
from_index value =
    if leb value 0x0FFFFFFF
    then normal (record { value = value })
    else hardened (record { value = (value + 2 ^ 32 - hardened_index_boundary) % 2 ^ 32 })

unfoldable pub is_hardened : DerivationIndex → Bool
is_hardened (normal i) = false
is_hardened (hardened i) = true

unfoldable pub child_number : DerivationIndex → ℕ
child_number (normal i) = i.value
child_number (hardened i) = i.value

unfoldable pub index : DerivationIndex → ℕ
unfolding Hardened.index
index (normal i) = i.value
index (hardened i) = Hardened.index i

abbrev pub both {ℓ} : {A B : Type ℓ} → (A → B) → A × Option A → B × Option B
both f (i, done) = (f i, Option.map f done)

unfoldable pub derivation_add_assign :
    DerivationIndex → ℕ → DerivationIndex × Option DerivationIndex
unfolding normal_add_assign hardened_add_assign
derivation_add_assign (normal i) add = both normal (normal_add_assign i add)
derivation_add_assign (hardened i) add = both hardened (hardened_add_assign i add)

unfoldable pub derivation_sub_assign :
    DerivationIndex → ℕ → DerivationIndex × Option DerivationIndex
unfolding normal_sub_assign hardened_sub_assign
derivation_sub_assign (normal i) sub = both normal (normal_sub_assign i sub)
derivation_sub_assign (hardened i) sub = both hardened (hardened_sub_assign i sub)

instance abbrev pub derivation_idx : Idx DerivationIndex
derivation_idx = record {
  is_hardened = is_hardened;
  child_number = child_number;
  index = index;
  zero = normal normal_idx.zero;
  one = normal normal_idx.one;
  max = normal normal_idx.max;
  try_from_index = λ value. ok (from_index value);
  checked_add_assign = derivation_add_assign;
  checked_sub_assign = derivation_sub_assign;
}

-- The value that the index wraps is in its range.
abbrev pub IsInRange : DerivationIndex → Type 0
IsInRange (normal i) = IsNormal i
IsInRange (hardened i) = IsReduced i
