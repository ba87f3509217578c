-- ===== src/Derive/Index.antt =====
-- derive/src/index.rs: the trait `Idx` of derivation indexes. A method on `&mut self` returns the
-- new value beside its result. Words have 32 bits and wrap around, as in a release build.
pub mod Normal
pub mod Hardened
pub mod Derivation
pub mod Arithmetic
pub mod Ranges
pub mod Text
use bp_std.Prelude.{
  ℕ, ◌+◌, ◌-◌, ◌≤◌, ◌<◌, ◌^◌, ltb, leb, if◌then◌else◌, Bool, true, false, Option, none, some,
  String,
}
use bp_std.Prelude.Results.{Result}

-- `HARDENED_INDEX_BOUNDARY`
abbrev pub hardened_index_boundary : ℕ
hardened_index_boundary = 2 ^ 31

pub record IndexError : Type 0 where
  pub what : String
  pub invalid : ℕ
  pub start : ℕ
  pub end : ℕ

-- `IdxBase` and the methods of `Idx` that an index type gives itself
pub record Idx (I : Type 0) : Type 0 where
  pub is_hardened : I → Bool
  pub child_number : I → ℕ
  pub index : I → ℕ
  pub zero : I
  pub one : I
  pub max : I
  pub try_from_index : ℕ → Result IndexError I
  pub checked_add_assign : I → ℕ → I × Option I
  pub checked_sub_assign : I → ℕ → I × Option I

-- `u32::checked_add`, `u32::checked_sub`
abbrev pub checked_add_u32 : ℕ → ℕ → Option ℕ
checked_add_u32 a b = if ltb (a + b) (2 ^ 32) then some (a + b) else none

abbrev pub checked_sub_u32 : ℕ → ℕ → Option ℕ
checked_sub_u32 a b = if leb b a then some (a - b) else none

-- The free function `checked_add_assign`: the sum is stored before it is compared.
unfoldable pub add_assign : ℕ → ℕ → ℕ × Option ℕ
add_assign index add = elim (checked_add_u32 index add) [
  | none ↦ (index, none)
  | some sum ↦ (sum, (if leb hardened_index_boundary sum then none else some sum))
]

-- The free function `checked_sub_assign`
unfoldable pub sub_assign : ℕ → ℕ → ℕ × Option ℕ
sub_assign index sub = elim (checked_sub_u32 index sub) [
  | none ↦ (index, none)
  | some difference ↦ (difference, some difference)
]

-- the default methods
module _ {I : Type 0} ⦃t : Idx I⦄ where
  -- `Idx::MIN`
  abbrev pub min : I
  min = t.zero

  unfoldable pub checked_add : I → ℕ → Option I
  checked_add i add =
      let (res, done) = t.checked_add_assign i add in elim done [ none ↦ none | some _ ↦ some res ]

  unfoldable pub checked_sub : I → ℕ → Option I
  checked_sub i sub =
      let (res, done) = t.checked_sub_assign i sub in elim done [ none ↦ none | some _ ↦ some res ]

  unfoldable pub saturating_add_assign : I → ℕ → I × Bool
  saturating_add_assign i add =
      let (res, done) = t.checked_add_assign i add in
      elim done [ none ↦ (t.max, false) | some _ ↦ (res, true) ]

  unfoldable pub saturating_sub_assign : I → ℕ → I × Bool
  saturating_sub_assign i sub =
      let (res, done) = t.checked_sub_assign i sub in
      elim done [ none ↦ (min, false) | some _ ↦ (res, true) ]

  unfoldable pub saturating_add : I → ℕ → I
  unfolding saturating_add_assign
  saturating_add i add = (saturating_add_assign i add).0

  unfoldable pub saturating_sub : I → ℕ → I
  unfolding saturating_sub_assign
  saturating_sub i sub = (saturating_sub_assign i sub).0

  abbrev unwrap_or : I → Option I → I
  unwrap_or d none = d
  unwrap_or d (some i) = i

  unfoldable pub checked_inc : I → Option I
  unfolding checked_add
  checked_inc i = checked_add i 1

  unfoldable pub checked_dec : I → Option I
  unfolding checked_sub
  checked_dec i = checked_sub i 1

  unfoldable pub saturating_inc : I → I
  unfolding saturating_add
  saturating_inc i = saturating_add i 1

  unfoldable pub saturating_dec : I → I
  unfolding saturating_sub
  saturating_dec i = saturating_sub i 1

  unfoldable pub wrapping_inc : I → I
  unfolding checked_add
  wrapping_inc i = unwrap_or min (checked_add i 1)

  unfoldable pub wrapping_dec : I → I
  unfolding checked_sub
  wrapping_dec i = unwrap_or t.max (checked_sub i 1)

  unfoldable pub checked_inc_assign : I → I × Option I
  checked_inc_assign i = t.checked_add_assign i 1

  unfoldable pub checked_dec_assign : I → I × Option I
  checked_dec_assign i = t.checked_sub_assign i 1

  unfoldable pub saturating_inc_assign : I → I × Bool
  unfolding saturating_add_assign
  saturating_inc_assign i = saturating_add_assign i 1

  unfoldable pub saturating_dec_assign : I → I × Bool
  unfolding saturating_sub_assign
  saturating_dec_assign i = saturating_sub_assign i 1

  unfoldable pub wrapping_inc_assign : I → I
  unfolding wrapping_inc
  wrapping_inc_assign i = wrapping_inc i

  unfoldable pub wrapping_dec_assign : I → I
  unfolding wrapping_inc
  wrapping_dec_assign i = wrapping_inc i
