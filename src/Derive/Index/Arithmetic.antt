-- ===== src/Derive/Index/Arithmetic.antt =====
-- The arithmetic of `NormalIndex` in derive/src/index.rs.
use bp_std.Prelude.{
  ℕ, ◌+◌, ◌-◌, ◌%◌, ◌^◌, ◌≤◌, ◌<◌, ltb, leb, if◌then◌else◌, none, some, ◌≡◌, ◌≢◌, ◌↔◌, arith,
}
use bp_std.Derive.Index.{
  checked_add, checked_sub, saturating_add, saturating_sub, checked_inc, checked_dec, wrapping_inc,
  wrapping_dec, wrapping_dec_assign,
}
use bp_std.Derive.Index.Normal.{
  NormalIndex, normal_idx, normal_add_assign, normal_sub_assign, IsNormal,
}

abbrev at : ℕ → NormalIndex
at n = record { value = n }

module _ (i : NormalIndex) (valid : IsNormal i) where
  -- For an index below 2^31 and any word: checked addition gives the sum if it is below 2^31, and
  -- nothing otherwise; saturating addition gives the sum or 2^31 - 1; checked subtraction gives the
  -- difference unless it is negative; saturating subtraction gives the difference or 0.
  pub checked-saturating :
      (n : ℕ)
      → n < 2 ^ 32
      → (checked_add i n ≡ (if ltb (i.value + n) (2 ^ 31) then some (at (i.value + n)) else none))
        × (saturating_add i n ≡ at (if ltb (i.value + n) (2 ^ 31) then i.value + n else 2 ^ 31 - 1))
        × (checked_sub i n ≡ (if leb n i.value then some (at (i.value - n)) else none))
        × (saturating_sub i n ≡ at (i.value - n))
  unfolding checked_add checked_sub saturating_add saturating_sub normal_add_assign
      normal_sub_assign
  checked-saturating n h = (ground arith, ground arith, ground arith, ground arith)

  -- Wrapping steps go round the 2^31 normal indexes, and undo each other.
  wrapping_steps :
      (wrapping_inc i ≡ at ((i.value + 1) % 2 ^ 31))
      × (wrapping_dec i ≡ at ((i.value + 2 ^ 31 - 1) % 2 ^ 31))
      × (wrapping_dec (wrapping_inc i) ≡ i)
      × (wrapping_inc (wrapping_dec i) ≡ i)
  unfolding wrapping_inc wrapping_dec normal_add_assign normal_sub_assign
  wrapping_steps = (ground arith, ground arith, ground arith, ground arith)

  -- The next index is the one whose previous index this is.
  checked_inc-checked_dec :
      (j : NormalIndex) → IsNormal j → (checked_inc i ≡ some j) ↔ (checked_dec j ≡ some i)
  unfolding checked_inc checked_dec normal_add_assign normal_sub_assign
  checked_inc-checked_dec j h = (λ e. ground arith, λ e. ground arith)

  -- `wrapping_dec_assign` never leaves the index that `wrapping_dec` returns: it steps upwards.
  wrapping_dec_assign-ne-wrapping_dec : wrapping_dec_assign i ≢ wrapping_dec i
  unfolding wrapping_dec_assign wrapping_dec normal_add_assign normal_sub_assign
  wrapping_dec_assign-ne-wrapping_dec e = ground arith

  -- Where an addition fails because the sum is in the hardened range, the index that it was asked
  -- to change is left with that sum, which is no normal index.
  checked_add_assign_failed :
      (n : ℕ)
      → 2 ^ 31 ≤ i.value + n
      → i.value + n < 2 ^ 32
      → (normal_add_assign i n ≡ (at (i.value + n), none)) × ¬ (IsNormal (normal_add_assign i n).0)
  unfolding normal_add_assign
  checked_add_assign_failed n lo hi = (ground arith, λ h. ground arith)
