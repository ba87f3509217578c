-- ===== src/Derive/Index/Normal.antt =====
-- `NormalIndex` of derive/src/index.rs.
use bp_std.Prelude.{ℕ, ◌-◌, ◌<◌, leb, if◌then◌else◌, false, Option}
use mathlib.Core.Option
use bp_std.Prelude.Results.{Result, ok, err, map_err}
use bp_std.Derive.Index.{hardened_index_boundary, IndexError, Idx, add_assign, sub_assign}

pub record NormalIndex : Type 0 where
  pub value : ℕ

-- `NormalIndex::normal` and `Idx::from_child_number`, of a `u16`
abbrev pub normal : ℕ → NormalIndex
normal child_number = record { value = child_number }

unfoldable pub try_from_child_number : ℕ → Result IndexError NormalIndex
try_from_child_number index =
    if leb hardened_index_boundary index
    then err (record {
      what = "child number";
      invalid = index;
      start = 0;
      end = hardened_index_boundary;
    })
    else ok (record { value = index })

unfoldable pub try_from_index : ℕ → Result IndexError NormalIndex
unfolding try_from_child_number
try_from_index value =
    map_err (λ (e : IndexError). record e { what = "index" }) (try_from_child_number value)

-- the pair of what `&mut self.0` holds and the result, as `map(|_| *self)` makes it
abbrev pub rewrap : ℕ × Option ℕ → NormalIndex × Option NormalIndex
rewrap (value, done) = (record { value = value }, Option.map (λ _. record { value = value }) done)

unfoldable pub normal_add_assign : NormalIndex → ℕ → NormalIndex × Option NormalIndex
unfolding add_assign
normal_add_assign i add = rewrap (add_assign i.value add)

unfoldable pub normal_sub_assign : NormalIndex → ℕ → NormalIndex × Option NormalIndex
unfolding sub_assign
normal_sub_assign i sub = rewrap (sub_assign i.value sub)

instance abbrev pub normal_idx : Idx NormalIndex
normal_idx = record {
  is_hardened = λ _. false;
  child_number = λ i. i.value;
  index = λ i. i.value;
  zero = record { value = 0 };
  one = record { value = 1 };
  max = record { value = hardened_index_boundary - 1 };
  try_from_index = try_from_index;
  checked_add_assign = normal_add_assign;
  checked_sub_assign = normal_sub_assign;
}

-- the inner value is below 2^31
abbrev pub IsNormal : NormalIndex → Type 0
IsNormal i = i.value < hardened_index_boundary
