-- ===== src/Derive/Index/Hardened.antt =====
-- `HardenedIndex` of derive/src/index.rs.
use bp_std.Prelude.{ℕ, ◌+◌, ◌-◌, ◌%◌, ◌^◌, ◌<◌, ltb, if◌then◌else◌, true, Option}
use mathlib.Core.Option
use bp_std.Prelude.Results.{Result, ok, err, map_err}
use bp_std.Derive.Index.{hardened_index_boundary, IndexError, Idx, add_assign, sub_assign}

pub record HardenedIndex : Type 0 where
  pub value : ℕ

-- `HardenedIndex::hardened` and `Idx::from_child_number`, of a `u16`
abbrev pub hardened : ℕ → HardenedIndex
hardened child_number = record { value = child_number }

-- `IdxBase::index`: a sum of words
unfoldable pub index : HardenedIndex → ℕ
index i = (i.value + hardened_index_boundary) % 2 ^ 32

unfoldable pub try_from_child_number : ℕ → Result IndexError HardenedIndex
try_from_child_number index =
    if ltb index hardened_index_boundary
    then ok (record { value = index })
    else err (record {
      what = "child number";
      invalid = index;
      start = 0;
      end = hardened_index_boundary;
    })

unfoldable pub try_from_index : ℕ → Result IndexError HardenedIndex
unfolding try_from_child_number
try_from_index child_no =
    if ltb child_no hardened_index_boundary
    then ok (record { value = child_no })
    else map_err
        (λ (e : IndexError). record {
          what = "index";
          invalid = child_no;
          start = hardened_index_boundary;
          end = 2 ^ 32 - 1;
        })
        (try_from_child_number (child_no - hardened_index_boundary))

abbrev pub rewrap : ℕ × Option ℕ → HardenedIndex × Option HardenedIndex
rewrap (value, done) = (record { value = value }, Option.map (λ _. record { value = value }) done)

unfoldable pub hardened_add_assign : HardenedIndex → ℕ → HardenedIndex × Option HardenedIndex
unfolding add_assign
hardened_add_assign i add = rewrap (add_assign i.value add)

unfoldable pub hardened_sub_assign : HardenedIndex → ℕ → HardenedIndex × Option HardenedIndex
unfolding sub_assign
hardened_sub_assign i sub = rewrap (sub_assign i.value sub)

instance abbrev pub hardened_idx : Idx HardenedIndex
hardened_idx = record {
  is_hardened = λ _. true;
  child_number = λ i. i.value;
  index = index;
  zero = record { value = hardened_index_boundary };
  one = record { value = 1 };
  max = record { value = 2 ^ 32 - 1 };
  try_from_index = try_from_index;
  checked_add_assign = hardened_add_assign;
  checked_sub_assign = hardened_sub_assign;
}

-- the inner value is reduced by 2^31
abbrev pub IsReduced : HardenedIndex → Type 0
IsReduced i = i.value < hardened_index_boundary
