-- ===== src/Prelude/Decimal.antt =====
-- `Display` and `FromStr` of the standard library's unsigned integers, in decimal.
pub mod RoundTrip
use Prim.Native.Nat.{ℕ, zero, suc, ◌+◌, ◌-◌, ◌*◌, ◌/◌, ◌%◌, ◌<◌, ◌≤◌}
use mathlib.Core.Path.{◌≡◌, refl}
use mathlib.Core.Bool.{Bool, ◌&&◌}
use mathlib.Core.List.{[], ◌∷◌}
use bp_std.Prelude.Tests.{ltb, leb, ◌==◌, if◌then◌else◌}
use bp_std.Prelude.Lists.{Bytes}
use bp_std.Prelude.Results.{Result, ok, err}

pub data ParseIntError : Type 0 where
  empty invalid_digit pos_overflow : ParseIntError

abbrev pub is_digit : ℕ → Bool
is_digit c = leb b'0' c && leb c b'9'

-- the fuel is the number itself: each round divides it by ten
pub emit : ℕ → ℕ → Bytes → Bytes
emit zero n out = out
emit (suc fuel) n out =
    let rest = emit fuel (n / 10) ((b'0' + n % 10) ∷ out) in if n == 0 then out else rest

-- `to_string`
unfoldable pub show_decimal : ℕ → Bytes
unfolding emit
show_decimal n = if n == 0 then b'0' ∷ [] else emit n n []

-- the digits after those that make `n`; the values of the type are below `limit`
pub scan : ℕ → Bytes → ℕ → Result ParseIntError ℕ
scan limit [] n = ok n
scan limit (c ∷ s) n =
    let m = n * 10 + (c - b'0') in
    let rest = scan limit s m in
    if is_digit c then (if ltb m limit then rest else err pos_overflow) else err invalid_digit

-- `from_str`: one sign `+` may stand before the digits
unfoldable pub parse_decimal : ℕ → Bytes → Result ParseIntError ℕ
unfolding scan
parse_decimal limit [] = err empty
parse_decimal limit (c ∷ []) = scan limit (c ∷ []) 0
parse_decimal limit (c ∷ d ∷ s) =
    if c == b'+' then scan limit (d ∷ s) 0 else scan limit (c ∷ d ∷ s) 0
