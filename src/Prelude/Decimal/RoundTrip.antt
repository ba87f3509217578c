-- ===== src/Prelude/Decimal/RoundTrip.antt =====
-- A printed number is read back, and is made of digits.
use Prim.Native.Nat.{ℕ, zero, suc, ◌+◌, ◌-◌, ◌*◌, ◌/◌, ◌%◌, ◌<◌, ◌≤◌}
use mathlib.Core.Path.{◌≡◌, refl}
use mathlib.Core.Logic.{◌≢◌}
use mathlib.Core.Bool.{true, false}
use mathlib.Core.List.{[], ◌∷◌, ◌++◌, cons-ne-nil}
use native.Mathlib.Omega.{arith}
use bp_std.Prelude.Lists.{Bytes, All}
use bp_std.Prelude.Results.{ok}
use bp_std.Prelude.Decimal.{is_digit, emit, show_decimal, scan, parse_decimal}

scan-emit :
    (limit fuel n : ℕ) (out : Bytes)
    → n ≤ fuel
    → n < limit
    → scan limit (emit fuel n out) 0 ≡ scan limit out n
unfolding emit scan
scan-emit limit zero n out h fits = ground arith
scan-emit limit (suc fuel) n out h fits =
    ground (arith, scan-emit limit fuel (n / 10) ((b'0' + n % 10) ∷ out))

emit-All :
    (fuel n : ℕ) (out : Bytes)
    → All (λ c. is_digit c ≡ true) out
    → All (λ c. is_digit c ≡ true) (emit fuel n out)
unfolding emit
emit-All zero n out h = h
emit-All (suc fuel) n out h = ground (arith, emit-All fuel (n / 10) ((b'0' + n % 10) ∷ out))

emit-ne-nil : (fuel n : ℕ) (out : Bytes) → out ≢ [] → emit fuel n out ≢ []
unfolding emit
emit-ne-nil zero n out h = h
emit-ne-nil (suc fuel) n out h =
    ground
      (arith, emit-ne-nil fuel (n / 10) ((b'0' + n % 10) ∷ out), cons-ne-nil (b'0' + n % 10) out)

pub show_decimal-All : (n : ℕ) → All (λ c. is_digit c ≡ true) (show_decimal n)
unfolding show_decimal
show_decimal-All n = ground (arith, emit-All n n [] tt)

scan-show_decimal : (limit n : ℕ) → n < limit → scan limit (show_decimal n) 0 ≡ ok n
unfolding show_decimal scan
scan-show_decimal limit n h = ground (arith, scan-emit limit n n [])

pub show_decimal-ne-nil : (n : ℕ) → show_decimal n ≢ []
unfolding show_decimal emit
show_decimal-ne-nil zero = ground arith
show_decimal-ne-nil (suc n) = ground (
  arith,
  emit-ne-nil n (suc n / 10) ((b'0' + suc n % 10) ∷ []),
  cons-ne-nil (b'0' + suc n % 10) [],
)

-- a number of digits only is scanned from its start
parse_decimal-scan :
    (limit : ℕ) (s : Bytes)
    → All (λ c. is_digit c ≡ true) s
    → s ≢ []
    → parse_decimal limit s ≡ scan limit s 0
unfolding parse_decimal
parse_decimal-scan limit [] digits h = absurd (h refl)
parse_decimal-scan limit (c ∷ []) digits h = refl
parse_decimal-scan limit (c ∷ d ∷ s) digits h = ground arith

pub parse_decimal-show_decimal :
    (limit n : ℕ) → n < limit → parse_decimal limit (show_decimal n) ≡ ok n
parse_decimal-show_decimal limit n h =
    rw (parse_decimal-scan limit (show_decimal n) (show_decimal-All n) (show_decimal-ne-nil n))
      (scan-show_decimal limit n h)

-- a text that ends in another character is no number
scan-append_invalid :
    (limit : ℕ) (s : Bytes) (c n m : ℕ) → is_digit c ≡ false → scan limit (s ++ c ∷ []) n ≢ ok m
unfolding scan
scan-append_invalid limit [] c n m h = ground arith
scan-append_invalid limit (d ∷ s) c n m h =
    ground (arith, scan-append_invalid limit s c (n * 10 + (d - b'0')) m)

pub parse_decimal-append_invalid :
    (limit : ℕ) (s : Bytes) (c m : ℕ)
    → is_digit c ≡ false
    → parse_decimal limit (s ++ c ∷ []) ≢ ok m
unfolding parse_decimal
parse_decimal-append_invalid limit [] c m h = scan-append_invalid limit [] c 0 m h
parse_decimal-append_invalid limit (d ∷ []) c m h =
    ground (arith, scan-append_invalid limit [] c 0 m, scan-append_invalid limit (d ∷ []) c 0 m)
parse_decimal-append_invalid limit (d ∷ f ∷ s) c m h =
    ground
      (arith, scan-append_invalid limit (f ∷ s) c 0 m, scan-append_invalid limit (d ∷ f ∷ s) c 0 m)
