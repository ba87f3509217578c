-- ===== src/Prelude/Big.antt =====
-- `u32::to_be_bytes` and `u32::from_be_bytes`, and ranges of a slice.
use Prim.Native.Nat.{ℕ, zero, suc, ◌+◌, ◌-◌, ◌*◌, ◌/◌, ◌%◌, ◌^◌, ◌<◌}
use mathlib.Core.Path.{◌≡◌, refl, ◌∙◌}
use mathlib.Core.List.{List, [], ◌∷◌, ◌++◌}
use native.Mathlib.Omega.{arith}
use native.Mathlib.Nat.{pow-suc}
use bp_std.Prelude.Lists.{Bytes, length, length-append}

-- the first argument is the number of bytes
unfoldable pub to_be_bytes : ℕ → ℕ → Bytes
to_be_bytes zero n = []
to_be_bytes (suc k) n = to_be_bytes k (n / 256) ++ (n % 256) ∷ []

abbrev pub be_onto : ℕ → Bytes → ℕ
be_onto acc [] = acc
be_onto acc (b ∷ bs) = be_onto (256 * acc + b) bs

unfoldable pub from_be_bytes : Bytes → ℕ
from_be_bytes bs = be_onto 0 bs

pub length-to_be_bytes : (k n : ℕ) → length (to_be_bytes k n) ≡ k
unfolding to_be_bytes
length-to_be_bytes zero n = refl
length-to_be_bytes (suc k) n = omega (
  arith,
  length-to_be_bytes k (n / 256),
  length-append (to_be_bytes k (n / 256)) ((n % 256) ∷ []),
)

be_onto-append :
    (acc : ℕ) (xs : Bytes) (b : ℕ) → be_onto acc (xs ++ b ∷ []) ≡ 256 * be_onto acc xs + b
be_onto-append acc [] b = refl
be_onto-append acc (x ∷ xs) b = be_onto-append (256 * acc + x) xs b

pub from_be_bytes-to_be_bytes : (k n : ℕ) → n < 256 ^ k → from_be_bytes (to_be_bytes k n) ≡ n
unfolding from_be_bytes to_be_bytes
from_be_bytes-to_be_bytes zero n h = omega arith
from_be_bytes-to_be_bytes (suc k) n h =
    let ih = from_be_bytes-to_be_bytes k (n / 256) (omega (arith, pow-suc 256 k)) in
    be_onto-append 0 (to_be_bytes k (n / 256)) (n % 256) ∙ omega (arith, ih)

module _ {ℓ} {A : Type ℓ} where
  abbrev pub take : ℕ → List A → List A
  take zero xs = []
  take (suc n) [] = []
  take (suc n) (x ∷ xs) = x ∷ take n xs

  abbrev pub drop : ℕ → List A → List A
  drop zero xs = xs
  drop (suc n) [] = []
  drop (suc n) (x ∷ xs) = drop n xs

  -- `&data[from..to]`
  abbrev pub range : List A → ℕ → ℕ → List A
  range xs from to = take (to - from) (drop from xs)

  pub take-append : (k : ℕ) (xs ys : List A) → length xs ≡ k → take k (xs ++ ys) ≡ xs
  take-append zero [] ys h = refl
  take-append zero (x ∷ xs) ys h = absurd (omega (arith, h))
  take-append (suc k) [] ys h = absurd (omega (arith, h))
  take-append (suc k) (x ∷ xs) ys h = rw (take-append k xs ys (omega (arith, h))) refl

  drop_sum : (k n : ℕ) (xs ys : List A) → length xs ≡ k → drop (k + n) (xs ++ ys) ≡ drop n ys
  drop_sum zero n [] ys h = ground arith
  drop_sum zero n (x ∷ xs) ys h = absurd (omega (arith, h))
  drop_sum (suc k) n [] ys h = absurd (omega (arith, h))
  drop_sum (suc k) n (x ∷ xs) ys h =
      let e : suc k + n ≡ suc (k + n) = omega arith in rw e (drop_sum k n xs ys (omega (arith, h)))

  pub drop-append :
      (m k n : ℕ) (xs ys : List A) → m ≡ k + n → length xs ≡ k → drop m (xs ++ ys) ≡ drop n ys
  drop-append m k n xs ys e h = rw e (drop_sum k n xs ys h)

  pub take-length : (k : ℕ) (xs : List A) → length xs ≡ k → take k xs ≡ xs
  take-length zero [] h = refl
  take-length zero (x ∷ xs) h = absurd (omega (arith, h))
  take-length (suc k) [] h = refl
  take-length (suc k) (x ∷ xs) h = rw (take-length k xs (omega (arith, h))) refl
