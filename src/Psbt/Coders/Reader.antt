-- ===== src/Psbt/Coders/Reader.antt =====
-- Readers and writers of psbt/src/coders.rs: a reader is the bytes that are left, a writer returns
-- what it wrote and the count that it reports. A buffer is taken to be allocated whatever its
-- length; where that is read from the stream, the source panics on one that does not fit
-- (Psbt.Serial.Buffers).
use bp_std.Prelude.{
  ℕ, zero, suc, Bytes, [], ◌∷◌, ◌++◌, length, ◌≡◌, refl, arith, Option, some, none, Option-cases,
  inl, inr,
}
use bp_std.Prelude.Results.{Result, ok, err, Result-cases}
use bp_std.Psbt.Errors.{DecodeError, io, psbt, PsbtError}

abbrev pub Decoder : Type 0 → Type 0
Decoder A = Bytes → Result DecodeError (A × Bytes)

infixl 5 ◌>>=◌ ◌>>◌
abbrev pub ◌>>=◌ : {A B : Type 0} → Decoder A → (A → Decoder B) → Decoder B
◌>>=◌ m f s = elim (m s) [ err e ↦ err e | ok (a, rest) ↦ f a rest ]

abbrev pub ◌>>◌ : {A B : Type 0} → Decoder A → Decoder B → Decoder B
m >> n = m >>= λ _. n

abbrev pub pure : {A : Type 0} → A → Decoder A
pure a s = ok (a, s)

abbrev pub fail : {A : Type 0} → PsbtError → Decoder A
fail e s = err (psbt e)

abbrev pub from_result : {A : Type 0} → Result PsbtError A → Decoder A
from_result (ok a) s = ok (a, s)
from_result (err e) s = err (psbt e)

-- the first `n` bytes and the rest, if there are as many
unfoldable pub split_at : ℕ → Bytes → Option (Bytes × Bytes)
split_at zero s = some ([], s)
split_at (suc n) [] = none
split_at (suc n) (b ∷ s) = elim (split_at n s) [ none ↦ none | some (p, r) ↦ some (b ∷ p, r) ]

-- `Read::read_exact` into a buffer of `n` bytes. A buffer that is too large to be allocated, on
-- which `vec![0u8; n]` panics, is here one that the stream does not fill.
unfoldable pub read_exact : ℕ → Decoder Bytes
read_exact n s = elim (split_at n s) [ none ↦ err io | some pr ↦ ok pr ]

-- `Read::read_to_end`
abbrev pub read_to_end : Decoder Bytes
read_to_end s = ok (s, [])

pub split_at-append : (xs rest : Bytes) → split_at (length xs) (xs ++ rest) ≡ some (xs, rest)
unfolding split_at
split_at-append [] rest = refl
split_at-append (x ∷ xs) rest = rw (split_at-append xs rest)

pub read_exact-append : (xs rest : Bytes) → read_exact (length xs) (xs ++ rest) ≡ ok (xs, rest)
unfolding read_exact
read_exact-append xs rest = ground (arith, split_at-append xs rest)

pub split_at-parts :
    (n : ℕ) (s p r : Bytes) → split_at n s ≡ some (p, r) → (s ≡ p ++ r) × (length p ≡ n)
unfolding split_at
split_at-parts zero s p r h = ground arith
split_at-parts (suc n) [] p r h = cc
split_at-parts (suc n) (b ∷ s) p r h = elim (Option-cases (split_at n s)) [
  | inl e ↦ cc (h, e)
  | inr ((q, t), e) ↦ ground (arith, e, split_at-parts n s q t e)
]

-- What `read_exact` returns is the front of the input, and has the length that was asked for.
pub read_exact-parts :
    (n : ℕ) (s p r : Bytes) → read_exact n s ≡ ok (p, r) → (s ≡ p ++ r) × (length p ≡ n)
unfolding read_exact
read_exact-parts n s p r h = elim (Option-cases (split_at n s)) [
  | inl e ↦ ground (arith, e)
  | inr ((q, t), e) ↦ ground (arith, e, split_at-parts n s q t e)
]

-- The rest of a block runs on what a successful step returned.
pub bind-ok :
    {A B : Type 0} (m : Decoder A) (f : A → Decoder B) {s rest : Bytes} {a : A}
    → m s ≡ ok (a, rest)
    → (m >>= f) s ≡ f a rest
bind-ok m f h = rw (h, ◌>>=◌)

-- Inversion of a successful block.
pub bind-eq-ok :
    {A B : Type 0} (m : Decoder A) (f : A → Decoder B) {s t : Bytes} {b : B}
    → (m >>= f) s ≡ ok (b, t)
    → (a : A) × (rest : Bytes) × (m s ≡ ok (a, rest)) × (f a rest ≡ ok (b, t))
bind-eq-ok m f {s} h = elim (Result-cases (m s)) [
  | inl ((a, rest), e) ↦ (a, rest, e, (rw (e, ◌>>=◌) at h))
  | inr (x, e) ↦ cc (rw (e, ◌>>=◌) at h)
]
