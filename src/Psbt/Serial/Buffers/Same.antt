-- ===== src/Psbt/Serial/Buffers/Same.antt =====
-- Readers that succeed alike, one with the panic of the buffers of psbt/src/coders.rs and the other
-- without it.
use bp_std.Prelude.{
  ℕ, ◌<◌, ◌≤◌, Bytes, length, length-append, ltb, ◌≡◌, ◌↔◌, arith, Bool-cases, inl, inr,
}
use bp_std.Prelude.Results.{Result, ok, Result-cases}
use bp_std.Psbt.Errors.{DecodeError}
use bp_std.Psbt.Coders.Reader
use bp_std.Psbt.Coders.Reader.{Decoder, read_exact, read_exact-parts}
use bp_std.Psbt.KeyMap.{Fault}
use bp_std.Psbt.Serial.{Parser, ◌>>=◌, reading}
use bp_std.Psbt.Serial.Buffers.{capacity, read_buffer}

-- One succeeds where the other does, and with the same.
abbrev pub Same : {A : Type 0} → Result (Fault DecodeError) A → Result DecodeError A → Type 0
Same {A} x y = (a : A) → (x ≡ ok a) ↔ (y ≡ ok a)

pub reading-Same : {A : Type 0} (d : Decoder A) (s : Bytes) → Same (reading d s) (d s)
reading-Same d s a = elim (Result-cases (d s)) [
  | inl (r, e) ↦ rw e (λ h. cc, λ h. cc)
  | inr (x, e) ↦ rw e (λ h. cc, λ h. cc)
]

pub read_exact-bounds :
    (n : ℕ) (s p r : Bytes)
    → read_exact n s ≡ ok (p, r)
    → (n ≤ length s) × (length r ≤ length s) × (length p ≤ length s)
read_exact-bounds n s p r h = ground (arith, read_exact-parts n s p r h, length-append p r)

pub read_buffer-Same :
    (n : ℕ) (s : Bytes) → length s < capacity → Same (read_buffer n s) (read_exact n s)
unfolding read_buffer
read_buffer-Same n s short a = elim (Bool-cases (ltb n capacity)) [
  | inl fits ↦ rw fits (reading-Same (read_exact n) s a)
  | inr over ↦
      rw over (λ h. cc, λ h. absurd (ground (arith, over, short, read_exact-bounds n s a.0 a.1 h)))
]

pub bind-Same :
    {A B : Type 0} (m : Parser A) (f : A → Parser B) (d : Decoder A) (g : A → Decoder B) (s : Bytes)
    → Same (m s) (d s)
    → ((a : A) (rest : Bytes) → d s ≡ ok (a, rest) → Same (f a rest) (g a rest))
    → Same ((m >>= f) s) (Reader.◌>>=◌ d g s)
bind-Same m f d g s same k r = elim (Result-cases (d s)) [
  | inl ((a, rest), e) ↦
      let (to, from) = same (a, rest) in rw (◌>>=◌, Reader.◌>>=◌, e, from e) (k a rest e r)
  | inr (x, e) ↦ elim (Result-cases (m s)) [
    | inl (a, e') ↦ let (to, from) = same a in cc (to e', e)
    | inr (y, e') ↦ rw (◌>>=◌, Reader.◌>>=◌, e, e') (λ h. cc, λ h. cc)
  ]
]
