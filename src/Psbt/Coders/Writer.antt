-- ===== src/Psbt/Coders/Writer.antt =====
-- Writers of psbt/src/coders.rs: the trait `Encode` returns the number of bytes that it wrote, and
-- some callers frame the bytes by that number.
use bp_std.Prelude.{ℕ, ◌+◌, Bytes, List, [], ◌∷◌, ◌++◌, length, length-append, ◌≡◌, refl, arith}

pub record Encoded : Type 0 where
  pub written : Bytes
  pub count : ℕ

abbrev pub Encoder : Type 0 → Type 0
Encoder A = A → Encoded

-- `writer.write_all(bytes)?; Ok(bytes.len())`
abbrev pub raw : Bytes → Encoded
raw bytes = record { written = bytes; count = length bytes }

-- one write after another; `counter += …`
infixr 60 ◌▸◌
abbrev pub ◌▸◌ : Encoded → Encoded → Encoded
a ▸ b = record { written = a.written ++ b.written; count = a.count + b.count }

-- a loop of writes
abbrev pub encode_each : {A : Type 0} → Encoder A → Encoder (List A)
encode_each encode [] = raw []
encode_each encode (a ∷ rest) = encode a ▸ encode_each encode rest

-- The number that an encoder returns is that of the bytes it wrote.
abbrev pub IsExact : Encoded → Type 0
IsExact e = e.count ≡ length e.written

pub raw-IsExact : (bytes : Bytes) → IsExact (raw bytes)
raw-IsExact bytes = refl

pub ▸-IsExact : (a b : Encoded) → IsExact a → IsExact b → IsExact (a ▸ b)
▸-IsExact a b ha hb = omega (arith, length-append a.written b.written)

pub encode_each-IsExact :
    {A : Type 0} (encode : Encoder A)
    → ((a : A) → IsExact (encode a))
    → (as' : List A) → IsExact (encode_each encode as')
encode_each-IsExact encode h [] = refl
encode_each-IsExact encode h (a ∷ rest) =
    ▸-IsExact (encode a) (encode_each encode rest) (h a) (encode_each-IsExact encode h rest)
