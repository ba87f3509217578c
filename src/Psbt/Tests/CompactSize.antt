-- ===== src/Psbt/Tests/CompactSize.antt =====
-- A concrete instance of the consensus codecs: Bitcoin's compact size integers and little-endian
-- words.
use bp_std.Prelude.{
  ℕ, ◌≤◌, ◌<◌, ◌^◌, Bytes, [], ◌∷◌, ◌++◌, length, length-append, ltb, ◌==◌, if◌then◌else◌, ◌≡◌,
  refl, ◌∙◌, arith,
}
use bp_std.Prelude.Little.{
  to_le_bytes, from_le_bytes, length-to_le_bytes, from_le_bytes-to_le_bytes,
}
use bp_std.Prelude.Results.{ok, err}
use bp_std.Psbt.Errors.{io}
use bp_std.Psbt.Coders.Reader.{
  Decoder, ◌>>=◌, pure, read_exact, read_exact-append, read_exact-parts, bind-ok, bind-eq-ok,
}
use bp_std.Psbt.Coders.Writer.{raw}
use bp_std.Psbt.Coders.Wire.{Wire, IsWire}

-- `k` bytes, little-endian
pub word : ℕ → Decoder ℕ
word k = do bytes ← read_exact k; pure (from_le_bytes bytes)

pub byte : Decoder ℕ
byte [] = err io
byte (b ∷ rest) = ok (b, rest)

pub compact : ℕ → Bytes
compact n =
    if ltb n 0xfd
    then n ∷ []
    else if ltb n (2 ^ 16)
    then 0xfd ∷ to_le_bytes 2 n
    else if ltb n (2 ^ 32)
    then 0xfe ∷ to_le_bytes 4 n
    else 0xff ∷ to_le_bytes 8 n

pub read_compact : Decoder ℕ
read_compact [] = err io
read_compact (b ∷ rest) =
    if b == 0xfd
    then word 2 rest
    else if b == 0xfe
    then word 4 rest
    else if b == 0xff
    then word 8 rest
    else ok (b, rest)

abbrev pub wire : Wire
wire = record {
  varint = record { encode = λ n. raw (compact n); decode = read_compact };
  u8 = record { encode = λ b. raw (b ∷ []); decode = byte };
  u32 = record { encode = λ n. raw (to_le_bytes 4 n); decode = word 4 };
  from_utf8_lossy = λ bytes. bytes;
}

word-to_le_bytes :
    (k n : ℕ) (rest : Bytes) → n < 256 ^ k → word k (to_le_bytes k n ++ rest) ≡ ok (n, rest)
unfolding word
word-to_le_bytes k n rest h =
    bind-ok (read_exact k) _ (rw length-to_le_bytes at (read_exact-append (to_le_bytes k n) rest))
    ∙ rw (from_le_bytes-to_le_bytes k n h)

word-consumes :
    (k : ℕ) (s : Bytes) (n : ℕ) (rest : Bytes) → word k s ≡ ok (n, rest) → length rest ≤ length s
unfolding word
word-consumes k s n rest h =
    let (p, r, e, q) = bind-eq-ok (read_exact k) _ h in
    ground (arith, q, read_exact-parts k s p r e, length-append p r)

compact-round_trips :
    (n : ℕ) (rest : Bytes) → n < 2 ^ 64 → read_compact (compact n ++ rest) ≡ ok (n, rest)
unfolding read_compact compact
compact-round_trips n rest h =
    ground (arith, word-to_le_bytes 2 n rest, word-to_le_bytes 4 n rest, word-to_le_bytes 8 n rest)

compact-consumes :
    (s : Bytes) (n : ℕ) (rest : Bytes) → read_compact s ≡ ok (n, rest) → length rest < length s
unfolding read_compact
compact-consumes [] n rest h = cc
compact-consumes (b ∷ s) n rest h =
    ground (arith, word-consumes 2 s n rest, word-consumes 4 s n rest, word-consumes 8 s n rest)

byte-consumes : (s : Bytes) (n : ℕ) (rest : Bytes) → byte s ≡ ok (n, rest) → length rest < length s
unfolding byte
byte-consumes [] n rest h = cc
byte-consumes (b ∷ s) n rest h = ground arith

byte_round_trips : (b : ℕ) (rest : Bytes) → byte (b ∷ rest) ≡ ok (b, rest)
unfolding byte
byte_round_trips b rest = refl

compact_zero : compact 0 ≡ 0 ∷ []
unfolding compact
compact_zero = refl

pub wire-IsWire : IsWire wire
wire-IsWire = record {
  varint_round_trips = λ n h rest. compact-round_trips n rest h;
  varint_exact = λ n. refl;
  varint_zero = compact_zero;
  varint_consumes = compact-consumes;
  u8_round_trips = λ b h rest. byte_round_trips b rest;
  u8_byte = λ b. refl;
  u8_exact = λ b. refl;
  u8_consumes = byte-consumes;
  u32_round_trips = λ n h rest. word-to_le_bytes 4 n rest (omega arith);
  u32_length = λ n. length-to_le_bytes 4 n;
  u32_exact = λ n. refl;
}

pub wire-end : wire.u8.decode [] ≡ err io
unfolding byte
wire-end = refl
