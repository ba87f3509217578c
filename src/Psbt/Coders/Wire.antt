-- ===== src/Psbt/Coders/Wire.antt =====
-- The consensus codecs of the crate bp-core that psbt/src/coders.rs calls, as a parameter.
use bp_std.Prelude.{ℕ, ◌<◌, ◌^◌, Bytes, [], ◌∷◌, ◌++◌, length, ◌≡◌}
use bp_std.Prelude.Results.{ok}
use bp_std.Psbt.Coders.Reader.{Decoder}
use bp_std.Psbt.Coders.Writer.{Encoder, IsExact}

pub record Codec (A : Type 0) : Type 0 where
  pub encode : Encoder A
  pub decode : Decoder A

-- Decoding what was encoded gives the value back and leaves what follows it.
abbrev pub RoundTrips : {A : Type 0} → Codec A → A → Type 0
RoundTrips c a = (rest : Bytes) → c.decode ((c.encode a).written ++ rest) ≡ ok (a, rest)

-- `VarInt`, `u8` and `u32` with their consensus encodings, and `String::from_utf8_lossy`
pub record Wire : Type 0 where
  pub varint : Codec ℕ
  pub u8 : Codec ℕ
  pub u32 : Codec ℕ
  pub from_utf8_lossy : Bytes → Bytes

-- What is documented of them: a compact size integer of 1 to 9 bytes, of which zero is the byte
-- zero; one byte; four bytes.
pub record IsWire (w : Wire) : Type 0 where
  pub varint_round_trips : (n : ℕ) → n < 2 ^ 64 → RoundTrips w.varint n
  pub varint_exact : (n : ℕ) → IsExact (w.varint.encode n)
  pub varint_zero : (w.varint.encode 0).written ≡ 0 ∷ []
  pub varint_consumes :
      (s : Bytes) (n : ℕ) (rest : Bytes) → w.varint.decode s ≡ ok (n, rest) → length rest < length s
  pub u8_round_trips : (b : ℕ) → b < 256 → RoundTrips w.u8 b
  pub u8_byte : (b : ℕ) → (w.u8.encode b).written ≡ b ∷ []
  pub u8_exact : (b : ℕ) → IsExact (w.u8.encode b)
  pub u8_consumes :
      (s : Bytes) (n : ℕ) (rest : Bytes) → w.u8.decode s ≡ ok (n, rest) → length rest < length s
  pub u32_round_trips : (n : ℕ) → n < 2 ^ 32 → RoundTrips w.u32 n
  pub u32_length : (n : ℕ) → length (w.u32.encode n).written ≡ 4
  pub u32_exact : (n : ℕ) → IsExact (w.u32.encode n)
