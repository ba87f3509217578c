-- ===== src/Psbt/Coders/Pairs.antt =====
-- The framing of one key-value pair: `Encode for KeyPair` and `Decode for KeyValue` of
-- psbt/src/coders.rs, over the types of psbt/src/keys.rs. The two lengths are read unchecked: the
-- source panics in `vec![0u8; n]` on one from 2^63 on, where this model fails as `read_exact` does
-- (Psbt.Serial.Buffers has the panic).
pub mod RoundTrip
use bp_std.Prelude.{ℕ, ◌+◌, ◌-◌, Bytes, ◌==◌, if◌then◌else◌}
use bp_std.Psbt.Keys.KeyType.{KeyType}
use bp_std.Psbt.Coders.Reader.{Decoder, ◌>>=◌, pure, read_exact}
use bp_std.Psbt.Coders.Writer.{Encoded, Encoder, ◌▸◌}
use bp_std.Psbt.Coders.Wire.{Wire}

pub record KeyPair (K : Type 0) : Type 0 where
  pub key_type : K
  pub key_data : Bytes
  pub value_data : Bytes

pub data KeyValue (K : Type 0) : Type 0 where
  pair : KeyPair K → KeyValue K
  separator : KeyValue K

-- A pair that is to be written: its data are encoders that have run.
pub record PairToWrite (K : Type 0) : Type 0 where
  pub key_type : K
  pub key_data : Encoded
  pub value_data : Encoded

module _ {K : Type 0} ⦃t : KeyType K⦄ (w : Wire) where
  -- the two runs into `io::Sink` are the counts
  unfoldable pub encode_pair : Encoder (PairToWrite K)
  encode_pair p =
      w.varint.encode (p.key_data.count + 1)
      ▸ w.u8.encode (t.into_u8 p.key_type)
      ▸ p.key_data
      ▸ w.varint.encode p.value_data.count
      ▸ p.value_data

  unfoldable pub decode_body : ℕ → Decoder (KeyValue K)
  decode_body key_len = do
    byte ← w.u8.decode
    key_data ← read_exact (key_len - 1)
    value_len ← w.varint.decode
    value_data ← read_exact value_len
    pure (pair (record { key_type = t.from_u8 byte; key_data = key_data; value_data = value_data }))

  unfoldable pub decode_key_value : Decoder (KeyValue K)
  unfolding decode_body
  decode_key_value = do
    key_len ← w.varint.decode
    if key_len == 0 then pure separator else decode_body key_len
