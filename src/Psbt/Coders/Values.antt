-- ===== src/Psbt/Coders/Values.antt =====
-- Whole values in psbt/src/coders.rs: `Decode::deserialize`, and the codecs of the types that this
-- crate defines itself.
use bp_std.Prelude.{◌+◌, Bytes, [], ◌∷◌, ◌++◌, length, ◌≡◌, ◌↔◌, Bool, true, ◌&&◌, ◌==◌, arith}
use bp_std.Prelude.Eq.{Eq, bytes_eq, bytes_eq_iff}
use bp_std.Prelude.Results.{Result, ok, err, map_err}
use bp_std.Psbt.Ver.{PsbtVer, try_from_standard_u32, to_standard_u32}
use bp_std.Psbt.Errors.{
  PropKey, PsbtError, data_not_consumed, unsupported_version, from_decode_error,
}
use bp_std.Psbt.Coders.Reader.{Decoder, ◌>>=◌, pure, from_result, read_exact, read_to_end}
use bp_std.Psbt.Coders.Writer.{Encoder}
use bp_std.Psbt.Coders.Wire.{Wire}

all_consumed : {A : Type 0} → A → Bytes → Result PsbtError A
all_consumed a [] = ok a
all_consumed a (b ∷ rest) = err data_not_consumed

-- `Decode::deserialize`
unfoldable pub deserialize : {A : Type 0} → Decoder A → Bytes → Result PsbtError A
unfolding all_consumed
deserialize decode bytes = elim (decode bytes) [
  | ok (a, rest) ↦ all_consumed a rest
  | err e ↦ err (from_decode_error e)
]

unfoldable pub prop_key_eq : PropKey → PropKey → Bool
prop_key_eq a b =
    bytes_eq a.identifier b.identifier && a.subtype == b.subtype && bytes_eq a.key_data b.key_data

pub prop_key_eq_iff : (a b : PropKey) → (prop_key_eq a b ≡ true) ↔ (a ≡ b)
unfolding prop_key_eq
prop_key_eq_iff a b = (
  λ h. ground (arith, bytes_eq_iff a.identifier b.identifier, bytes_eq_iff a.key_data b.key_data),
  λ h. ground (arith, bytes_eq_iff a.identifier b.identifier, bytes_eq_iff a.key_data b.key_data),
)

instance abbrev pub prop_key_instance : Eq PropKey
prop_key_instance = record { same = prop_key_eq; same_iff = prop_key_eq_iff }

module _ (w : Wire) where
  -- `Encode for PropKey`: the count begins with the length of the identifier
  unfoldable pub encode_prop_key : Encoder PropKey
  encode_prop_key p =
      let len = w.varint.encode (length p.identifier) in
      let subtype = w.varint.encode p.subtype in
      record {
        written = len.written ++ p.identifier ++ subtype.written ++ p.key_data;
        count = length p.identifier + len.count + subtype.count + length p.key_data;
      }

  -- `Decode for PropKey`; the length of the identifier is read unchecked, as those of a pair are
  unfoldable pub decode_prop_key : Decoder PropKey
  decode_prop_key = do
    len ← w.varint.decode
    identifier ← read_exact len
    subtype ← w.varint.decode
    rest ← read_to_end
    pure (record { identifier = w.from_utf8_lossy identifier; subtype = subtype; key_data = rest })

  -- `Encode for PsbtVer`
  unfoldable pub encode_ver : Encoder PsbtVer
  encode_ver v = w.u32.encode (to_standard_u32 v)

  -- `Decode for PsbtVer`
  unfoldable pub decode_ver : Decoder PsbtVer
  decode_ver = do
    ver ← w.u32.decode
    from_result (map_err unsupported_version (try_from_standard_u32 ver))
