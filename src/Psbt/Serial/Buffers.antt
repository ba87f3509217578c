-- ===== src/Psbt/Serial/Buffers.antt =====
-- `KeyValue::decode` and `PropKey::decode` of psbt/src/coders.rs, and the loop of `Map::parse` of
-- psbt/src/maps.rs over them, with the panic of `vec![0u8; n]` on a machine of 64 bits.
pub mod Same
pub mod Reads
use bp_std.Prelude.{
  ℕ, zero, suc, ◌-◌, ◌^◌, Bytes, length, ltb, ◌==◌, Bool, true, not, ◌&&◌, if◌then◌else◌,
}
use bp_std.Prelude.Results.{ok, err}
use bp_std.Prelude.BTreeMap
use bp_std.Psbt.Errors.{MapName, io}
use bp_std.Psbt.Keys.KeyType.{KeyType, key_ord}
use bp_std.Psbt.Coders.Reader.{read_exact}
use bp_std.Psbt.Coders.Wire.{Wire}
use bp_std.Psbt.Coders.Pairs.{KeyPair, KeyValue, pair, separator}
use bp_std.Psbt.KeyMap.{panicked, refused}
use bp_std.Psbt.Maps.{Map, new, add_pair}
use bp_std.Psbt.Serial.{Parser, ◌>>=◌, pure, reading, checked}

-- what a buffer has to be shorter than, `isize::MAX` and one
abbrev pub capacity : ℕ
capacity = 2 ^ 63

-- `let mut buffer = vec![0u8; n]; reader.read_exact(&mut buffer)?`
pub read_buffer : ℕ → Parser Bytes
read_buffer n s = if ltb n capacity then reading (read_exact n) s else err panicked

-- whether the buffer of `Decode for PropKey`, that of the identifier, can be made
identifier_fits : Wire → Bytes → Bool
identifier_fits w key_data = elim (w.varint.decode key_data) [
  | err e ↦ true
  | ok (len, rest) ↦ ltb len capacity
]

module _ {K : Type 0} ⦃t : KeyType K⦄ (w : Wire) where
  read_body : ℕ → Parser (KeyValue K)
  read_body key_len = do
    byte ← reading w.u8.decode
    key_data ← read_buffer (key_len - 1)
    value_len ← reading w.varint.decode
    value_data ← read_buffer value_len
    pure (pair (record { key_type = t.from_u8 byte; key_data = key_data; value_data = value_data }))

  -- `Decode for KeyValue`
  read_key_value : Parser (KeyValue K)
  unfolding read_body
  read_key_value = do
    key_len ← reading w.varint.decode
    if key_len == 0 then pure separator else read_body key_len

  -- whether the loop of `Map::parse` comes to read a proprietary key that has no buffer
  abbrev makes_panic : Map K → KeyPair K → Bool
  makes_panic map p =
      not (BTreeMap.contains_key p.key_type map.singular)
      && (t.is_proprietary p.key_type && not (identifier_fits w p.key_data))

  -- the body of the loop of `Map::parse`
  add_read : Map K → KeyPair K → Parser (Map K)
  add_read map p s = if makes_panic map p then err panicked else checked (add_pair w map p) s

  -- `Map::parse`, with the fuel of `Psbt.Maps.parse`
  read_loop : ℕ → Map K → Parser (Map K)
  read_loop zero map s = err (refused io)
  read_loop (suc fuel) map s = elim (read_key_value s) [
    | err e ↦ err e
    | ok (separator, rest) ↦ ok (map, rest)
    | ok (pair p, rest) ↦ elim (add_read map p rest) [
      | err e ↦ err e
      | ok (map', rest') ↦ read_loop fuel map' rest'
    ]
  ]

  pub read_map : MapName → Parser (Map K)
  unfolding read_loop
  read_map name s = read_loop (suc (length s)) (new name) s
