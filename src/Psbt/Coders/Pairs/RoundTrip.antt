-- ===== src/Psbt/Coders/Pairs/RoundTrip.antt =====
-- A pair that is written is read back, and leaves what follows it.
use bp_std.Prelude.{
  ℕ, ◌+◌, ◌-◌, ◌<◌, ◌^◌, Bytes, ◌∷◌, ◌++◌, length, length-append, append_assoc, ◌==◌, ◌≡◌, false,
  Bool-cases, inl, inr, ◌∙◌, arith,
}
use bp_std.Prelude.Results.{ok}
use bp_std.Psbt.Keys.KeyType.{KeyType}
use bp_std.Psbt.Coders.Reader.{read_exact, read_exact-append, read_exact-parts, bind-ok, bind-eq-ok}
use bp_std.Psbt.Coders.Writer.{Encoded, IsExact, ▸-IsExact}
use bp_std.Psbt.Coders.Wire.{Wire, IsWire}
use bp_std.Psbt.Coders.Pairs.{
  KeyPair, KeyValue, pair, separator, PairToWrite, encode_pair, decode_body, decode_key_value,
}

read_exact_counted :
    (e : Encoded) (rest : Bytes)
    → IsExact e
    → read_exact e.count (e.written ++ rest) ≡ ok (e.written, rest)
read_exact_counted e rest h = rw h (read_exact-append e.written rest)

succ-ne-zero : (n : ℕ) → (n + 1 == 0) ≡ false
succ-ne-zero n = ground arith

add-sub : (n : ℕ) → n + 1 - 1 ≡ n
add-sub n = omega arith

module _ {K : Type 0} ⦃t : KeyType K⦄ where
  -- What makes a pair fit the format.
  pub record Fits (p : PairToWrite K) : Type 0 where
    pub key_exact : IsExact p.key_data
    pub value_exact : IsExact p.value_data
    pub key_short : p.key_data.count + 1 < 2 ^ 64
    pub value_short : p.value_data.count < 2 ^ 64
    pub key_byte : t.into_u8 p.key_type < 256

  abbrev pub pair_read : PairToWrite K → KeyPair K
  pair_read p = record {
    key_type = t.from_u8 (t.into_u8 p.key_type);
    key_data = p.key_data.written;
    value_data = p.value_data.written;
  }

module _ {K : Type 0} ⦃t : KeyType K⦄ {w : Wire} (lawful : IsWire w) where
  pub encode_pair-IsExact : (p : PairToWrite K) → Fits p → IsExact (encode_pair w p)
  unfolding encode_pair
  encode_pair-IsExact p f = ▸-IsExact _ _ (lawful.varint_exact _) (
      ▸-IsExact _ _ (lawful.u8_exact _)
        (▸-IsExact _ _ f.key_exact (▸-IsExact _ _ (lawful.varint_exact _) f.value_exact)))

  decode_body_lem :
      (p : PairToWrite K) (rest : Bytes)
      → Fits p
      → decode_body w (p.key_data.count + 1) (
          (w.u8.encode (t.into_u8 p.key_type)).written
          ++ (p.key_data.written
              ++ ((w.varint.encode p.value_data.count).written ++ (p.value_data.written ++ rest))))
        ≡ ok (pair (pair_read p), rest)
  unfolding decode_body
  decode_body_lem p rest f =
      bind-ok w.u8.decode _ (lawful.u8_round_trips _ f.key_byte _)
      ∙ bind-ok (read_exact (p.key_data.count + 1 - 1)) _
          (rw (add-sub p.key_data.count) (read_exact_counted p.key_data _ f.key_exact))
      ∙ bind-ok w.varint.decode _ (lawful.varint_round_trips _ f.value_short _)
      ∙ bind-ok (read_exact p.value_data.count) _
          (read_exact_counted p.value_data rest f.value_exact)

  pub decode-encode_pair :
      (p : PairToWrite K) (rest : Bytes)
      → Fits p
      → decode_key_value w ((encode_pair w p).written ++ rest) ≡ ok (pair (pair_read p), rest)
  unfolding decode_key_value encode_pair
  decode-encode_pair p rest f =
      rw (append_assoc, append_assoc, append_assoc, append_assoc)
        (bind-ok w.varint.decode _ (lawful.varint_round_trips _ f.key_short _)
          ∙ rw (succ-ne-zero p.key_data.count) (decode_body_lem p rest f))

  pub decode-separator :
      (rest : Bytes) → decode_key_value ⦃t = t⦄ w (0 ∷ rest) ≡ ok (separator, rest)
  unfolding decode_key_value
  decode-separator rest =
      bind-ok w.varint.decode _
        (rw lawful.varint_zero at (lawful.varint_round_trips 0 (omega arith) rest))

  decode_body-consumes :
      (n : ℕ) (s : Bytes) (kv : KeyValue K) (rest : Bytes)
      → decode_body w n s ≡ ok (kv, rest)
      → length rest < length s
  unfolding decode_body
  decode_body-consumes n s kv rest h =
      let (byte, s1, h1, k1) = bind-eq-ok w.u8.decode _ h in
      let (key_data, s2, h2, k2) = bind-eq-ok (read_exact (n - 1)) _ k1 in
      let (value_len, s3, h3, k3) = bind-eq-ok w.varint.decode _ k2 in
      let (value_data, s4, h4, k4) = bind-eq-ok (read_exact value_len) _ k3 in
      ground (
        arith,
        lawful.u8_consumes s byte s1 h1,
        read_exact-parts (n - 1) s1 key_data s2 h2,
        lawful.varint_consumes s2 value_len s3 h3,
        read_exact-parts value_len s3 value_data s4 h4,
        length-append key_data s2,
        length-append value_data s4,
        k4,
      )

  -- Reading a pair or a separator takes at least one byte.
  pub decode_key_value-consumes :
      (s : Bytes) (kv : KeyValue K) (rest : Bytes)
      → decode_key_value w s ≡ ok (kv, rest)
      → length rest < length s
  unfolding decode_key_value
  decode_key_value-consumes s kv rest h =
      let (key_len, s1, h1, k1) = bind-eq-ok w.varint.decode _ h in
      let c1 = lawful.varint_consumes s key_len s1 h1 in
      elim (Bool-cases (key_len == 0)) [
        | inl e ↦ ground (arith, c1, (rw e at k1))
        | inr e ↦ omega (arith, c1, decode_body-consumes key_len s1 kv rest (rw e at k1))
      ]
