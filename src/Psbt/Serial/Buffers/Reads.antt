-- ===== src/Psbt/Serial/Buffers/Reads.antt =====
-- `Map::parse` of psbt/src/maps.rs with the panic of its buffers, beside the reading in Psbt.Maps
-- that does without it.
use bp_std.Prelude.{
  ℕ, zero, suc, ◌-◌, ◌<◌, ◌≤◌, ◌^◌, Bytes, ◌∷◌, ◌++◌, length, ltb, ◌==◌, true, false, ◌≡◌, ◌↔◌,
  refl, arith, Bool-cases, inl, inr,
}
use bp_std.Prelude.Results.{ok, err, Result-cases}
use bp_std.Prelude.BTreeMap
use bp_std.Psbt.Errors.{MapName, PropKey}
use bp_std.Psbt.Keys.KeyType.{KeyType, key_ord}
use bp_std.Psbt.Coders.Reader.{read_exact, bind-eq-ok}
use bp_std.Psbt.Coders.Wire.{Wire, IsWire}
use bp_std.Psbt.Coders.Pairs.{KeyPair, pair, separator, decode_body, decode_key_value}
use bp_std.Psbt.Coders.Pairs.RoundTrip.{decode_key_value-consumes}
use bp_std.Psbt.Coders.Values.{deserialize, decode_prop_key}
use bp_std.Psbt.KeyMap.{panicked}
use bp_std.Psbt.Maps.{Map, new, add_pair, add_proprietary, parse_loop, parse}
use bp_std.Psbt.Serial.{◌>>=◌, reading}
use bp_std.Psbt.Serial.Buffers.{
  capacity, read_buffer, read_body, read_key_value, identifier_fits, makes_panic, add_read,
  read_loop, read_map,
}
use bp_std.Psbt.Serial.Buffers.Same.{
  Same, reading-Same, read_exact-bounds, read_buffer-Same, bind-Same,
}

identifier_fits-read :
    {w : Wire} (lawful : IsWire w) (bytes rest : Bytes) (k : PropKey)
    → length bytes < capacity
    → decode_prop_key w bytes ≡ ok (k, rest)
    → identifier_fits w bytes ≡ true
unfolding decode_prop_key identifier_fits
identifier_fits-read {w} lawful bytes rest k short h =
    let (len, s1, h1, k1) = bind-eq-ok w.varint.decode _ h in
    let (identifier, s2, h2, k2) = bind-eq-ok (read_exact len) _ k1 in
    let c1 = lawful.varint_consumes bytes len s1 h1 in
    let c2 = read_exact-bounds len s1 identifier s2 h2 in
    rw (identifier_fits, h1) (ground (arith, c1, c2, short))

module _ {K : Type 0} ⦃t : KeyType K⦄ {w : Wire} (lawful : IsWire w) where
  read_body-Same :
      (n : ℕ) (s : Bytes) → length s < capacity → Same (read_body {K = K} w n s) (decode_body w n s)
  unfolding read_body decode_body
  read_body-Same n s short =
      bind-Same (reading w.u8.decode) _ w.u8.decode _ s (reading-Same w.u8.decode s) (λ byte s1 h1.
        let c1 = lawful.u8_consumes s byte s1 h1 in
        bind-Same (read_buffer (n - 1)) _ (read_exact (n - 1)) _ s1
          (read_buffer-Same (n - 1) s1 (omega (arith, c1, short)))
          (λ key_data s2 h2.
            let c2 = read_exact-bounds (n - 1) s1 key_data s2 h2 in
            bind-Same (reading w.varint.decode) _ w.varint.decode _ s2
              (reading-Same w.varint.decode s2)
              (λ value_len s3 h3.
                let c3 = lawful.varint_consumes s2 value_len s3 h3 in
                bind-Same (read_buffer value_len) _ (read_exact value_len) _ s3
                  (read_buffer-Same value_len s3 (omega (arith, c1, c2, c3, short)))
                  (λ value_data s4 h4 r. (λ h. cc, λ h. cc)))))

  read_key_value-Same :
      (s : Bytes) → length s < capacity → Same (read_key_value {K = K} w s) (decode_key_value w s)
  unfolding read_key_value decode_key_value
  read_key_value-Same s short =
      bind-Same (reading w.varint.decode) _ w.varint.decode _ s (reading-Same w.varint.decode s)
        (λ key_len s1 h1.
          let c1 = lawful.varint_consumes s key_len s1 h1 in
          elim (Bool-cases (key_len == 0)) [
            | inl e ↦ rw e (λ r. (λ h. cc, λ h. cc))
            | inr e ↦ rw e (read_body-Same key_len s1 (omega (arith, c1, short)))
          ])

  -- A key is not longer than the stream that it was read from.
  decode_key_value-key :
      (s : Bytes) (p : KeyPair K) (rest : Bytes)
      → decode_key_value w s ≡ ok (pair p, rest)
      → length p.key_data ≤ length s
  unfolding decode_key_value decode_body
  decode_key_value-key s p rest h =
      let (key_len, s1, h1, k1) = bind-eq-ok w.varint.decode _ h in
      elim (Bool-cases (key_len == 0)) [
        | inl e ↦ ground (arith, (rw e at k1))
        | inr e ↦
            let (byte, s2, h2, k2) = bind-eq-ok w.u8.decode _ (rw e at k1) in
            let (key_data, s3, h3, k3) = bind-eq-ok (read_exact (key_len - 1)) _ k2 in
            let (value_len, s4, h4, k4) = bind-eq-ok w.varint.decode _ k3 in
            let (value_data, s5, h5, k5) = bind-eq-ok (read_exact value_len) _ k4 in
            ground (
              arith,
              lawful.varint_consumes s key_len s1 h1,
              lawful.u8_consumes s1 byte s2 h2,
              read_exact-bounds (key_len - 1) s2 key_data s3 h3,
              k5,
            )
      ]

  -- A pair that is added has an identifier, if any, that fits.
  add_pair-fits :
      (m m' : Map K) (p : KeyPair K)
      → length p.key_data < capacity
      → add_pair w m p ≡ ok m'
      → makes_panic w m p ≡ false
  unfolding add_pair add_proprietary deserialize
  add_pair-fits m m' p short h = elim (Bool-cases (BTreeMap.contains_key p.key_type m.singular)) [
    | inl taken ↦ absurd (ground (arith, h, taken))
    | inr free ↦ elim (Bool-cases (t.is_proprietary p.key_type)) [
      | inr plain ↦ ground (arith, free, plain)
      | inl is_prop ↦ elim (Result-cases (decode_prop_key w p.key_data)) [
        | inl ((k, rest), e) ↦
            ground (arith, free, is_prop, identifier_fits-read lawful p.key_data rest k short e)
        | inr (x, e) ↦ absurd (ground (arith, h, free, is_prop, e))
      ]
    ]
  ]

  read_loop-Same :
      (fuel : ℕ) (m : Map K) (s : Bytes)
      → length s < capacity
      → Same (read_loop w fuel m s) (parse_loop w fuel m s)
  unfolding read_loop parse_loop add_read
  read_loop-Same zero m s short r = (λ h. cc, λ h. cc)
  read_loop-Same (suc fuel) m s short r = elim (Result-cases (decode_key_value {K = K} w s)) [
    | inl ((separator, rest), e) ↦
        let read = (read_key_value-Same s short (separator, rest)).1 e in
        rw (read_loop, parse_loop, e, read) (λ h. cc, λ h. cc)
    | inl ((pair p, rest), e) ↦
        let read = (read_key_value-Same s short (pair p, rest)).1 e in
        let small = decode_key_value-key s p rest e in
        let c = decode_key_value-consumes lawful s (pair p) rest e in
        elim (Result-cases (add_pair w m p)) [
          | inl (m', e') ↦
              let fits = add_pair-fits m m' p (omega (arith, small, short)) e' in
              rw (read_loop, parse_loop, e, read, add_read, fits, e')
                (read_loop-Same fuel m' rest (omega (arith, c, short)) r)
          | inr (x, e') ↦ elim (Bool-cases (makes_panic w m p)) [
            | inl over ↦ rw (read_loop, parse_loop, e, read, add_read, over, e') (λ h. cc, λ h. cc)
            | inr fits ↦ rw (read_loop, parse_loop, e, read, add_read, fits, e') (λ h. cc, λ h. cc)
          ]
        ]
    | inr (x, e) ↦ elim (Result-cases (read_key_value {K = K} w s)) [
      | inl (a, e') ↦ cc ((read_key_value-Same s short a).0 e', e)
      | inr (y, e') ↦ rw (read_loop, parse_loop, e, e') (λ h. cc, λ h. cc)
    ]
  ]

  read_body-panics :
      (n byte : ℕ) (more : Bytes)
      → capacity ≤ n
      → byte < 256
      → read_body {K = K} w (suc n) (byte ∷ more) ≡ err panicked
  unfolding read_body read_buffer
  read_body-panics n byte more long small =
      let second : w.u8.decode (byte ∷ more) ≡ ok (byte, more) =
        (rw lawful.u8_byte at (lawful.u8_round_trips byte small more)) in
      let over : ltb (suc n - 1) capacity ≡ false = ground (arith, long) in
      rw (read_body, ◌>>=◌, second, over) refl

  read_key_value-panics :
      (n byte : ℕ) (more : Bytes)
      → capacity ≤ n
      → suc n < 2 ^ 64
      → byte < 256
      → read_key_value {K = K} w ((w.varint.encode (suc n)).written ++ (byte ∷ more)) ≡ err panicked
  unfolding read_key_value
  read_key_value-panics n byte more long fits small =
      let first = lawful.varint_round_trips (suc n) fits (byte ∷ more) in
      let some_key : (suc n == 0) ≡ false = ground arith in
      rw (◌>>=◌, first, some_key) (read_body-panics n byte more long small)

  -- On a stream of fewer than 2^63 bytes, the reading of a map with the panic of its buffers gives
  -- a map and a rest exactly where the reading without it gives them; and the reading panics on
  -- every stream that begins with the length of a pair with 2^63 bytes of key data or more, and
  -- the byte of a key.
  pub read_map-parse_iff :
      (name : MapName) (s rest more : Bytes) (m : Map K) (n byte : ℕ)
      → length s < capacity
      → capacity ≤ n
      → suc n < 2 ^ 64
      → byte < 256
      → ((read_map w name s ≡ ok (m, rest)) ↔ (parse w name s ≡ ok (m, rest)))
        × (read_map {K = K} w name ((w.varint.encode (suc n)).written ++ (byte ∷ more))
            ≡ err panicked)
  unfolding read_map parse read_loop
  read_map-parse_iff name s rest more m n byte short long fits small = (
    read_loop-Same (suc (length s)) (new name) s short (m, rest),
    rw (read_map, read_loop, read_key_value-panics n byte more long fits small) refl,
  )
