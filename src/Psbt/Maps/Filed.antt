-- ===== src/Psbt/Maps/Filed.antt =====
-- `Map::parse` of psbt/src/maps.rs files standard keys only among the singular and plural ones,
-- each where its table says.
use bp_std.Prelude.{
  ℕ, zero, suc, Bytes, All, Bool, true, false, ◌≡◌, arith, Bool-cases, inl, inr, length,
}
use mathlib.Core.Path.{subst}
use bp_std.Prelude.Results.{ok, Result-cases}
use bp_std.Prelude.BTreeMap
use bp_std.Prelude.BTreeMap.{BTreeMap, All-insert}
use bp_std.Psbt.Maps.Lookup.{with_singular, with_plural, with_unknown, with_proprietary}
use bp_std.Psbt.Errors.{MapName}
use bp_std.Psbt.Keys.KeyType.{KeyType, is_standard, key_ord}
use bp_std.Psbt.Coders.Wire.{Wire}
use bp_std.Psbt.Coders.Pairs.{KeyPair, pair, separator, decode_key_value}
use bp_std.Psbt.Coders.Values.{deserialize, decode_prop_key}
use bp_std.Psbt.Maps.{
  Map, new, add_proprietary, add_plural, add_singular, add_unknown, add_pair, parse_loop, parse,
}

module _ {K : Type 0} ⦃t : KeyType K⦄ where
  abbrev pub IsFiledAs : Bool → K → Type 0
  IsFiledAs many k = (is_standard k ≡ true) × (t.has_key_data k ≡ many)

  pub record IsFiled (m : Map K) : Type 0 where
    pub singular_filed : All (λ e. IsFiledAs false e.0) m.singular
    pub plural_filed : All (λ e. IsFiledAs true e.0) m.plural

  module _ (w : Wire) (m m' : Map K) (p : KeyPair K) (h : IsFiled m) where
    add_plural-IsFiled : IsFiledAs true p.key_type → add_plural m p ≡ ok m' → IsFiled m'
    unfolding add_plural
    add_plural-IsFiled k e =
        let same : with_plural m p.key_type p.key_data p.value_data ≡ m' = ground arith in
        subst IsFiled same (record {
          singular_filed = h.singular_filed;
          plural_filed = All-insert (IsFiledAs true) p.key_type _ m.plural k h.plural_filed;
        })

    add_singular-IsFiled : IsFiledAs false p.key_type → add_singular m p ≡ ok m' → IsFiled m'
    unfolding add_singular
    add_singular-IsFiled k e =
        let same : with_singular m p.key_type p.value_data ≡ m' = ground arith in
        subst IsFiled same (record {
          singular_filed = All-insert (IsFiledAs false) p.key_type _ m.singular k h.singular_filed;
          plural_filed = h.plural_filed;
        })

    add_unknown-IsFiled : add_unknown m p ≡ ok m' → IsFiled m'
    unfolding add_unknown
    add_unknown-IsFiled e =
        let same : with_unknown m (t.into_u8 p.key_type) p.key_data p.value_data ≡ m' =
          ground arith in
        subst IsFiled same
          (record { singular_filed = h.singular_filed; plural_filed = h.plural_filed })

    add_proprietary-IsFiled : add_proprietary w m p ≡ ok m' → IsFiled m'
    unfolding add_proprietary
    add_proprietary-IsFiled e = elim (Result-cases (deserialize (decode_prop_key w) p.key_data)) [
      | inr (x, d) ↦ absurd (ground (arith, d))
      | inl (k, d) ↦
          let same : with_proprietary m k p.value_data ≡ m' = ground (arith, d) in
          subst IsFiled same
            (record { singular_filed = h.singular_filed; plural_filed = h.plural_filed })
    ]

    add_pair-IsFiled : add_pair w m p ≡ ok m' → IsFiled m'
    unfolding add_pair
    add_pair-IsFiled e = elim (Bool-cases (BTreeMap.contains_key p.key_type m.singular)) [
      | inl taken ↦ absurd (ground (arith, taken))
      | inr free ↦ elim (Bool-cases (t.is_proprietary p.key_type)) [
        | inl is_prop ↦ add_proprietary-IsFiled (ground (arith, free, is_prop))
        | inr plain ↦ elim (Bool-cases (is_standard p.key_type)) [
          | inr other ↦ add_unknown-IsFiled (ground (arith, free, plain, other))
          | inl known ↦ elim (Bool-cases (t.has_key_data p.key_type)) [
            | inl many ↦ add_plural-IsFiled (known, many) (ground (arith, free, plain, known, many))
            | inr one ↦ add_singular-IsFiled (known, one) (ground (arith, free, plain, known, one))
          ]
        ]
      ]
    ]

  parse_loop-IsFiled :
      (w : Wire) (fuel : ℕ) (m m' : Map K) (stream rest : Bytes)
      → IsFiled m
      → parse_loop w fuel m stream ≡ ok (m', rest)
      → IsFiled m'
  unfolding parse_loop
  parse_loop-IsFiled w zero m m' stream rest h e = cc
  parse_loop-IsFiled w (suc fuel) m m' stream rest h e =
      elim (Result-cases (decode_key_value {K = K} w stream)) [
        | inr (x, d) ↦ absurd (ground (arith, d))
        | inl ((separator, r), d) ↦ let same : m ≡ m' = ground (arith, d) in subst IsFiled same h
        | inl ((pair p, r), d) ↦ elim (Result-cases (add_pair w m p)) [
          | inr (x, a) ↦ absurd (ground (arith, d, a))
          | inl (m1, a) ↦
              parse_loop-IsFiled w fuel m1 m' r rest (add_pair-IsFiled w m m1 p h a)
                (ground (arith, d, a))
        ]
      ]

  -- In a map that was read, each singular key is a standard one without key data, and each plural
  -- key a standard one with key data.
  pub parse-IsFiled :
      (w : Wire) (name : MapName) (stream rest : Bytes) (m : Map K)
      → parse w name stream ≡ ok (m, rest)
      → IsFiled m
  unfolding parse
  parse-IsFiled w name stream rest m e =
      parse_loop-IsFiled w (suc (length stream)) (new name) m stream rest
        (record { singular_filed = tt; plural_filed = tt }) e
