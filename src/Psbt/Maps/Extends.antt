-- ===== src/Psbt/Maps/Extends.antt =====
-- The loop of `Map::parse` in psbt/src/maps.rs files each pair under a key that was free.
use bp_std.Prelude.{true, none, ◌≡◌, arith, Bool-cases, Option-cases, inl, inr}
use mathlib.Core.Path.{subst}
use bp_std.Prelude.Results.{ok, Result-cases}
use bp_std.Prelude.Eq.{nat_eq}
use bp_std.Prelude.BTreeMap
use bp_std.Psbt.Errors.{PropKey}
use bp_std.Psbt.Keys.KeyType.{KeyType, key_ord, is_standard}
use bp_std.Psbt.Keys.Laws.{IsLawful}
use bp_std.Psbt.Coders.Wire.{Wire}
use bp_std.Psbt.Coders.Pairs.{KeyPair}
use bp_std.Psbt.Coders.Values.{deserialize, decode_prop_key, prop_key_instance}
use bp_std.Psbt.Maps.{Map, add_proprietary, add_plural, add_singular, add_unknown, add_pair}
use bp_std.Psbt.Maps.Lookup.{
  FullKey, proprietary, plural, singular, unknown, full_key, find, Extends, with_singular,
  with_plural, with_unknown, with_proprietary, singular-found, plural-found, unknown-found,
  proprietary-found,
}

module _ {K : Type 0} ⦃t : KeyType K⦄ (lawful : IsLawful t) (w : Wire) (m m' : Map K)
    (p : KeyPair K) where
  add_singular-Extends :
      BTreeMap.get p.key_type m.singular ≡ none
      → add_singular m p ≡ ok m'
      → Extends m m' (singular p.key_type) p.value_data
  unfolding add_singular find
  add_singular-Extends free h =
      let e : with_singular m p.key_type p.value_data ≡ m' = ground arith in
      subst (λ x. Extends m x (singular p.key_type) p.value_data) e
        (record { free = free; found = singular-found lawful m p.key_type p.value_data })

  add_plural-Extends :
      add_plural m p ≡ ok m' → Extends m m' (plural p.key_type p.key_data) p.value_data
  unfolding add_plural find
  add_plural-Extends h =
      let e : with_plural m p.key_type p.key_data p.value_data ≡ m' = ground arith in
      subst (λ x. Extends m x (plural p.key_type p.key_data) p.value_data) e
        (record {
          free = ground arith;
          found = plural-found lawful m p.key_type p.key_data p.value_data;
        })

  add_unknown-Extends :
      add_unknown m p ≡ ok m'
      → Extends m m' (unknown (t.into_u8 p.key_type) p.key_data) p.value_data
  unfolding add_unknown find
  add_unknown-Extends h =
      let e : with_unknown m (t.into_u8 p.key_type) p.key_data p.value_data ≡ m' = ground arith in
      subst (λ x. Extends m x (unknown (t.into_u8 p.key_type) p.key_data) p.value_data) e
        (record {
          free = ground arith;
          found = unknown-found lawful m (t.into_u8 p.key_type) p.key_data p.value_data;
        })

  add_proprietary-Extends :
      {k : PropKey}
      → deserialize (decode_prop_key w) p.key_data ≡ ok k
      → add_proprietary w m p ≡ ok m'
      → Extends m m' (proprietary k) p.value_data
  unfolding add_proprietary find
  add_proprietary-Extends {k} d h =
      let e : with_proprietary m k p.value_data ≡ m' = ground (arith, d) in
      subst (λ x. Extends m x (proprietary k) p.value_data) e
        (record { free = ground (arith, d); found = proprietary-found lawful m k p.value_data })

  add_pair_proprietary :
      t.is_proprietary p.key_type ≡ true
      → add_proprietary w m p ≡ ok m'
      → (k : FullKey K) × (full_key w p ≡ ok k) × Extends m m' k p.value_data
  add_pair_proprietary is_prop h =
      elim (Result-cases (deserialize (decode_prop_key w) p.key_data)) [
        | inl (k, d) ↦ (proprietary k, rw (is_prop, d), add_proprietary-Extends d h)
        | inr (x, d) ↦ absurd (unfold add_proprietary in ground (arith, d))
      ]

  -- A pair that is added had a full key, the map held no value under it, and now holds the pair's
  -- value there and what it held before everywhere else.
  pub add_pair-Extends :
      add_pair w m p ≡ ok m' → (k : FullKey K) × (full_key w p ≡ ok k) × Extends m m' k p.value_data
  unfolding add_pair
  add_pair-Extends h = elim (Option-cases (BTreeMap.get ⦃o = key_ord⦄ p.key_type m.singular)) [
    | inr (v, taken) ↦ ground (arith, taken)
    | inl free ↦ elim (Bool-cases (t.is_proprietary p.key_type)) [
      | inl is_prop ↦ add_pair_proprietary is_prop (ground (arith, free, is_prop))
      | inr plain ↦ elim (Bool-cases (is_standard p.key_type)) [
        | inr other ↦ (
          unknown (t.into_u8 p.key_type) p.key_data,
          rw (plain, other),
          add_unknown-Extends (ground (arith, free, plain, other)),
        )
        | inl known ↦ elim (Bool-cases (t.has_key_data p.key_type)) [
          | inl many ↦ (
            plural p.key_type p.key_data,
            rw (plain, known, many),
            add_plural-Extends (ground (arith, free, plain, known, many)),
          )
          | inr one ↦ (
            singular p.key_type,
            rw (plain, known, one),
            add_singular-Extends free (ground (arith, free, plain, known, one)),
          )
        ]
      ]
    ]
  ]
