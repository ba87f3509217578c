-- ===== src/Psbt/Maps/Lookup.antt =====
-- A map of psbt/src/maps.rs as a finite function from full keys to values.
use bp_std.Prelude.{
  ℕ, Bytes, Bool, false, ◌&&◌, ◌==◌, if◌then◌else◌, Option, none, some, ◌≡◌, refl, arith,
}
use bp_std.Prelude.Results.{Result, ok, ◌>>=◌}
use bp_std.Prelude.Eq.{nat_eq, bytes_instance, bytes_eq, bytes_eq_iff}
use bp_std.Prelude.IndexMap
use bp_std.Prelude.BTreeMap
use bp_std.Prelude.BTreeMap.{bytes_ord, is_eq, cmp_bytes}
use bp_std.Prelude.BTreeMap.Laws
use bp_std.Prelude.BTreeMap.Laws.{IsOrd, bytes-IsOrd}
use bp_std.Psbt.Errors.{PropKey, PsbtError}
use bp_std.Psbt.Keys.KeyType.{KeyType, key_ord, key_eq, is_standard}
use bp_std.Psbt.Keys.Laws.{IsLawful}
use bp_std.Psbt.Coders.Wire.{Wire}
use bp_std.Psbt.Coders.Pairs.{KeyPair}
use bp_std.Psbt.Coders.Values.{deserialize, decode_prop_key, prop_key_eq, prop_key_instance}
use bp_std.Psbt.Maps.{Map, or_default}

-- A key of a map in full.
pub data FullKey (K : Type 0) : Type 0 where
  proprietary : PropKey → FullKey K
  plural : K → Bytes → FullKey K
  singular : K → FullKey K
  unknown : ℕ → Bytes → FullKey K

module _ {K : Type 0} ⦃t : KeyType K⦄ where
  -- the key that a pair is filed under
  abbrev pub full_key : Wire → KeyPair K → Result PsbtError (FullKey K)
  full_key w p =
      if t.is_proprietary p.key_type
      then (do k ← deserialize (decode_prop_key w) p.key_data; ok (proprietary k))
      else if is_standard p.key_type
      then (if t.has_key_data p.key_type
          then ok (plural p.key_type p.key_data)
          else ok (singular p.key_type))
      else ok (unknown (t.into_u8 p.key_type) p.key_data)

  abbrev pub full_key_eq : FullKey K → FullKey K → Bool
  full_key_eq (proprietary a) (proprietary b) = prop_key_eq a b
  full_key_eq (plural a d) (plural b e) = key_eq a b && bytes_eq d e
  full_key_eq (singular a) (singular b) = key_eq a b
  full_key_eq (unknown a d) (unknown b e) = a == b && bytes_eq d e
  full_key_eq _ _ = false

  unfoldable pub find : FullKey K → Map K → Option Bytes
  find (proprietary k) m = IndexMap.get k m.proprietary
  find (plural k d) m = BTreeMap.get d (or_default (BTreeMap.get k m.plural))
  find (singular k) m = BTreeMap.get k m.singular
  find (unknown k d) m = IndexMap.get d (or_default (IndexMap.get k m.unknown))

  -- `m'` is `m` with one more entry, under a key that was free
  pub record Extends (m m' : Map K) (k : FullKey K) (v : Bytes) : Type 0 where
    pub free : find k m ≡ none
    pub found : (j : FullKey K) → find j m' ≡ (if full_key_eq k j then some v else find j m)

  -- the maps that the four branches of the loop leave behind
  abbrev pub with_singular : Map K → K → Bytes → Map K
  with_singular m k v = record m { singular = BTreeMap.insert k v m.singular }

  abbrev pub with_plural : Map K → K → Bytes → Bytes → Map K
  with_plural m k d v = record m {
    plural =
        BTreeMap.insert k (BTreeMap.insert d v (or_default (BTreeMap.get k m.plural))) m.plural;
  }

  abbrev pub with_unknown : Map K → ℕ → Bytes → Bytes → Map K
  with_unknown m k d v = record m {
    unknown =
        IndexMap.insert k (IndexMap.insert d v (or_default (IndexMap.get k m.unknown))) m.unknown;
  }

  abbrev pub with_proprietary : Map K → PropKey → Bytes → Map K
  with_proprietary m k v = record m { proprietary = IndexMap.insert k v m.proprietary }

module _ {K : Type 0} ⦃t : KeyType K⦄ (lawful : IsLawful t) where
  key-IsOrd : IsOrd (key_ord ⦃t = t⦄)
  key-IsOrd = record {
    cmp_eq = λ a b. (λ h. lawful.order_injective a b (ground arith), λ h. ground arith);
  }

  -- how the tests of the two kinds of maps agree
  key-swap : (k i : K) → is_eq ((key_ord ⦃t = t⦄).cmp i k) ≡ key_eq k i
  key-swap k i = ground arith

  bytes-swap : (d e : Bytes) → is_eq (cmp_bytes e d) ≡ bytes_eq d e
  bytes-swap d e = ground (arith, bytes_eq_iff d e, bytes-IsOrd.cmp_eq e d)

  pub singular-found :
      (m : Map K) (k : K) (v : Bytes) (j : FullKey K)
      → find j (with_singular m k v) ≡ (if full_key_eq (singular k) j then some v else find j m)
  unfolding find
  singular-found m k v (proprietary i) = refl
  singular-found m k v (plural i e) = refl
  singular-found m k v (singular i) =
      rw (← key-swap k i) (Laws.get-insert key-IsOrd k i v m.singular)
  singular-found m k v (unknown i e) = refl

  pub plural-found :
      (m : Map K) (k : K) (d v : Bytes) (j : FullKey K)
      → find j (with_plural m k d v) ≡ (if full_key_eq (plural k d) j then some v else find j m)
  unfolding find
  plural-found m k d v (proprietary i) = refl
  plural-found m k d v (singular i) = refl
  plural-found m k d v (unknown i e) = refl
  plural-found m k d v (plural i e) =
      let sub = or_default (BTreeMap.get k m.plural) in
      ground (
        arith,
        lawful.order_injective k i,
        key-swap k i,
        bytes-swap d e,
        Laws.get-insert key-IsOrd k i (BTreeMap.insert d v sub) m.plural,
        Laws.get-insert bytes-IsOrd d e v sub,
      )

  pub unknown-found :
      (m : Map K) (k : ℕ) (d v : Bytes) (j : FullKey K)
      → find j (with_unknown m k d v) ≡ (if full_key_eq (unknown k d) j then some v else find j m)
  unfolding find
  unknown-found m k d v (proprietary i) = refl
  unknown-found m k d v (singular i) = refl
  unknown-found m k d v (plural i e) = refl
  unknown-found m k d v (unknown i e) =
      let sub = or_default (IndexMap.get k m.unknown) in
      ground (
        arith,
        IndexMap.get-insert k i (IndexMap.insert d v sub) m.unknown,
        IndexMap.get-insert d e v sub,
      )

  pub proprietary-found :
      (m : Map K) (k : PropKey) (v : Bytes) (j : FullKey K)
      → find j (with_proprietary m k v)
        ≡ (if full_key_eq (proprietary k) j then some v else find j m)
  unfolding find
  proprietary-found m k v (proprietary i) = IndexMap.get-insert k i v m.proprietary
  proprietary-found m k v (singular i) = refl
  proprietary-found m k v (plural i e) = refl
  proprietary-found m k v (unknown i e) = refl
