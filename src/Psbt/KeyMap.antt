-- ===== src/Psbt/KeyMap.antt =====
-- The trait `KeyMap` of psbt/src/maps.rs: how a part of a PSBT is written as a map and set from
-- one.
pub mod Values
pub mod Pairs
pub mod GlobalMap
pub mod InputMap
pub mod OutputMap
pub mod Total
use bp_std.Prelude.{
  ℕ, Bytes, List, [], ◌∷◌, ◌++◌, map, Bool, true, false, if◌then◌else◌, Option, none, some, is_some,
}
use bp_std.Prelude.Results.{Result, ok, err, ◌>>=◌}
use bp_std.Prelude.Eq.{nat_eq, bytes_instance}
use bp_std.Prelude.IndexMap
use bp_std.Prelude.IndexMap.{IndexMap}
use bp_std.Prelude.BTreeMap.{BTreeMap}
use bp_std.Psbt.Ver.{PsbtVer}
use bp_std.Psbt.Errors.{PropKey, PsbtError}
use bp_std.Psbt.Keys.KeyType.{KeyType, is_allowed}
use bp_std.Psbt.Coders.Writer.{Encoded, raw, ◌▸◌, encode_each}
use bp_std.Psbt.Coders.Wire.{Wire}
use bp_std.Psbt.Coders.Pairs.{PairToWrite, encode_pair}
use bp_std.Psbt.Coders.Values.{encode_prop_key, prop_key_instance}
use bp_std.Psbt.Maps.{Map, check, or_default}

-- An error that is returned, or an `unreachable!` that was reached.
pub data Fault (E : Type 0) : Type 0 where
  refused : E → Fault E
  panicked : Fault E

-- `KeyAlreadyPresent`
pub record KeyAlreadyPresent : Type 0 where
  pub key : PropKey

abbrev pub Unknowns : Type 0
Unknowns = IndexMap ℕ (IndexMap Bytes Bytes)

-- what an implementation of the trait gives itself; a method on `&mut self` returns the new value
pub record KeyMap (S K : Type 0) : Type 0 where
  pub proprietary_type : K
  -- `Keys::unknown`
  pub unknown_key : ℕ → K
  pub proprietary_map : S → IndexMap PropKey Bytes
  pub with_proprietary_map : S → IndexMap PropKey Bytes → S
  pub unknown_map : S → Unknowns
  pub with_unknown_map : S → Unknowns → S
  pub retrieve_key_pair : S → PsbtVer → K → List (PairToWrite K)
  pub insert_singular : S → K → Bytes → Result (Fault PsbtError) S
  pub insert_plural : S → K → Bytes → Bytes → Result (Fault PsbtError) S

abbrev pub returned {ℓ} : {E : Type 0} {A : Type ℓ} → Result E A → Result (Fault E) A
returned (ok a) = ok a
returned (err e) = err (refused e)

-- `for a in items { self.step(a)?; }`
abbrev pub each : {S A E : Type 0} → (S → A → Result E S) → S → List A → Result E S
each step s [] = ok s
each step s (a ∷ rest) = do s' ← step s a; each step s' rest

module _ {S K : Type 0} ⦃t : KeyType K⦄ (m : KeyMap S K) where
  -- the standard keys that this version allows
  allowed_keys : PsbtVer → List K → List K
  allowed_keys version [] = []
  allowed_keys version (k ∷ ks) =
      let rest = allowed_keys version ks in if is_allowed k version then k ∷ rest else rest

  pairs_of : S → PsbtVer → List K → List (PairToWrite K)
  pairs_of s version [] = []
  pairs_of s version (k ∷ ks) = m.retrieve_key_pair s version k ++ pairs_of s version ks

  unknown_pairs_of : ℕ → IndexMap Bytes Bytes → List (PairToWrite K)
  unknown_pairs_of key_type [] = []
  unknown_pairs_of key_type ((key_data, value_data) ∷ rest) =
      record {
        key_type = m.unknown_key key_type;
        key_data = raw key_data;
        value_data = raw value_data;
      }
      ∷ unknown_pairs_of key_type rest

  unknown_pairs : Unknowns → List (PairToWrite K)
  unknown_pairs [] = []
  unknown_pairs ((key_type, submap) ∷ rest) = unknown_pairs_of key_type submap ++ unknown_pairs rest

  proprietary_pairs : Wire → IndexMap PropKey Bytes → List (PairToWrite K)
  proprietary_pairs w [] = []
  proprietary_pairs w ((key, value) ∷ rest) =
      record {
        key_type = m.proprietary_type;
        key_data = encode_prop_key w key;
        value_data = raw value;
      }
      ∷ proprietary_pairs w rest

  -- all pairs that `encode_map` writes
  unfoldable pub map_pairs : Wire → S → PsbtVer → List (PairToWrite K)
  unfolding allowed_keys pairs_of unknown_pairs unknown_pairs_of proprietary_pairs
  map_pairs w s version =
      pairs_of s version (allowed_keys version t.standard)
      ++ (unknown_pairs (m.unknown_map s) ++ proprietary_pairs w (m.proprietary_map s))

  -- `KeyMap::encode_map`
  unfoldable pub encode_map : Wire → S → PsbtVer → Encoded
  unfolding map_pairs
  encode_map w s version = encode_each (encode_pair w) (map_pairs w s version) ▸ raw (0 ∷ [])

  -- `insert_proprietary`, `insert_unknown`
  unfoldable pub insert_proprietary : S → PropKey → Bytes → S
  insert_proprietary s key value =
      m.with_proprietary_map s (IndexMap.insert key value (m.proprietary_map s))

  unfoldable pub insert_unknown : S → ℕ → Bytes → Bytes → S
  insert_unknown s key_type key_data value =
      let submap = or_default (IndexMap.get key_type (m.unknown_map s)) in
      m.with_unknown_map s
        (IndexMap.insert key_type (IndexMap.insert key_data value submap) (m.unknown_map s))

  abbrev pub insert_submap : S → K × BTreeMap Bytes Bytes → Result (Fault PsbtError) S
  insert_submap s (k, submap) = each (λ s' (d, v). m.insert_plural s' k d v) s submap

  insert_all_proprietary : S → IndexMap PropKey Bytes → S
  insert_all_proprietary s [] = s
  insert_all_proprietary s ((p, v) ∷ rest) = insert_all_proprietary (insert_proprietary s p v) rest

  insert_all_unknown_of : S → ℕ → IndexMap Bytes Bytes → S
  insert_all_unknown_of s k [] = s
  insert_all_unknown_of s k ((d, v) ∷ rest) = insert_all_unknown_of (insert_unknown s k d v) k rest

  insert_all_unknown : S → Unknowns → S
  insert_all_unknown s [] = s
  insert_all_unknown s ((k, submap) ∷ rest) =
      insert_all_unknown (insert_all_unknown_of s k submap) rest

  -- `KeyMap::parse_map`
  unfoldable pub parse_map : S → PsbtVer → Map K → Result (Fault PsbtError) S
  unfolding insert_all_proprietary insert_all_unknown_of insert_all_unknown insert_proprietary
      insert_unknown
  parse_map s version map = do
    passed ← returned (check map version)
    s1 ← each (λ s' (k, v). m.insert_singular s' k v) s map.singular
    s2 ← each insert_submap s1 map.plural
    ok (insert_all_unknown (insert_all_proprietary s2 map.proprietary) map.unknown)

  -- `proprietary`, `has_proprietary`
  unfoldable pub proprietary : S → PropKey → Option Bytes
  proprietary s key = IndexMap.get key (m.proprietary_map s)

  unfoldable pub has_proprietary : S → PropKey → Bool
  unfolding proprietary
  has_proprietary s key = is_some (proprietary s key)

  -- `push_proprietary`
  unfoldable pub push_proprietary : S → PropKey → Bytes → Result KeyAlreadyPresent S
  unfolding has_proprietary
  push_proprietary s key value =
      if has_proprietary s key
      then err (record { key = key })
      else ok (m.with_proprietary_map s (IndexMap.insert key value (m.proprietary_map s)))

  -- `remove_proprietary`
  unfoldable pub remove_proprietary : S → PropKey → S × Option Bytes
  remove_proprietary s key = (
    m.with_proprietary_map s (IndexMap.shift_remove key (m.proprietary_map s)),
    IndexMap.get key (m.proprietary_map s),
  )
