-- ===== src/Psbt/Maps.antt =====
-- psbt/src/maps.rs: a map of a PSBT as it is read, before its keys are interpreted.

pub mod Required
pub mod Parse
pub mod Lookup
pub mod Unique
pub mod Extends
pub mod Filed
use bp_std.Prelude.{
  ℕ, zero, suc, Bytes, List, [], ◌∷◌, ◌++◌, length, Bool, true, false, not, ◌&&◌, ◌||◌,
  if◌then◌else◌, Option, none, some,
}
use bp_std.Prelude.Results.{Result, ok, err, ◌>>=◌, ◌>>◌}
use bp_std.Prelude.Eq.{nat_eq, bytes_instance}
use bp_std.Prelude.IndexMap
use bp_std.Prelude.IndexMap.{IndexMap}
use bp_std.Prelude.BTreeMap
use bp_std.Prelude.BTreeMap.{BTreeMap, Ord, bytes_ord, keys}
use bp_std.Psbt.Ver.{PsbtVer, ver_leb}
use bp_std.Psbt.Errors.{
  MapName, PropKey, PsbtError, repeated_key, repeated_prop_key, repeated_unknown_key,
  non_empty_key_data, unexpected_key, deprecated_key, required_key_absent, DecodeError, io, psbt,
}
use bp_std.Psbt.Keys.KeyType.{KeyType, key_ord, is_standard, is_deprecated, is_undeprecated}
use bp_std.Psbt.Coders.Wire.{Wire}
use bp_std.Psbt.Coders.Pairs.{KeyPair, KeyValue, pair, separator, decode_key_value}
use bp_std.Psbt.Coders.Values.{deserialize, decode_prop_key, prop_key_instance}

pub record Map (K : Type 0) : Type 0 where
  pub name : MapName
  pub singular : BTreeMap K Bytes
  pub plural : BTreeMap K (BTreeMap Bytes Bytes)
  pub proprietary : IndexMap PropKey Bytes
  pub unknown : IndexMap ℕ (IndexMap Bytes Bytes)

-- `Map::new`
abbrev pub new : {K : Type 0} → MapName → Map K
new name = record { name = name; singular = []; plural = []; proprietary = []; unknown = [] }

-- `entry(k).or_default()`
abbrev pub or_default {ℓ} : {A : Type ℓ} → Option (List A) → List A
or_default none = []
or_default (some m) = m

module _ {K : Type 0} ⦃t : KeyType K⦄ where
  unfoldable pub add_proprietary : Wire → Map K → KeyPair K → Result PsbtError (Map K)
  add_proprietary w map p = do
    prop_key ← deserialize (decode_prop_key w) p.key_data
    if IndexMap.contains_key prop_key map.proprietary
        then err (repeated_prop_key map.name prop_key)
        else ok (record map { proprietary = IndexMap.insert prop_key p.value_data map.proprietary })

  add_plural : Map K → KeyPair K → Result PsbtError (Map K)
  add_plural map p =
      let submap = or_default (BTreeMap.get p.key_type map.plural) in
      if BTreeMap.contains_key p.key_data submap
      then err (repeated_key map.name (t.into_u8 p.key_type))
      else ok (record map {
        plural =
            BTreeMap.insert p.key_type (BTreeMap.insert p.key_data p.value_data submap) map.plural;
      })

  add_singular : Map K → KeyPair K → Result PsbtError (Map K)
  add_singular map (p) = elim p.key_data [
    | [] ↦ ok (record map { singular = BTreeMap.insert p.key_type p.value_data map.singular })
    | b ∷ rest ↦ err (non_empty_key_data map.name (t.into_u8 p.key_type) (b ∷ rest))
  ]

  add_unknown : Map K → KeyPair K → Result PsbtError (Map K)
  add_unknown map p =
      let key_type = t.into_u8 p.key_type in
      let submap = or_default (IndexMap.get key_type map.unknown) in
      if IndexMap.contains_key p.key_data submap
      then err (repeated_unknown_key map.name key_type)
      else ok (record map {
        unknown =
            IndexMap.insert key_type (IndexMap.insert p.key_data p.value_data submap) map.unknown;
      })

  -- the body of the loop of `Map::parse`
  unfoldable pub add_pair : Wire → Map K → KeyPair K → Result PsbtError (Map K)
  unfolding add_proprietary add_plural add_singular add_unknown
  add_pair w map p =
      if BTreeMap.contains_key p.key_type map.singular
      then err (repeated_key map.name (t.into_u8 p.key_type))
      else if t.is_proprietary p.key_type
      then add_proprietary w map p
      else if is_standard p.key_type
      then (if t.has_key_data p.key_type then add_plural map p else add_singular map p)
      else add_unknown map p

  -- `Map::parse`, with fuel: each round reads a byte or more
  unfoldable pub parse_loop : Wire → ℕ → Map K → Bytes → Result DecodeError (Map K × Bytes)
  parse_loop w zero map stream = err io
  parse_loop w (suc fuel) map stream = elim (decode_key_value {K = K} w stream) [
    | err e ↦ err e
    | ok (separator, rest) ↦ ok (map, rest)
    | ok (pair p, rest) ↦ elim (add_pair w map p) [
      | err e ↦ err (psbt e)
      | ok map' ↦ parse_loop w fuel map' rest
    ]
  ]

  unfoldable pub parse : Wire → MapName → Bytes → Result DecodeError (Map K × Bytes)
  unfolding parse_loop
  parse w name stream = parse_loop w (suc (length stream)) (new name) stream

  -- the first loop of `Map::check`
  check_present : MapName → PsbtVer → List K → Result PsbtError (Unit {0})
  check_present name version [] = ok tt
  check_present name version (k ∷ ks) =
      let rest = check_present name version ks in
      if not (ver_leb (t.present_since k) version)
      then err (unexpected_key name (t.into_u8 k) version)
      else if is_deprecated (t.deprecated_since k) version
      then err (deprecated_key name (t.into_u8 k) version)
      else rest

  -- the condition of the second loop
  is_absent : Map K → PsbtVer → K → Bool
  is_absent map version k =
      t.is_required k
      && ver_leb (t.present_since k) version
      && is_undeprecated (t.deprecated_since k) version
      && (t.has_key_data k && not (BTreeMap.contains_key k map.plural)
          || not (t.has_key_data k) && not (BTreeMap.contains_key k map.singular))

  check_required : Map K → PsbtVer → List K → Result PsbtError (Unit {0})
  check_required map version [] = ok tt
  check_required map version (k ∷ ks) =
      let rest = check_required map version ks in
      if is_absent map version k
      then err (required_key_absent map.name (t.into_u8 k) version)
      else rest

  unfoldable pub check : Map K → PsbtVer → Result PsbtError (Unit {0})
  unfolding check_present is_absent check_required
  check map version = do
    check_present map.name version (keys map.singular ++ keys map.plural)
    check_required map version t.standard
