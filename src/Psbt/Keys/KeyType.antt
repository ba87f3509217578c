-- ===== src/Psbt/Keys/KeyType.antt =====
-- The trait `KeyType` of psbt/src/keys.rs.
use bp_std.Prelude.{ℕ, Bool, not, ◌&&◌, ◌==◌, Option, none, some, List, [], ◌∷◌, false, ◌||◌}
use Prim.Native.Nat.{compare}
use bp_std.Prelude.BTreeMap.{Ord}
use bp_std.Psbt.Ver.{PsbtVer, ver_leb}

-- `order` stands for the derived `Ord` and `Eq` of the implementing enumeration.
pub record KeyType (K : Type 0) : Type 0 where
  pub standard : List K
  pub unknown_unchecked : ℕ → K
  pub from_u8 : ℕ → K
  pub into_u8 : K → ℕ
  pub has_key_data : K → Bool
  pub present_since : K → PsbtVer
  pub deprecated_since : K → Option PsbtVer
  pub is_required : K → Bool
  pub is_proprietary : K → Bool
  pub order : K → ℕ

-- `matches!(deprecated, Some(depr) if version >= depr)`
abbrev pub is_deprecated : Option PsbtVer → PsbtVer → Bool
is_deprecated none version = false
is_deprecated (some depr) version = ver_leb depr version

module _ {K : Type 0} ⦃t : KeyType K⦄ where
  -- the default method `is_allowed`
  unfoldable pub is_allowed : K → PsbtVer → Bool
  is_allowed k version =
      ver_leb (t.present_since k) version && not (is_deprecated (t.deprecated_since k) version)

  -- `==` on keys
  abbrev pub key_eq : K → K → Bool
  key_eq a b = t.order a == t.order b

  -- `STANDARD.contains(&key)`
  abbrev pub contains : List K → K → Bool
  contains [] k = false
  contains (x ∷ xs) k = key_eq x k || contains xs k

  abbrev pub is_standard : K → Bool
  is_standard = contains t.standard

-- `matches!(deprecated, Some(depr) if version < depr)`
abbrev pub is_undeprecated : Option PsbtVer → PsbtVer → Bool
is_undeprecated none version = false
is_undeprecated (some depr) version = not (ver_leb depr version)

-- the derived `Ord`
instance abbrev pub key_ord : {K : Type 0} ⦃t : KeyType K⦄ → Ord K
key_ord ⦃t⦄ = record { cmp = λ a b. compare (t.order a) (t.order b) }
