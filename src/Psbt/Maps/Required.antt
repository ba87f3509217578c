-- ===== src/Psbt/Maps/Required.antt =====
-- What `Map::check` of psbt/src/maps.rs accepts.
use bp_std.Prelude.{List, [], ◌∷◌, ◌++◌, All, true, ◌≡◌, refl, ◌↔◌, arith}
use bp_std.Prelude.Results.{ok, >>=-eq-ok}
use bp_std.Prelude.BTreeMap
use bp_std.Prelude.BTreeMap.{keys}
use bp_std.Psbt.Ver.{PsbtVer, v0, v2}
use bp_std.Psbt.Errors.{MapName}
use bp_std.Psbt.Keys.KeyType.{KeyType, is_allowed, key_ord}
use bp_std.Psbt.Keys.Global
use bp_std.Psbt.Keys.Global.{GlobalKey, global_key_type}
use bp_std.Psbt.Keys.Input
use bp_std.Psbt.Keys.Input.{InputKey, input_key_type}
use bp_std.Psbt.Keys.Output
use bp_std.Psbt.Keys.Output.{OutputKey, output_key_type}
use bp_std.Psbt.Maps.{Map, check_present, check_required, is_absent, check}

-- Every key that the map holds is allowed in this version.
abbrev pub AllAllowed : {K : Type 0} ⦃t : KeyType K⦄ → Map K → PsbtVer → Type 0
AllAllowed map version =
    All (λ k. is_allowed k version ≡ true) (keys map.singular ++ keys map.plural)

module _ {K : Type 0} ⦃t : KeyType K⦄ (name : MapName) (version : PsbtVer) where
  check_present→allowed :
      (ks : List K)
      → check_present name version ks ≡ ok tt
      → All (λ k. is_allowed k version ≡ true) ks
  unfolding check_present is_allowed
  check_present→allowed [] h = tt
  check_present→allowed (k ∷ ks) h = ground (arith, check_present→allowed ks)

  allowed→check_present :
      (ks : List K)
      → All (λ k. is_allowed k version ≡ true) ks
      → check_present name version ks ≡ ok tt
  unfolding check_present is_allowed
  allowed→check_present [] h = refl
  allowed→check_present (k ∷ ks) (a, h) = ground (arith, allowed→check_present ks h)

check_required_input :
    (map : Map InputKey) (version : PsbtVer) → check_required map version Input.standard ≡ ok tt
unfolding check_required is_absent Input.is_required Input.present_since Input.deprecated_since
check_required_input map v0 = refl
check_required_input map v2 = refl

check_required_output :
    (map : Map OutputKey) (version : PsbtVer) → check_required map version Output.standard ≡ ok tt
unfolding check_required is_absent Output.is_required Output.present_since Output.deprecated_since
check_required_output map v0 = refl
check_required_output map v2 = refl

check_required_global :
    (map : Map GlobalKey) (version : PsbtVer)
    → (check_required map version Global.standard ≡ ok tt)
      ↔ (version ≡ v0 → BTreeMap.contains_key Global.unsigned_tx map.singular ≡ true)
unfolding check_required is_absent Global.is_required Global.present_since Global.deprecated_since
    Global.has_key_data
check_required_global map v0 = (λ h _. ground arith, λ h. ground (arith, h refl))
check_required_global map v2 = (λ h e. cc, λ h. refl)

module _ {K : Type 0} ⦃t : KeyType K⦄ (map : Map K) (version : PsbtVer) where
  check→parts :
      check map version ≡ ok tt
      → AllAllowed map version × (check_required map version t.standard ≡ ok tt)
  unfolding check
  check→parts h =
      let (u, p, r) = >>=-eq-ok (check_present {K = K} map.name version _) _ h in
      (check_present→allowed map.name version _ p, r)

  parts→check :
      AllAllowed map version
      → check_required map version t.standard ≡ ok tt
      → check map version ≡ ok tt
  unfolding check
  parts→check a r = rw (allowed→check_present map.name version _ a) r

-- An input map passes exactly when each of its keys is allowed in the version: no key is required,
-- neither the previous transaction id nor the output index of version 2.
pub input-check_iff :
    (map : Map InputKey) (version : PsbtVer) → (check map version ≡ ok tt) ↔ AllAllowed map version
input-check_iff map version = (
  λ h. (check→parts map version h).0,
  λ a. parts→check map version a (check_required_input map version),
)

-- An output map passes exactly when each of its keys is allowed in the version: no key is
-- required, neither the amount nor the script of version 2.
output-check_iff :
    (map : Map OutputKey) (version : PsbtVer) → (check map version ≡ ok tt) ↔ AllAllowed map version
output-check_iff map version = (
  λ h. (check→parts map version h).0,
  λ a. parts→check map version a (check_required_output map version),
)

-- A global map passes exactly when each of its keys is allowed in the version and, in version 0,
-- it holds the unsigned transaction; in version 2 no key is required.
pub global-check_iff :
    (map : Map GlobalKey) (version : PsbtVer)
    → (check map version ≡ ok tt) ↔ (
        AllAllowed map version
        × (version ≡ v0 → BTreeMap.contains_key Global.unsigned_tx map.singular ≡ true))
global-check_iff map version = (
  λ h. let (a, r) = check→parts map version h in (a, (check_required_global map version).0 r),
  λ (a, u). parts→check map version a ((check_required_global map version).1 u),
)
