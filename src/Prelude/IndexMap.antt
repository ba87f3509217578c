-- ===== src/Prelude/IndexMap.antt =====
-- `indexmap::IndexMap`: a map that keeps the order of insertion. The keys of a value are unique.
use mathlib.Core.Path.{◌≡◌, refl}
use mathlib.Core.Bool.{Bool}
use mathlib.Core.Option.{Option, none, some}
use mathlib.Core.List.{List, [], ◌∷◌}
use native.Mathlib.Omega.{arith}
use bp_std.Prelude.Tests.{if◌then◌else◌, is_some}
use bp_std.Prelude.Eq.{Eq}

abbrev pub IndexMap {ℓ κ} : Type ℓ → Type κ → Type (ℓ ⊔ κ)
IndexMap K V = List (K × V)

module _ {ℓ κ} {K : Type ℓ} {V : Type κ} ⦃e : Eq K⦄ where
  unfoldable pub get : K → IndexMap K V → Option V
  get k [] = none
  get k ((j, v) ∷ m) = if e.same j k then some v else get k m

  abbrev pub contains_key : K → IndexMap K V → Bool
  contains_key k m = is_some (get k m)

  -- an entry that is there keeps its place; a new one goes to the end
  unfoldable pub insert : K → V → IndexMap K V → IndexMap K V
  insert k v [] = (k, v) ∷ []
  insert k v ((j, w) ∷ m) = if e.same j k then (j, v) ∷ m else (j, w) ∷ insert k v m

  unfoldable pub shift_remove : K → IndexMap K V → IndexMap K V
  shift_remove k [] = []
  shift_remove k ((j, w) ∷ m) =
      let rest = shift_remove k m in if e.same j k then rest else (j, w) ∷ rest

  pub get-insert :
      (k j : K) (v : V) (m : IndexMap K V)
      → get j (insert k v m) ≡ (if e.same k j then some v else get j m)
  unfolding get insert
  get-insert k j v [] = refl
  get-insert k j v ((i, w) ∷ m) =
      ground (arith, e.same_iff k j, e.same_iff i k, e.same_iff i j, get-insert k j v m)

  pub get-shift_remove :
      (k j : K) (m : IndexMap K V)
      → get j (shift_remove k m) ≡ (if e.same k j then none else get j m)
  unfolding get shift_remove
  get-shift_remove k j [] = ground arith
  get-shift_remove k j ((i, w) ∷ m) =
      ground (arith, e.same_iff k j, e.same_iff i k, e.same_iff i j, get-shift_remove k j m)
