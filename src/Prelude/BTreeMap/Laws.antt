-- ===== src/Prelude/BTreeMap/Laws.antt =====
-- Looking up after an insertion into a `BTreeMap`.
use mathlib.Core.Path.{◌≡◌, refl}
use mathlib.Core.Logic.{◌↔◌}
use mathlib.Core.Bool.{true}
use mathlib.Core.Option.{some}
use mathlib.Core.List.{[], ◌∷◌}
use native.Mathlib.Omega.{arith}
use bp_std.Prelude.Tests.{if◌then◌else◌}
use bp_std.Prelude.Lists.{Bytes}
use bp_std.Prelude.BTreeMap.{Ord, is_eq, cmp_bytes, bytes_ord, BTreeMap, get, insert}

-- The comparison answers `eq` on equal keys only.
pub record IsOrd {ℓ} {K : Type ℓ} (o : Ord K) : Type ℓ where
  pub cmp_eq : (a b : K) → (is_eq (o.cmp a b) ≡ true) ↔ (a ≡ b)

cmp_bytes→eq : (a b : Bytes) → is_eq (cmp_bytes a b) ≡ true → a ≡ b
unfolding cmp_bytes
cmp_bytes→eq [] [] h = refl
cmp_bytes→eq [] (b ∷ bs) h = cc
cmp_bytes→eq (a ∷ as') [] h = cc
cmp_bytes→eq (a ∷ as') (b ∷ bs) h = ground (arith, cmp_bytes→eq as' bs)

cmp_bytes_refl : (a : Bytes) → is_eq (cmp_bytes a a) ≡ true
unfolding cmp_bytes
cmp_bytes_refl [] = refl
cmp_bytes_refl (a ∷ as') = ground (arith, cmp_bytes_refl as')

pub bytes-IsOrd : IsOrd bytes_ord
bytes-IsOrd = record { cmp_eq = λ a b. (cmp_bytes→eq a b, λ h. rw h (cmp_bytes_refl b)) }

module _ {ℓ κ} {K : Type ℓ} {V : Type κ} ⦃o : Ord K⦄ (lawful : IsOrd o) where
  pub get-insert :
      (k j : K) (v : V) (m : BTreeMap K V)
      → get j (insert k v m) ≡ (if is_eq (o.cmp j k) then some v else get j m)
  unfolding get insert
  get-insert k j v [] = refl
  get-insert k j v ((i, w) ∷ m) =
      ground (arith, lawful.cmp_eq j k, lawful.cmp_eq k i, lawful.cmp_eq j i, get-insert k j v m)
