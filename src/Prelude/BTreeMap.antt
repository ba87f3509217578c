-- ===== src/Prelude/BTreeMap.antt =====
-- `std::collections::BTreeMap` as a list of entries in ascending order of their keys.
pub mod Laws
use Prim.Native.Nat.{ℕ, compare, Ordering}
use mathlib.Core.Path.{◌≡◌, refl}
use mathlib.Core.Logic.{◌⊎◌, inl, inr}
use mathlib.Core.Bool.{Bool, true, false}
use mathlib.Core.Option.{Option, none, some}
use mathlib.Core.List.{List, [], ◌∷◌, map}
use native.Mathlib.Omega.{arith}
use bp_std.Prelude.Tests.{if◌then◌else◌, is_some}
use bp_std.Prelude.Lists.{Bytes, All}

-- the trait `Ord`
pub record Ord {ℓ} (K : Type ℓ) : Type ℓ where
  pub cmp : K → K → Ordering

abbrev pub is_eq : Ordering → Bool
is_eq Ordering.eq = true
is_eq _ = false

-- slices are compared lexicographically
unfoldable pub cmp_bytes : Bytes → Bytes → Ordering
cmp_bytes [] [] = Ordering.eq
cmp_bytes [] (b ∷ bs) = Ordering.lt
cmp_bytes (a ∷ as') [] = Ordering.gt
cmp_bytes (a ∷ as') (b ∷ bs) =
    let rest = cmp_bytes as' bs in
    elim (compare a b) [
      | Ordering.lt ↦ Ordering.lt
      | Ordering.eq ↦ rest
      | Ordering.gt ↦ Ordering.gt
    ]

instance abbrev pub bytes_ord : Ord Bytes
bytes_ord = record { cmp = cmp_bytes }

abbrev pub BTreeMap {ℓ κ} : Type ℓ → Type κ → Type (ℓ ⊔ κ)
BTreeMap K V = List (K × V)

module _ {ℓ κ} {K : Type ℓ} {V : Type κ} ⦃o : Ord K⦄ where
  unfoldable pub get : K → BTreeMap K V → Option V
  get k [] = none
  get k ((j, v) ∷ m) = if is_eq (o.cmp k j) then some v else get k m

  abbrev pub contains_key : K → BTreeMap K V → Bool
  contains_key k m = is_some (get k m)

  unfoldable pub insert : K → V → BTreeMap K V → BTreeMap K V
  insert k v [] = (k, v) ∷ []
  insert k v ((j, w) ∷ m) =
      let rest = insert k v m in
      elim (o.cmp k j) [
        | Ordering.lt ↦ (k, v) ∷ (j, w) ∷ m
        | Ordering.eq ↦ (j, v) ∷ m
        | Ordering.gt ↦ (j, w) ∷ rest
      ]

abbrev pub keys {ℓ κ} : {K : Type ℓ} {V : Type κ} → BTreeMap K V → List K
keys [] = []
keys ((k, v) ∷ m) = k ∷ keys m

pub Ordering-cases : (o : Ordering) → (o ≡ Ordering.lt) ⊎ (o ≡ Ordering.eq) ⊎ (o ≡ Ordering.gt)
Ordering-cases Ordering.lt = inl refl
Ordering-cases Ordering.eq = inr (inl refl)
Ordering-cases Ordering.gt = inr (inr refl)

-- An entry that is inserted keeps what is so of all keys.
pub All-insert {ℓ κ μ} :
    {K : Type ℓ} {V : Type κ} ⦃o : Ord K⦄ (P : K → Type μ) (k : K) (v : V) (m : BTreeMap K V)
    → P k
    → All (λ e. P e.0) m
    → All (λ e. P e.0) (insert k v m)
unfolding insert
All-insert P k v [] h all = (h, tt)
All-insert ⦃o⦄ P k v ((j, x) ∷ m) h (hj, all) = elim (Ordering-cases (o.cmp k j)) [
  | inl lt ↦ rw (lt, All) (h, (hj, all))
  | inr (inl eq) ↦ rw (eq, All) (hj, all)
  | inr (inr gt) ↦ rw (gt, All) (hj, All-insert P k v m h all)
]
