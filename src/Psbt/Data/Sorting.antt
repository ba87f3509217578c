-- ===== src/Psbt/Data/Sorting.antt =====
-- `Psbt::sort_outputs_by` of psbt/src/data.rs.
use mathlib.Core.List.{Perm}
use mathlib.Core.List.Perm
use bp_std.Prelude.{
  ℕ, suc, List, [], ◌∷◌, map, All, Bool, true, false, Bool-cases, ◌≡◌, refl, inl, inr, arith,
}
use bp_std.Prelude.Results.{ok}
use bp_std.Consensus.{Types}
use bp_std.Psbt.Data.Output.{Output, to_txout}
use bp_std.Psbt.Data.Container.{Psbt, enumerate_from, are_outputs_modifiable}
use bp_std.Psbt.Data.Construct.{insert_sorted, sort_by_key, sort_outputs_by, with_index}

-- What `sort_by_key` relies on in an order: it is asymmetric, and what does not come before
-- stays so.
pub record IsOrder {K : Type 0} (lt : K → K → Bool) : Type 0 where
  pub asymmetric : (a b : K) → lt a b ≡ true → lt b a ≡ false
  pub not_transitive : (a b c : K) → lt b a ≡ false → lt c b ≡ false → lt c a ≡ false

module _ {A K : Type 0} (lt : K → K → Bool) (key : A → K) where
  -- No element comes before one that it follows.
  abbrev pub IsSorted : List A → Type 0
  IsSorted [] = Unit {0}
  IsSorted (a ∷ rest) = All (λ b. lt (key b) (key a) ≡ false) rest × IsSorted rest

  insert_sorted-Perm : (a : A) (xs : List A) → Perm (insert_sorted lt key a xs) (a ∷ xs)
  unfolding insert_sorted
  insert_sorted-Perm a [] = Perm.refl _
  insert_sorted-Perm a (b ∷ xs) = elim (Bool-cases (lt (key b) (key a))) [
    | inl e ↦ rw e (Perm.trans (Perm.cons b (insert_sorted-Perm a xs)) (Perm.swap a b xs))
    | inr e ↦ rw e (Perm.refl _)
  ]

  pub sort_by_key-Perm : (xs : List A) → Perm (sort_by_key lt key xs) xs
  unfolding sort_by_key
  sort_by_key-Perm [] = Perm.refl _
  sort_by_key-Perm (a ∷ xs) =
      Perm.trans (insert_sorted-Perm a (sort_by_key lt key xs)) (Perm.cons a (sort_by_key-Perm xs))

  module _ (order : IsOrder lt) where
    insert_sorted-All :
        (c : K) (a : A) (xs : List A)
        → lt (key a) c ≡ false
        → All (λ b. lt (key b) c ≡ false) xs
        → All (λ b. lt (key b) c ≡ false) (insert_sorted lt key a xs)
    unfolding insert_sorted
    insert_sorted-All c a [] h all = (h, tt)
    insert_sorted-All c a (b ∷ xs) h (hb, all) = elim (Bool-cases (lt (key b) (key a))) [
      | inl e ↦ rw e (hb, insert_sorted-All c a xs h all)
      | inr e ↦ rw e (h, (hb, all))
    ]

    later-All :
        (a b : A) (xs : List A)
        → lt (key b) (key a) ≡ false
        → All (λ d. lt (key d) (key b) ≡ false) xs
        → All (λ d. lt (key d) (key a) ≡ false) xs
    later-All a b [] h all = tt
    later-All a b (d ∷ xs) h (hd, all) =
        (order.not_transitive (key a) (key b) (key d) h hd, later-All a b xs h all)

    insert_sorted-IsSorted :
        (a : A) (xs : List A) → IsSorted xs → IsSorted (insert_sorted lt key a xs)
    unfolding insert_sorted
    insert_sorted-IsSorted a [] h = (tt, tt)
    insert_sorted-IsSorted a (b ∷ xs) (hb, h) = elim (Bool-cases (lt (key b) (key a))) [
      | inl e ↦ rw e (
        insert_sorted-All (key b) a xs (order.asymmetric (key b) (key a) e) hb,
        insert_sorted-IsSorted a xs h,
      )
      | inr e ↦ rw e ((e, later-All a b xs e hb), (hb, h))
    ]

    pub sort_by_key-IsSorted : (xs : List A) → IsSorted (sort_by_key lt key xs)
    unfolding sort_by_key
    sort_by_key-IsSorted [] = tt
    sort_by_key-IsSorted (a ∷ xs) =
        insert_sorted-IsSorted a (sort_by_key lt key xs) (sort_by_key-IsSorted xs)

module _ {T : Types} where
  txouts-enumerate :
      (n : ℕ) (os : List (Output T))
      → map to_txout (enumerate_from with_index n os) ≡ map to_txout os
  unfolding enumerate_from with_index to_txout
  txouts-enumerate n [] = refl
  txouts-enumerate n (o ∷ os) = ground (arith, txouts-enumerate (suc n) os)

  module _ {K : Type 0} (lt : K → K → Bool) (key : Output T → K)
      (blind : (o : Output T) (i : ℕ) → key (with_index o i) ≡ key o) where
    All-enumerate :
        (c : K) (n : ℕ) (os : List (Output T))
        → All (λ b. lt (key b) c ≡ false) os
        → All (λ b. lt (key b) c ≡ false) (enumerate_from with_index n os)
    unfolding enumerate_from
    All-enumerate c n [] h = tt
    All-enumerate c n (o ∷ os) (h, hs) = (rw (blind o n) h, All-enumerate c (suc n) os hs)

    enumerate-IsSorted :
        (n : ℕ) (os : List (Output T))
        → IsSorted lt key os
        → IsSorted lt key (enumerate_from with_index n os)
    unfolding enumerate_from
    enumerate-IsSorted n [] h = tt
    enumerate-IsSorted n (o ∷ os) (h, hs) =
        (rw (blind o n) (All-enumerate (key o) (suc n) os h), enumerate-IsSorted (suc n) os hs)

    -- Where outputs may be modified, sorting them by a key that does not look at their indexes
    -- puts them in the order of their keys, and the transaction outputs are a permutation of what
    -- they were.
    pub sort_outputs_by-IsSorted :
        IsOrder lt
        → (psbt psbt' : Psbt T) → sort_outputs_by lt key psbt ≡ ok psbt'
        → IsSorted lt key psbt'.outputs
          × Perm (map to_txout psbt'.outputs) (map to_txout psbt.outputs)
          × (are_outputs_modifiable psbt ≡ true)
    unfolding sort_outputs_by
    sort_outputs_by-IsSorted order psbt psbt' h = elim (Bool-cases (are_outputs_modifiable psbt)) [
      | inr e ↦ cc (rw e at h)
      | inl e ↦
          let outputs : psbt'.outputs
              ≡ enumerate_from with_index 0 (sort_by_key lt key psbt.outputs) =
            ground (arith, h, e) in
          (
            rw outputs (enumerate-IsSorted 0 _ (sort_by_key-IsSorted lt key order psbt.outputs)),
            rw (outputs, txouts-enumerate)
                (Perm.map to_txout (sort_by_key-Perm lt key psbt.outputs)),
            e,
          )
    ]
