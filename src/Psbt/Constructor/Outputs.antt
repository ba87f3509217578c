-- ===== src/Psbt/Constructor/Outputs.antt =====
-- The outputs that `construct_psbt` of psbt/src/constructor.rs adds for its beneficiaries.
use bp_std.Prelude.{
  ℕ, suc, ◌+◌, ◌*◌, ◌≤◌, ◌<◌, if◌then◌else◌, true, false, List, [], ◌∷◌, ◌++◌, map, append_assoc,
  append-nil, length, length-append, Option, none, some, ◌≡◌, ◌⊎◌, refl, ◌∙◌, arith, inl, inr,
}
use bp_std.Prelude.Results.{Result, ok, err, >>=-eq-ok}
use bp_std.Consensus.{Types, Constants, Equalities, Sats, IsSats, total}
use bp_std.Psbt.Data.Output.{Output}
use bp_std.Psbt.Data.Container.{Psbt}
use bp_std.Psbt.Data.Construct.{construct_output, output_for}
use bp_std.Psbt.Constructor.{
  Beneficiary, Payment, fixed, max, unwrap_or, is_max, contains, share_out, Wallet, add_outputs,
  otherwise, expect, overflow,
}

-- A checked sum that is there is the sum.
pub checked_add-eq-some :
    (s : Sats) → IsSats s → (a b : ℕ) {n : ℕ} → s.checked_add a b ≡ some n → n ≡ a + b
checked_add-eq-some s lawful a b h =
    ground (arith, h, lawful.add_fits a b, lawful.add_overflows a b)

pub checked_sub-eq-some :
    (s : Sats) → IsSats s → (a b : ℕ) {n : ℕ} → s.checked_sub a b ≡ some n → a ≡ n + b
checked_sub-eq-some s lawful a b h =
    ground (arith, h, lawful.sub_fits a b, lawful.sub_underflows a b)

Payment-cases : (a : Payment) → (a ≡ max) ⊎ ((n : ℕ) × (a ≡ fixed n))
Payment-cases max = inl refl
Payment-cases (fixed n) = inr (n, refl)

pub otherwise-eq-ok :
    {E A : Type 0} (e : E) (o : Option A) {a : A} → otherwise e o ≡ ok a → o ≡ some a
otherwise-eq-ok e (some b) h = ground arith
otherwise-eq-ok e none h = cc

pub expect-eq-ok : {E F A : Type 0} (r : Result E A) {a : A} → expect {F = F} r ≡ ok a → r ≡ ok a
expect-eq-ok (ok b) h = ground arith
expect-eq-ok (err e) h = cc

module _ {T : Types} where
  abbrev pub value_of : List (Output T) → ℕ
  value_of os = total (map (λ o. o.amount) os)

  pub value_of-append : (xs ys : List (Output T)) → value_of (xs ++ ys) ≡ value_of xs + value_of ys
  value_of-append [] ys = omega arith
  value_of-append (x ∷ xs) ys = omega (arith, value_of-append xs ys)

  -- the sum of the fixed payments, and the number of those that take what remains
  abbrev pub fixed_total : List (Beneficiary T) → ℕ
  fixed_total [] = 0
  fixed_total (b ∷ bs) = unwrap_or b.amount 0 + fixed_total bs

  abbrev pub count_max : List (Beneficiary T) → ℕ
  count_max [] = 0
  count_max (b ∷ bs) = (if is_max b.amount then 1 else 0) + count_max bs

  abbrev pub max_from : ℕ → List (Beneficiary T) → List ℕ
  max_from n [] = []
  max_from n (b ∷ bs) = let rest = max_from (suc n) bs in if is_max b.amount then n ∷ rest else rest

  pub length-max_from : (n : ℕ) (bs : List (Beneficiary T)) → length (max_from n bs) ≡ count_max bs
  length-max_from n [] = refl
  length-max_from n (b ∷ bs) = ground (arith, length-max_from (suc n) bs)

  contains-max_from :
      (n i : ℕ) (bs : List (Beneficiary T)) → i < n → contains (max_from n bs) i ≡ false
  contains-max_from n i [] h = refl
  contains-max_from n i (b ∷ bs) h = ground (arith, contains-max_from (suc n) i bs)

  -- what the indexes from `n` on say of the later ones
  agree_later :
      (maxes : List ℕ) (n : ℕ) (b : Beneficiary T) (bs : List (Beneficiary T))
      → ((i : ℕ) → n ≤ i → contains maxes i ≡ contains (max_from n (b ∷ bs)) i)
      → (i : ℕ) → suc n ≤ i
      → contains maxes i ≡ contains (max_from (suc n) bs) i
  agree_later maxes n b bs agree i h = ground (arith, agree i)

add-mul : (k m : ℕ) → (1 + k) * m ≡ m + k * m
add-mul k m = ground arith

module _ {T : Types} (c : Constants T) where
  -- the outputs of the beneficiaries, from index `n` on
  abbrev pub outs : ℕ → List (Beneficiary T) → List (Output T)
  outs n [] = []
  outs n (b ∷ bs) = output_for c n b.script_pubkey (unwrap_or b.amount 0) ∷ outs (suc n) bs

  pub value_of-outs : (n : ℕ) (bs : List (Beneficiary T)) → value_of (outs n bs) ≡ fixed_total bs
  unfolding output_for
  value_of-outs n [] = refl
  value_of-outs n (b ∷ bs) = omega (arith, value_of-outs (suc n) bs)

  -- Each output whose index is in the list takes a portion.
  pub value_of-share_out :
      (maxes : List ℕ) (portion n : ℕ) (bs : List (Beneficiary T))
      → ((i : ℕ) → n ≤ i → contains maxes i ≡ contains (max_from n bs) i)
      → value_of (share_out maxes portion (outs n bs)) ≡ fixed_total bs + count_max bs * portion
  unfolding output_for share_out
  value_of-share_out maxes portion n [] agree = omega arith
  value_of-share_out maxes portion n (b ∷ bs) agree =
      let rest = value_of-share_out maxes portion (suc n) bs (agree_later maxes n b bs agree) in
      elim (Payment-cases b.amount) [
        | inl e ↦
            let taken : contains maxes n ≡ true = ground (arith, agree n, e) in
            rw (taken, e) (omega (arith, rest, add-mul (count_max bs) portion))
        | inr (x, e) ↦
            let free : contains maxes n ≡ false =
              ground (arith, agree n, e, contains-max_from (suc n) n bs) in
            rw (free, e) (omega (arith, rest))
      ]

  abbrev with_output : Psbt T → Beneficiary T → Psbt T
  with_output p b = record p {
    outputs =
        p.outputs ++ (output_for c (length p.outputs) b.script_pubkey (unwrap_or b.amount 0) ∷ []);
  }

  construct_output-eq-ok :
      (p p' : Psbt T) (b : Beneficiary T)
      → construct_output c p b.script_pubkey (unwrap_or b.amount 0) ≡ ok p'
      → p' ≡ with_output p b
  unfolding construct_output
  construct_output-eq-ok p p' b h = ground arith

  max_from-step :
      (maxes : List ℕ) (n : ℕ) (b : Beneficiary T) (bs : List (Beneficiary T))
      → (if is_max b.amount then maxes ++ (n ∷ []) else maxes) ++ max_from (suc n) bs
        ≡ maxes ++ max_from n (b ∷ bs)
  max_from-step maxes n b bs = elim (Payment-cases b.amount) [
    | inl e ↦ rw e (append_assoc maxes (n ∷ []) (max_from (suc n) bs))
    | inr (x, e) ↦ rw e refl
  ]

  module _ (e : Equalities T) (s : Sats) {W : Type 0} (wallet : Wallet T W)
      (lawful : IsSats s) where
    -- Where the loop over the beneficiaries ends, it has added the outputs of all of them.
    pub add_outputs-eq-ok :
        (p p' : Psbt T) (value value' : ℕ) (maxes maxes' : List ℕ) (bs : List (Beneficiary T))
        → add_outputs c e s wallet p value maxes bs ≡ ok (p', value', maxes')
        → (p' ≡ record p { outputs = p.outputs ++ outs (length p.outputs) bs })
          × (value' ≡ value + fixed_total bs)
          × (maxes' ≡ maxes ++ max_from (length p.outputs) bs)
    unfolding add_outputs
    add_outputs-eq-ok p p' value value' maxes maxes' [] h =
        (ground (arith, append-nil p.outputs), ground arith, ground (arith, append-nil maxes))
    add_outputs-eq-ok p p' value value' maxes maxes' (b ∷ bs) h =
        let amount = unwrap_or b.amount 0 in
        let (sum, h1, r1) =
          >>=-eq-ok (otherwise (overflow value) (s.checked_add value amount)) _ h in
        let (p1, h2, r2) = >>=-eq-ok (expect (construct_output c p b.script_pubkey amount)) _ r1 in
        let added = checked_add-eq-some s lawful value amount (otherwise-eq-ok _ _ h1) in
        let pushed = construct_output-eq-ok p p1 b (expect-eq-ok _ h2) in
        let (outputs, sums, indexes) =
          add_outputs-eq-ok (with_output p b) p' sum value' _ maxes' bs (rw pushed at r2) in
        let longer : length (with_output p b).outputs ≡ suc (length p.outputs) =
          rw length-append (omega arith) in
        (
          outputs ∙ rw (longer, append_assoc) refl,
          omega (arith, sums, added),
          indexes ∙ rw longer (max_from-step maxes (length p.outputs) b bs),
        )
