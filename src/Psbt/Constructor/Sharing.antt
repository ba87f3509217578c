-- ===== src/Psbt/Constructor/Sharing.antt =====
-- How `construct_psbt` of psbt/src/constructor.rs shares out what remains of the inputs, and what
-- the change takes.
use bp_std.Prelude.{
  ℕ, ◌+◌, ◌*◌, ◌≤◌, ◌<◌, ltb, List, [], ◌∷◌, ◌++◌, length, ◌≡◌, ◌⊎◌, refl, ap, ◌∙◌, arith, inl, inr,
  Bool-cases,
}
use mathlib.Core.Path.{subst}
use bp_std.Prelude.Results.{ok, >>=-eq-ok}
use bp_std.Consensus.{Types, Constants, Equalities, Sats, IsSats}
use bp_std.Derive.Terminal.{Terminal}
use bp_std.Psbt.Data.Descriptor.{Descriptor}
use bp_std.Psbt.Data.Container.{Psbt}
use bp_std.Psbt.Data.Construct.{construct_change, change_for}
use bp_std.Psbt.Constructor.{
  Beneficiary, TxParams, PsbtMeta, Wallet, remainder, distribute, add_change, contains, expect,
  otherwise, share_out,
}
use bp_std.Psbt.Constructor.Outputs.{
  checked_sub-eq-some, value_of, value_of-append, fixed_total, count_max, max_from, length-max_from,
  outs, value_of-outs, value_of-share_out, expect-eq-ok, otherwise-eq-ok,
}

-- What became of `remaining`, which was to be added to `value`: `left` is left of it; or it was
-- shared out but for less than one unit for each of `shares`.
abbrev pub IsShared : ℕ → ℕ → ℕ → ℕ → ℕ → Type 0
IsShared value remaining shares left value' =
    ((left ≡ remaining) × (value' ≡ value))
    ⊎ ((left ≡ 0) × (r : ℕ) × (value' + r ≡ value + remaining) × (r < shares))

module _ {T : Types} (c : Constants T) (e : Equalities T) (s : Sats) {W : Type 0}
    (wallet : Wallet T W) (lawful : IsSats s) where
  pub remainder-eq-ok :
      (input_value output_value fee : ℕ) {r : ℕ}
      → remainder c e s wallet input_value output_value fee ≡ ok r
      → input_value ≡ output_value + fee + r
  unfolding remainder
  remainder-eq-ok input_value output_value fee h =
      let (left, h1, h2) = >>=-eq-ok (otherwise _ (s.checked_sub input_value output_value)) _ h in
      omega (
        arith,
        checked_sub-eq-some s lawful input_value output_value (otherwise-eq-ok _ _ h1),
        checked_sub-eq-some s lawful left fee (otherwise-eq-ok _ _ h2),
      )

  pub distribute-IsShared :
      (p : Psbt T) (bs : List (Beneficiary T)) (remaining : ℕ) (maxes : List ℕ)
      → p.outputs ≡ outs c 0 bs
      → maxes ≡ max_from 0 bs
      → let (shared, left) = distribute c e s wallet p maxes remaining in
        (shared.inputs ≡ p.inputs)
        × IsShared (fixed_total bs) remaining (count_max bs) left (value_of shared.outputs)
  unfolding distribute
  distribute-IsShared p bs remaining [] h k = (refl, inl (refl, rw h (value_of-outs c 0 bs)))
  distribute-IsShared p bs remaining (i ∷ maxes) h k =
      let all = i ∷ maxes in
      let portion = s.div remaining (length all) in
      let (r, exact, small) = lawful.div_rounds_down remaining (length all) (omega arith) in
      let shares : length all ≡ count_max bs = ap length k ∙ length-max_from 0 bs in
      let total_shared : value_of (share_out all portion (outs c 0 bs))
          ≡ fixed_total bs + count_max bs * portion =
        value_of-share_out c all portion 0 bs (λ j _. ap (λ l. contains l j) k) in
      (
        refl,
        inr (
          refl,
          r,
          rw (h, total_shared)
              (omega (arith, subst (λ n. remaining ≡ n * portion + r) shares exact)),
          subst (λ n. r < n) shares small,
        ),
      )

  abbrev with_change : Psbt T → Descriptor T → Terminal → ℕ → Psbt T
  with_change p descriptor terminal left = record p {
    outputs = p.outputs ++ (change_for c (length p.outputs) descriptor terminal left ∷ []);
  }

  construct_change-eq-ok :
      (p p' : Psbt T) (descriptor : Descriptor T) (terminal : Terminal) (left : ℕ)
      → construct_change c p descriptor terminal left ≡ ok p'
      → with_change p descriptor terminal left ≡ p'
  unfolding construct_change
  construct_change-eq-ok p p' descriptor terminal left h = ground arith

  value_of-with_change :
      (p : Psbt T) (descriptor : Descriptor T) (terminal : Terminal) (left : ℕ)
      → value_of (with_change p descriptor terminal left).outputs ≡ value_of p.outputs + left
  unfolding change_for
  value_of-with_change p descriptor terminal left = value_of-append p.outputs _ ∙ omega arith

  -- The change takes all that is left, or there is none and no more than the dust limit is left.
  pub add_change-eq-ok :
      (w w' : W) (params : TxParams T) (p p' : Psbt T) (left : ℕ) (meta : PsbtMeta T)
      → add_change c e s wallet w params p left ≡ ok (w', p', meta)
      → (p'.inputs ≡ p.inputs)
        × ((value_of p'.outputs ≡ value_of p.outputs + left)
            ⊎ ((value_of p'.outputs ≡ value_of p.outputs)
                × (left ≤ (wallet.descriptor w).dust_limit)))
  unfolding add_change
  add_change-eq-ok w w' params p p' left meta h =
      let limit = (wallet.descriptor w).dust_limit in
      elim (Bool-cases (ltb limit left)) [
        | inr small ↦
            let same : p ≡ p' = ground (arith, small) in
            rw (← same) (refl, inr (refl, ground (arith, small)))
        | inl large ↦
            let (w1, i) =
              wallet.next_derivation_index w params.change_keychain params.change_shift in
            let terminal : Terminal = record { keychain = params.change_keychain; index = i } in
            let descriptor = wallet.descriptor w1 in
            let (p1, h1, r1) =
              >>=-eq-ok (expect (construct_change c p descriptor terminal left)) _
                (rw large at h) in
            let changed =
              construct_change-eq-ok p p1 descriptor terminal left (expect-eq-ok _ h1) in
            let same : p1 ≡ p' = ground arith in
            rw (← same, ← changed) (refl, inl (value_of-with_change p descriptor terminal left))
      ]
