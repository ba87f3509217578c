-- ===== src/Psbt/Constructor/Conservation.antt =====
-- Where the coins go in `construct_psbt` of psbt/src/constructor.rs.
use bp_std.Prelude.{
  ℕ, ◌+◌, ◌≤◌, ◌<◌, List, [], ◌∷◌, Option, none, some, ◌≡◌, ◌⊎◌, refl, ◌∙◌, arith, inl, inr,
}
use bp_std.Prelude.Results.{ok, >>=-eq-ok}
use bp_std.Consensus.{Types, Constants, Equalities, Sats, IsSats}
use bp_std.Derive.Terminal.{Terminal}
use bp_std.Psbt.Ver.{v2}
use bp_std.Derive.Origins.{XpubOrigin}
use bp_std.Psbt.Data.Tx.{Outpoint, Prevout}
use bp_std.Psbt.Data.Descriptor.{Descriptor}
use bp_std.Psbt.Data.Container.{Psbt, create, input_sum}
use bp_std.Psbt.Data.Construct.{construct_input}
use bp_std.Psbt.Constructor.{
  Beneficiary, TxParams, PsbtMeta, Wallet, add_xpubs, add_inputs, add_outputs, remainder,
  distribute, add_change, require_inputs, construct_psbt, expect, found,
}
use bp_std.Psbt.Constructor.Sharing.{
  IsShared, remainder-eq-ok, distribute-IsShared, add_change-eq-ok,
}
use bp_std.Prelude.IndexMap
use bp_std.Psbt.Constructor.Outputs.{
  value_of, fixed_total, count_max, max_from, outs, add_outputs-eq-ok, expect-eq-ok,
}

-- the excess over the fee that was asked for
excess_lem :
    (value fixed remaining fee shares left shared_value final limit : ℕ)
    → value ≡ fixed + fee + remaining
    → IsShared fixed remaining shares left shared_value
    → ((final ≡ shared_value + left) ⊎ ((final ≡ shared_value) × (left ≤ limit)))
    → (excess : ℕ) × (value ≡ final + fee + excess) × ((excess ≤ limit) ⊎ (excess < shares))
excess_lem value fixed remaining fee shares left shared_value final limit v (inl (l, sv)) (inl f) =
    (0, omega (arith, v, l, sv, f), inl (omega arith))
excess_lem value fixed remaining fee shares left shared_value final limit v (inl (l, sv))
      (inr (f, d)) =
    (left, omega (arith, v, l, sv, f), inl d)
excess_lem value fixed remaining fee shares left shared_value final limit v (inr (l, r, sv, d))
      (inl f) =
    (r, omega (arith, v, l, sv, f), inr d)
excess_lem value fixed remaining fee shares left shared_value final limit v (inr (l, r, sv, d))
      (inr (f, _)) =
    (r, omega (arith, v, l, sv, f), inr d)

module _ {T : Types} (c : Constants T) (e : Equalities T) (s : Sats) {W : Type 0}
    (wallet : Wallet T W) (lawful : IsSats s) where
  add_xpubs-outputs :
      (p : Psbt T) (xpubs : List (T.Xpub × XpubOrigin T))
      → (add_xpubs c e s wallet p xpubs).outputs ≡ p.outputs
  unfolding add_xpubs
  add_xpubs-outputs p [] = refl
  add_xpubs-outputs p ((xpub, origin) ∷ rest) =
      add_xpubs-outputs (record p { xpubs = IndexMap.insert ⦃e = e.xpub⦄ xpub origin p.xpubs }) rest

  construct_input-outputs :
      (p p' : Psbt T) (prevout : Prevout T) (descriptor : Descriptor T) (terminal : Terminal)
      (sequence : T.SeqNo)
      → construct_input c p prevout descriptor terminal sequence ≡ ok p'
      → p'.outputs ≡ p.outputs
  unfolding construct_input
  construct_input-outputs p p' prevout descriptor terminal sequence h = ground arith

  add_inputs-outputs :
      (w : W) (params : TxParams T) (p p' : Psbt T) (coins : List (Outpoint T))
      → add_inputs c e s wallet w params p coins ≡ ok p'
      → p'.outputs ≡ p.outputs
  unfolding add_inputs
  add_inputs-outputs w params p p' [] h = ground arith
  add_inputs-outputs w params p p' (coin ∷ coins) h =
      let (utxo, h1, r1) = >>=-eq-ok (found (wallet.utxo w coin)) _ h in
      let (p1, h2, r2) = >>=-eq-ok (expect (construct_input c p _ _ _ _)) _ r1 in
      add_inputs-outputs w params p1 p' coins r2
      ∙ construct_input-outputs p p1 _ _ _ _ (expect-eq-ok _ h2)

  -- what is paid out of the inputs' value, from the loop over the beneficiaries on
  pay-conserves :
      (w w' : W) (bs : List (Beneficiary T)) (params : TxParams T) (ready paid psbt : Psbt T)
      (meta : PsbtMeta T) (value output_value remaining : ℕ) (maxes : List ℕ)
      → ready.outputs ≡ []
      → add_outputs c e s wallet ready 0 [] bs ≡ ok (paid, output_value, maxes)
      → remainder c e s wallet value output_value params.fee ≡ ok remaining
      → add_change c e s wallet w params
          (distribute c e s wallet paid maxes remaining).0
          (distribute c e s wallet paid maxes remaining).1
        ≡ ok (w', psbt, meta)
      → (psbt.inputs ≡ ready.inputs)
        × ((excess : ℕ) × (value ≡ value_of psbt.outputs + params.fee + excess)
            × ((excess ≤ (wallet.descriptor w).dust_limit) ⊎ (excess < count_max bs)))
  pay-conserves w w' bs params ready paid psbt meta value output_value remaining maxes empty h1 h2
        h3 =
      let (pushed, sums, indexes) =
        add_outputs-eq-ok c e s wallet lawful ready paid 0 output_value [] maxes bs h1 in
      let outputs : paid.outputs ≡ outs c 0 bs = rw (pushed, empty) refl in
      let places : maxes ≡ max_from 0 bs = indexes ∙ rw empty refl in
      let (same, shared) =
        distribute-IsShared c e s wallet lawful paid bs remaining maxes outputs places in
      let (kept, changed) = add_change-eq-ok c e s wallet lawful w w' params _ psbt _ meta h3 in
      let whole = remainder-eq-ok c e s wallet lawful value output_value params.fee h2 in
      (
        kept ∙ same ∙ rw pushed refl,
        excess_lem value (fixed_total bs) remaining params.fee (count_max bs) _ _ _ _
            (omega (arith, whole, sums)) shared changed,
      )

  require_inputs-eq-ok : (p p' : Psbt T) → require_inputs c e s wallet p ≡ ok p' → p ≡ p'
  require_inputs-eq-ok p p' h = ground arith

  input_sum-inputs : (p p' : Psbt T) → p.inputs ≡ p'.inputs → input_sum s p ≡ input_sum s p'
  unfolding input_sum
  input_sum-inputs p p' h = rw h refl

  found-eq-ok : {F A : Type 0} (o : Option A) {a : A} → found {F = F} o ≡ ok a → o ≡ some a
  found-eq-ok none h = cc
  found-eq-ok (some b) h = ground arith

  -- Where a PSBT is constructed, the sum of its inputs is that of its outputs, the fee that was
  -- asked for, and an excess: no more than the dust limit, or less than one unit for each payment
  -- that takes what remains.
  pub construct_psbt-conserves :
      (w w' : W) (coins : List (Outpoint T)) (bs : List (Beneficiary T)) (params : TxParams T)
      (psbt : Psbt T) (meta : PsbtMeta T)
      → construct_psbt c e s wallet w coins bs params ≡ ok (w', psbt, meta)
      → (value excess : ℕ) × (input_sum s psbt ≡ some value)
        × (value ≡ value_of psbt.outputs + params.fee + excess)
        × ((excess ≤ (wallet.descriptor w).dust_limit) ⊎ (excess < count_max bs))
  unfolding construct_psbt
  construct_psbt-conserves w w' coins bs params psbt meta h =
      let bare : Psbt T = record (create c v2) { fallback_locktime = params.lock_time } in
      let start = add_xpubs c e s wallet bare (wallet.descriptor w).xpubs in
      let (filled, h1, r1) = >>=-eq-ok (add_inputs c e s wallet w params start coins) _ h in
      let (ready, h2, r2) = >>=-eq-ok (require_inputs c e s wallet filled) _ r1 in
      let (value, h3, r3) = >>=-eq-ok (found (input_sum s ready)) _ r2 in
      let ((paid, output_value, maxes), h4, r4) =
        >>=-eq-ok (add_outputs c e s wallet ready 0 [] bs) _ r3 in
      let (remaining, h5, r5) =
        >>=-eq-ok (remainder c e s wallet value output_value params.fee) _ r4 in
      let untouched : ready.outputs ≡ [] = rw (← require_inputs-eq-ok filled ready h2) (
        add_inputs-outputs w params start filled coins h1
        ∙ add_xpubs-outputs bare (wallet.descriptor w).xpubs) in
      let (inputs, (excess, sums, small)) =
        pay-conserves w w' bs params ready paid psbt meta value output_value remaining maxes
          untouched h4 h5 r5 in
      (
        value,
        excess,
        input_sum-inputs psbt ready inputs ∙ found-eq-ok (input_sum s ready) h3,
        sums,
        small,
      )
