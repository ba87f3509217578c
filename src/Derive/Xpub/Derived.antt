-- ===== src/Derive/Xpub/Derived.antt =====
-- What `Xpub::derive_pub` of derive/src/xpub.rs derives.
use bp_std.Prelude.{
  ◌+◌, ◌%◌, ◌<◌, List, [], ◌∷◌, ◌++◌, length, Option, none, some, ◌≡◌, ◌⊎◌, inl, inr, refl, ◌∙◌,
  sym, ap, length-append, arith, Option-cases,
}
use bp_std.Consensus.{Types}
use bp_std.Derive.Index.Normal.{NormalIndex}
use bp_std.Derive.Index.Derivation.{normal}
use bp_std.Derive.Xpub.{
  Bip32, Xpub, fingerprint, ckd_pub, ckd_pub_tweak, derive_pub, child_of, ChainCode,
}

module _ {T : Types} (b : Bip32 T) where
  abbrev then_derive : Option (Xpub T) → List NormalIndex → Option (Xpub T)
  then_derive none path = none
  then_derive (some x) path = derive_pub b x path

  derive_pub-append :
      (x : Xpub T) (p q : List NormalIndex)
      → derive_pub b x (p ++ q) ≡ then_derive (derive_pub b x p) q
  unfolding derive_pub
  derive_pub-append x [] q = refl
  derive_pub-append x (i ∷ p) q = elim (Option-cases (ckd_pub b x i)) [
    | inl fails ↦ rw (derive_pub, fails) refl
    | inr (child, found) ↦ rw (derive_pub, found, derive_pub-append child p q) refl
  ]

  ckd_pub-cases :
      (x : Xpub T) (i : NormalIndex)
      → (ckd_pub b x i ≡ none)
        ⊎ ((tweaked : T.CompressedPk) × (chain_code : ChainCode) × (ckd_pub b x i
              ≡ some (child_of b x i tweaked chain_code)))
  unfolding ckd_pub
  ckd_pub-cases x i = elim (Option-cases (ckd_pub_tweak b x i)) [
    | inl fails ↦ inl (rw (ckd_pub, fails) refl)
    | inr ((scalar, chain_code), found) ↦
        elim (Option-cases (b.add_exp_tweak x.core.public_key scalar)) [
          | inl fails ↦ inl (rw (ckd_pub, found, fails) refl)
          | inr (tweaked, added) ↦ inr (tweaked, chain_code, rw (ckd_pub, found, added) refl)
        ]
  ]

  derive_pub-step :
      (x child : Xpub T) (i : NormalIndex) (path : List NormalIndex)
      → ckd_pub b x i ≡ some child
      → derive_pub b x (i ∷ path) ≡ derive_pub b child path
  unfolding derive_pub
  derive_pub-step x child i path found = rw (derive_pub, found) refl

  derive_pub-stop :
      (x : Xpub T) (i : NormalIndex) (path : List NormalIndex)
      → ckd_pub b x i ≡ none
      → derive_pub b x (i ∷ path) ≡ none
  unfolding derive_pub
  derive_pub-stop x i path fails = rw (derive_pub, fails) refl

  derive_pub-depth :
      (x y : Xpub T) (path : List NormalIndex)
      → x.meta.depth < 256
      → derive_pub b x path ≡ some y
      → (y.testnet ≡ x.testnet) × (y.meta.depth ≡ (x.meta.depth + length path) % 256)
  unfolding derive_pub
  derive_pub-depth x y [] small h =
      let same : x ≡ y = cc in rw (← same) (refl, omega (arith, small))
  derive_pub-depth x y (i ∷ path) small h = elim (ckd_pub-cases x i) [
    | inl fails ↦ let g = derive_pub-stop x i path fails in cc
    | inr (tweaked, chain_code, found) ↦
        let child = child_of b x i tweaked chain_code in
        let (network, depth) =
          derive_pub-depth child y path (omega arith)
            (sym (derive_pub-step x child i path found) ∙ h) in
        (network, omega (arith, depth))
  ]

  derive_pub-last : (x : Xpub T) (i : NormalIndex) → derive_pub b x (i ∷ []) ≡ ckd_pub b x i
  unfolding derive_pub
  derive_pub-last x i = elim (Option-cases (ckd_pub b x i)) [
    | inl fails ↦ derive_pub-stop x i [] fails ∙ sym fails
    | inr (child, found) ↦ derive_pub-step x child i [] found ∙ sym found
  ]

  child-names :
      (x y : Xpub T) (i : NormalIndex)
      → ckd_pub b x i ≡ some y
      → (y.meta.parent_fp ≡ fingerprint b x) × (y.meta.child_number ≡ normal i)
  child-names x y i h = elim (ckd_pub-cases x i) [
    | inl fails ↦ cc
    | inr (tweaked, chain_code, made) ↦
        let same : child_of b x i tweaked chain_code ≡ y = cc in rw (← same) (refl, refl)
  ]

  -- A key that was derived along a path and one more index is the child of that index of the key
  -- derived along the path: it names it as its parent and the index as its number. It stays in the
  -- network, and its depth grew by one for each index, as a byte.
  pub derive_pub-child :
      (x y : Xpub T) (path : List NormalIndex) (i : NormalIndex)
      → x.meta.depth < 256
      → derive_pub b x (path ++ i ∷ []) ≡ some y
      → (parent : Xpub T) × (derive_pub b x path ≡ some parent)
        × (ckd_pub b parent i ≡ some y)
        × (y.meta.parent_fp ≡ fingerprint b parent)
        × (y.meta.child_number ≡ normal i)
        × (y.testnet ≡ x.testnet)
        × (y.meta.depth ≡ (x.meta.depth + length path + 1) % 256)
  unfolding derive_pub
  derive_pub-child x y path i small h =
      let split = derive_pub-append x path (i ∷ []) in
      let (network, depth) = derive_pub-depth x y (path ++ i ∷ []) small h in
      elim (Option-cases (derive_pub b x path)) [
        | inl fails ↦
            let g : none ≡ some y = sym (ap (λ o. then_derive o (i ∷ [])) fails) ∙ sym split ∙ h in
            cc
        | inr (parent, found) ↦
            let g : ckd_pub b parent i ≡ some y =
              sym (derive_pub-last parent i)
              ∙ sym (ap (λ o. then_derive o (i ∷ [])) found)
              ∙ sym split
              ∙ h in
            let (fp, number) = child-names parent y i g in
            (
              parent,
              found,
              g,
              fp,
              number,
              network,
              omega (arith, depth, length-append path (i ∷ [])),
            )
      ]
