-- ===== src/Derive/Terminal/Truncation.antt =====
-- What `DerivationPath::terminal` of derive/src/path.rs makes of the last two indexes.
use bp_std.Prelude.{
  ◌%◌, ◌^◌, ◌≤◌, ◌<◌, List, [], ◌∷◌, ◌++◌, none, some, ◌≡◌, refl, ◌⊎◌, arith, true,
}
use bp_std.Derive.Index.Normal.{NormalIndex}
use bp_std.Derive.Index.Derivation
use bp_std.Derive.Index.Derivation.{DerivationIndex, normal, hardened, derivation_idx}
use bp_std.Derive.Terminal.{DerivationPath, reverse_onto, terminal}

module _ {A : Type 0} where
  pub reverse_onto-append :
      (xs : List A) (a b : A) (done : List A)
      → reverse_onto (xs ++ (a ∷ b ∷ [])) done ≡ b ∷ a ∷ reverse_onto xs done
  reverse_onto-append [] a b done = refl
  reverse_onto-append (x ∷ xs) a b done = reverse_onto-append xs a b (x ∷ done)

module _ (path : DerivationPath DerivationIndex) where
  -- A path that ends in two normal indexes, the first of them below 256, has a terminal: that
  -- index is the keychain, but of the last one only the lower 16 bits are kept.
  pub terminal_truncates :
      (k i : NormalIndex)
      → k.value < 256
      → terminal (path ++ (normal k ∷ normal i ∷ []))
        ≡ some (record {
          keychain = record { value = k.value };
          index = record { value = i.value % 2 ^ 16 };
        })
  unfolding terminal Derivation.is_hardened Derivation.child_number
  terminal_truncates k i h = rw (reverse_onto-append path (normal k) (normal i) []) (ground arith)

  -- A path has no terminal if one of its last two indexes is hardened or if the first of them is
  -- no byte.
  terminal_refuses :
      (a b : DerivationIndex)
      → (Derivation.is_hardened a ≡ true)
        ⊎ (Derivation.is_hardened b ≡ true)
        ⊎ (256 ≤ Derivation.child_number a)
      → terminal (path ++ (a ∷ b ∷ [])) ≡ none
  unfolding terminal Derivation.is_hardened Derivation.child_number
  terminal_refuses a b h = rw (reverse_onto-append path a b []) (ground arith)
