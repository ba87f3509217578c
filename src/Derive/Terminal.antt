-- ===== src/Derive/Terminal.antt =====
-- `Keychain` and `Terminal` of derive/src/derive.rs, and the terminal of a derivation path in
-- derive/src/path.rs.
pub mod Truncation
pub mod Text
use bp_std.Prelude.{
  ℕ, ◌-◌, ◌%◌, ◌^◌, ◌<◌, ltb, if◌then◌else◌, true, List, [], ◌∷◌, ◌++◌, Option, none, some,
}
use bp_std.Prelude.Results.{Result}
use bp_std.Derive.Index.{Idx}
use bp_std.Derive.Index.Normal.{NormalIndex}
use bp_std.Derive.Index.Normal

-- a `u8`
pub record Keychain : Type 0 where
  pub value : ℕ

-- `Keychain::OUTER`, `Keychain::INNER`
abbrev pub outer : Keychain
outer = record { value = 0 }

abbrev pub inner : Keychain
inner = record { value = 1 }

pub record Terminal : Type 0 where
  pub keychain : Keychain
  pub index : NormalIndex

-- `Terminal::change`
abbrev pub change : NormalIndex → Terminal
change i = record { keychain = inner; index = i }

-- `DerivationPath`: a vector of indexes
abbrev pub DerivationPath : Type 0 → Type 0
DerivationPath I = List I

abbrev pub reverse_onto {ℓ} : {A : Type ℓ} → List A → List A → List A
reverse_onto [] done = done
reverse_onto (a ∷ rest) done = reverse_onto rest (a ∷ done)

module _ {I : Type 0} ⦃t : Idx I⦄ where
  keychain_at : NormalIndex → List I → Option Terminal
  keychain_at i [] = none
  keychain_at i (k ∷ rest) =
      if t.is_hardened k
      then none
      else if ltb (t.child_number k) 256
      then some (record { keychain = record { value = t.child_number k }; index = i })
      else none

  terminal_of : List I → Option Terminal
  terminal_of [] = none
  terminal_of (i ∷ rest) =
      let found = keychain_at (Normal.normal (t.child_number i % 2 ^ 16)) rest in
      if t.is_hardened i then none else found

  -- `DerivationPath::terminal`: the last index is cast to a `u16`
  unfoldable pub terminal : DerivationPath I → Option Terminal
  unfolding terminal_of keychain_at
  terminal path = terminal_of (reverse_onto path [])
