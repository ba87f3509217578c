-- ===== src/Prelude/Text.antt =====
-- Functions on `str` of the standard library, over the bytes of the text.
use Prim.Native.Nat.{ℕ}
use mathlib.Core.Path.{◌≡◌, refl}
use mathlib.Core.Logic.{◌≢◌}
use mathlib.Core.Bool.{Bool, false}
use mathlib.Core.Option.{Option, none, some}
use mathlib.Core.List.{List, [], ◌∷◌, ◌++◌}
use native.Mathlib.Omega.{arith}
use bp_std.Prelude.Tests.{◌==◌, if◌then◌else◌}
use bp_std.Prelude.Lists.{Bytes, All}
use bp_std.Prelude.Results.{Result, ok, err}

-- the first part gets one more character
abbrev pub extend : ℕ → List Bytes → List Bytes
extend c [] = (c ∷ []) ∷ []
extend c (part ∷ parts) = (c ∷ part) ∷ parts

-- `split`, at a single character
unfoldable pub split : ℕ → Bytes → List Bytes
split sep [] = [] ∷ []
split sep (c ∷ s) = let parts = split sep s in if c == sep then [] ∷ parts else extend c parts

-- `split_once`
unfoldable pub split_once : ℕ → Bytes → Option (Bytes × Bytes)
split_once sep [] = none
split_once sep (c ∷ s) =
    let found = split_once sep s in
    if c == sep
    then some ([], s)
    else elim found [ none ↦ none | some (before, after) ↦ some (c ∷ before, after) ]

-- `strip_suffix` of one character
unfoldable pub strip_suffix : (ℕ → Bool) → Bytes → Option Bytes
strip_suffix test [] = none
strip_suffix test (c ∷ []) = if test c then some [] else none
strip_suffix test (c ∷ d ∷ s) = elim (strip_suffix test (d ∷ s)) [
  | none ↦ none
  | some rest ↦ some (c ∷ rest)
]

-- `trim_start_matches` of one character
unfoldable pub trim_start : ℕ → Bytes → Bytes
trim_start sep [] = []
trim_start sep (c ∷ s) = let rest = trim_start sep s in if c == sep then rest else c ∷ s

-- `trim_end_matches` of one character
abbrev pub unless_last : ℕ → ℕ → Bytes → Bytes
unless_last sep c [] = if c == sep then [] else c ∷ []
unless_last sep c (d ∷ rest) = c ∷ d ∷ rest

unfoldable pub trim_end : ℕ → Bytes → Bytes
trim_end sep [] = []
trim_end sep (c ∷ s) = unless_last sep c (trim_end sep s)

-- `starts_with` of one character
abbrev pub starts_with : ℕ → Bytes → Bool
starts_with sep [] = false
starts_with sep (c ∷ s) = c == sep

-- no character is the separator
abbrev pub Lacks : ℕ → Bytes → Type 0
Lacks sep = All (λ c. c ≢ sep)

pub split-append :
    (sep : ℕ) (part rest : Bytes)
    → Lacks sep part
    → split sep (part ++ sep ∷ rest) ≡ part ∷ split sep rest
unfolding split
split-append sep [] rest h = ground arith
split-append sep (c ∷ part) rest (hc, h) = ground (arith, split-append sep part rest h)

pub split_last : (sep : ℕ) (part : Bytes) → Lacks sep part → split sep part ≡ part ∷ []
unfolding split
split_last sep [] h = refl
split_last sep (c ∷ part) (hc, h) = ground (arith, split_last sep part h)

pub split_once-append :
    (sep : ℕ) (part rest : Bytes)
    → Lacks sep part
    → split_once sep (part ++ sep ∷ rest) ≡ some (part, rest)
unfolding split_once
split_once-append sep [] rest h = ground arith
split_once-append sep (c ∷ part) rest (hc, h) = ground (arith, split_once-append sep part rest h)

pub split_once_last : (sep : ℕ) (part : Bytes) → Lacks sep part → split_once sep part ≡ none
unfolding split_once
split_once_last sep [] h = refl
split_once_last sep (c ∷ part) (hc, h) = ground (arith, split_once_last sep part h)

pub strip_suffix-append :
    (test : ℕ → Bool) (s : Bytes) (c : ℕ)
    → strip_suffix test (s ++ c ∷ []) ≡ (if test c then some s else none)
unfolding strip_suffix
strip_suffix-append test [] c = refl
strip_suffix-append test (a ∷ []) c = ground arith
strip_suffix-append test (a ∷ b ∷ s) c = ground (arith, strip_suffix-append test (b ∷ s) c)

pub strip_suffix-none :
    (test : ℕ → Bool) (s : Bytes) → All (λ c. test c ≡ false) s → strip_suffix test s ≡ none
unfolding strip_suffix
strip_suffix-none test [] h = refl
strip_suffix-none test (a ∷ []) (h, _) = rw h refl
strip_suffix-none test (a ∷ b ∷ s) (ha, h) = rw (strip_suffix-none test (b ∷ s) h) refl

pub trim_start-Lacks : (sep : ℕ) (s : Bytes) → Lacks sep s → trim_start sep s ≡ s
unfolding trim_start
trim_start-Lacks sep [] h = refl
trim_start-Lacks sep (c ∷ s) (hc, h) = ground arith

pub trim_start-first :
    (sep : ℕ) (s rest : Bytes) → s ≢ [] → Lacks sep s → trim_start sep (s ++ rest) ≡ s ++ rest
unfolding trim_start
trim_start-first sep [] rest some_text h = absurd (some_text refl)
trim_start-first sep (c ∷ s) rest some_text (hc, h) = ground arith

pub trim_end-Lacks : (sep : ℕ) (s : Bytes) → Lacks sep s → trim_end sep s ≡ s
unfolding trim_end
trim_end-Lacks sep [] h = refl
trim_end-Lacks sep (c ∷ []) (hc, h) = ground arith
trim_end-Lacks sep (c ∷ d ∷ s) (hc, h) = rw (trim_end-Lacks sep (d ∷ s) h) refl

pub trim_end-append : (sep : ℕ) (s : Bytes) → Lacks sep s → trim_end sep (s ++ sep ∷ []) ≡ s
unfolding trim_end
trim_end-append sep [] h = ground arith
trim_end-append sep (c ∷ []) (hc, h) = ground arith
trim_end-append sep (c ∷ d ∷ s) (hc, h) = rw (trim_end-append sep (d ∷ s) h) refl

pub Lacks-append : (sep : ℕ) (a b : Bytes) → Lacks sep a → Lacks sep b → Lacks sep (a ++ b)
Lacks-append sep [] b ha hb = hb
Lacks-append sep (c ∷ a) b (hc, ha) hb = (hc, Lacks-append sep a b ha hb)

-- `map(f).collect::<Result<Vec<_>, _>>()`: the first error ends it
unfoldable pub traverse {ε ℓ κ} :
    {E : Type ε} {A : Type ℓ} {B : Type κ} → (A → Result E B) → List A → Result E (List B)
traverse f [] = ok []
traverse f (a ∷ as') = elim (f a) [
  | err e ↦ err e
  | ok b ↦ elim (traverse f as') [ err e ↦ err e | ok bs ↦ ok (b ∷ bs) ]
]
