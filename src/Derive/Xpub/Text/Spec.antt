-- ===== src/Derive/Xpub/Text/Spec.antt =====
-- The guards of `XpubSpec::from_str` of derive/src/xpub.rs, and what a path that is read is made of.
use bp_std.Prelude.{
  zero, suc, ℕ, Bytes, List, [], ◌∷◌, length, ◌==◌, not, Bool, true, false, if◌then◌else◌, Option,
  none, some, ◌≡◌, ◌≢◌, inl, inr, refl, ◌∙◌, sym, ap, All, Bool-cases, Option-cases, arith,
  get_elem?,
}
use bp_std.Prelude.Text.{traverse, split, strip_suffix}
use bp_std.Prelude.Results.{Result, ok, err, map_err, >>=-eq-ok, Result-cases}
use bp_std.Consensus.{Types}
use bp_std.Derive.Index.Hardened
use bp_std.Derive.Index.Hardened.{HardenedIndex, IsReduced}
use bp_std.Derive.Index.Derivation.{DerivationIndex, normal, hardened}
use bp_std.Derive.Index.Text.{IndexParseError, invalid, hardened_mark, parse_hardened, word}
use bp_std.Derive.Path.{parse_path, strip_slash}
use bp_std.Derive.Origins.{XpubOrigin}
use bp_std.Derive.Xpub.{Bip32, Xpub}
use bp_std.Derive.Xpub.Text.{
  XpubSpec, depth_mismatch, network_mismatch, parent_mismatch, network_index, hardened_is, last,
  names_child, checked_spec,
}

try_from_child_number-IsReduced :
    (n : ℕ) (i : HardenedIndex) → Hardened.try_from_child_number n ≡ ok i → IsReduced i
unfolding Hardened.try_from_child_number
try_from_child_number-IsReduced n i h = ground arith

ok-ne-err : {E A : Type 0} {a : A} {e : E} → ok a ≢ err e
ok-ne-err h = cc

module _ {I : Type 0} (from_str : Bytes → Result IndexParseError I) (P : I → Type 0) where
  traverse-All :
      ((s : Bytes) (i : I) → from_str s ≡ ok i → P i)
      → (parts : List Bytes) (items : List I) → traverse from_str parts ≡ ok items
      → All P items
  unfolding traverse
  traverse-All good [] items h = let e : [] ≡ items = cc in rw (← e) tt
  traverse-All good (s ∷ parts) items h = elim (Result-cases (from_str s)) [
    | inr (e, fails) ↦
        let stops : traverse from_str (s ∷ parts) ≡ err e = rw (traverse, fails) refl in
        absurd (ok-ne-err (sym h ∙ stops))
    | inl (i, read) ↦ elim (Result-cases (traverse from_str parts)) [
      | inr (e, fails) ↦
          let stops : traverse from_str (s ∷ parts) ≡ err e = rw (traverse, read, fails) refl in
          absurd (ok-ne-err (sym h ∙ stops))
      | inl (rest, more) ↦
          let whole : traverse from_str (s ∷ parts) ≡ ok (i ∷ rest) =
            rw (traverse, read, more) refl in
          let all = sym whole ∙ h in
          let e : i ∷ rest ≡ items = cc in
          rw (← e) (good s i read, traverse-All good parts rest more)
    ]
  ]

length-ne-0 : {I : Type 0} (path : List I) → path ≢ [] → (length path == 0) ≡ false
length-ne-0 [] some_path = absurd (some_path refl)
length-ne-0 (i ∷ path) some_path = ground arith

guard-ok :
    {E A : Type 0} (test : Bool) (e : E) (r : Result E A) {a : A}
    → (if not test then err e else r) ≡ ok a
    → (test ≡ true) × (r ≡ ok a)
guard-ok true e r h = (refl, h)
guard-ok false e r h = cc

hardened_is-ok :
    (found : Option HardenedIndex) (j : HardenedIndex) → hardened_is found j ≡ true → found ≡ some j
hardened_is-ok none j h = cc
hardened_is-ok (some i) j h =
    let e : i.value ≡ j.value = ground arith in ap (λ n. some (record { value = n })) e

get_elem?-All :
    {I : Type 0} (P : I → Type 0) (path : List I) (k : ℕ) (i : I)
    → All P path
    → get_elem? path k ≡ some i
    → P i
get_elem?-All P [] k i all h = cc
get_elem?-All P (j ∷ path) zero i (hj, all) h = let e : j ≡ i = cc in rw (← e) hj
get_elem?-All P (j ∷ path) (suc k) i (hj, all) h = get_elem?-All P path k i all h

names_child-ok :
    {T : Types} (b : Bip32 T) (found : Option HardenedIndex) (child : DerivationIndex)
    → names_child b found child ≡ true
    → (i : HardenedIndex) × (found ≡ some i) × (child ≡ hardened i)
names_child-ok b none child h = cc
names_child-ok b (some i) (normal j) h = cc
names_child-ok b (some i) (hardened j) h = (i, refl, ground arith)

module _ {T : Types} (b : Bip32 T) where
  -- An origin and a key that go together: as many indexes as the key is deep, the second one that
  -- of the test network, and the last one the child number.
  pub record Matches (o : XpubOrigin T) (x : Xpub T) : Type 0 where
    pub test_network : x.testnet ≡ true
    pub second : get_elem? o.derivation 1 ≡ some (record { value = 1 })
    pub depth : length o.derivation ≡ x.meta.depth
    pub child :
        (i : HardenedIndex) × (last o.derivation ≡ some i) × (x.meta.child_number ≡ hardened i)

  network-test :
      (o : XpubOrigin T) (x : Xpub T)
      → All IsReduced o.derivation
      → get_elem? o.derivation 1 ≡ some (network_index b x)
      → x.testnet ≡ true
  network-test o x reduced found = elim (Bool-cases x.testnet) [
    | inl test ↦ test
    | inr main ↦
        let second = get_elem?-All IsReduced o.derivation 1 (network_index b x) reduced found in
        absurd (omega (arith, rw main at second))
  ]

  pub checked_spec-Matches :
      (o : XpubOrigin T) (x : Xpub T) (spec : XpubSpec b)
      → o.derivation ≢ []
      → All IsReduced o.derivation
      → checked_spec b o x ≡ ok spec
      → Matches spec.origin spec.xpub
  unfolding checked_spec
  checked_spec-Matches o x spec some_path reduced h =
      let (depth, h1) = guard-ok (length o.derivation == x.meta.depth) depth_mismatch _ h in
      let h2 = rw (length-ne-0 o.derivation some_path) at h1 in
      let (second, h3) =
        guard-ok (hardened_is (get_elem? o.derivation 1) (network_index b x)) network_mismatch _
          h2 in
      let (child, h4) =
        guard-ok (names_child b (last o.derivation) x.meta.child_number) parent_mismatch _ h3 in
      let found = hardened_is-ok (get_elem? o.derivation 1) (network_index b x) second in
      let same : record { origin = o; xpub = x } ≡ spec = cc in
      let deep : length o.derivation ≡ x.meta.depth = ground arith in
      let network = network-test o x reduced found in
      let matches : Matches o x = record {
        test_network = network;
        second = rw network at found;
        depth = deep;
        child = names_child-ok b (last o.derivation) x.meta.child_number child;
      } in
      rw (← same) matches

pub map_err-ok :
    {E F A : Type 0} (f : E → F) (r : Result E A) {a : A} → map_err f r ≡ ok a → r ≡ ok a
map_err-ok f (ok a) h = cc
map_err-ok f (err e) h = cc

parse_hardened-IsReduced : (s : Bytes) (i : HardenedIndex) → parse_hardened s ≡ ok i → IsReduced i
unfolding parse_hardened
parse_hardened-IsReduced s i h = elim (Option-cases (strip_suffix hardened_mark s)) [
  | inl absent ↦ let h' = rw (parse_hardened, absent) at h in cc
  | inr (rest, found) ↦
      let h' = rw (parse_hardened, found) at h in
      let (n, number, made) = >>=-eq-ok (word rest) _ h' in
      try_from_child_number-IsReduced n i (map_err-ok invalid _ made)
]

pub parse_path-ok :
    (s : Bytes) (path : List HardenedIndex)
    → parse_path parse_hardened s ≡ ok path
    → (path ≢ []) × All IsReduced path
unfolding parse_path
parse_path-ok s path h =
    let parts = split b'/' (strip_slash s) in
    elim (Result-cases (traverse parse_hardened parts)) [
      | inr (e, fails) ↦ let h' = rw (parse_path, fails) at h in cc
      | inl ([], read) ↦ let h' = rw (parse_path, read) at h in cc
      | inl (i ∷ items, read) ↦
          let h' = rw (parse_path, read) at h in
          let same : i ∷ items ≡ path = cc in
          rw (← same) (
            (λ e. cc),
            traverse-All parse_hardened IsReduced parse_hardened-IsReduced parts (i ∷ items) read,
          )
    ]
