-- ===== src/Derive/Xpub/Text/Accepted.antt =====
-- What `XpubSpec::from_str` of derive/src/xpub.rs accepts, and that it never reads what `Display`
-- writes.
use bp_std.Prelude.{
  ℕ, Bytes, [], ◌∷◌, ◌++◌, ◌==◌, Bool, false, none, some, ◌≡◌, ◌≢◌, inl, inr, refl, ◌∙◌, sym, ap,
  All, Bool-cases, Option-cases, arith, append_assoc,
}
use bp_std.Prelude.Text.{split_once, trim_start, starts_with}
use bp_std.Prelude.Results.{ok, map_err, >>=-eq-ok}
use bp_std.Consensus.{Types}
use bp_std.Derive.Index.Hardened.{IsReduced}
use bp_std.Derive.Index.Text.{parse_hardened}
use bp_std.Derive.Path.{parse_path}
use bp_std.Derive.Origins.{XpubOrigin}
use bp_std.Derive.Xpub.{Bip32, IsBip32, Xpub}
use bp_std.Derive.Xpub.Origin
use bp_std.Derive.Xpub.Origin.{
  OriginParseError, fingerprint_of, parse_xpub_origin, show_xpub_origin,
}
use bp_std.Derive.Xpub.Text.{
  XpubSpec, from_origin, parse_xpub, show_xpub, checked_spec, parse_spec, show_spec,
}
use bp_std.Derive.Xpub.Text.Spec.{Matches, checked_spec-Matches, parse_path-ok, map_err-ok}

module _ {T : Types} (b : Bip32 T) where
  parse_xpub_origin-ok :
      (s : Bytes) (o : XpubOrigin T)
      → parse_xpub_origin b s ≡ ok o
      → (o.derivation ≢ []) × All IsReduced o.derivation
  unfolding parse_xpub_origin
  parse_xpub_origin-ok s o h =
      let ((fp, path), found, h1) =
        >>=-eq-ok (fingerprint_of b Origin.invalid_master_fp (split_once b'/' s)) _ h in
      let (derivation, read, h2) =
        >>=-eq-ok (map_err Origin.derivation_path (parse_path parse_hardened path)) _ h1 in
      let same : derivation ≡ o.derivation = cc in
      rw (← same) (parse_path-ok path derivation (map_err-ok Origin.derivation_path _ read))

  -- the parts of a text that is read
  parse_spec-parts :
      (s : Bytes) (spec : XpubSpec b)
      → parse_spec b s ≡ ok spec
      → (o : XpubOrigin T) × (x : Xpub T) × (origin_text : Bytes) × (xpub_text : Bytes)
        × (split_once b']' (trim_start b'[' s) ≡ some (origin_text, xpub_text))
        × (parse_xpub_origin b origin_text ≡ ok o)
        × (parse_xpub b xpub_text ≡ ok x)
        × (checked_spec b o x ≡ ok spec)
  unfolding parse_spec
  parse_spec-parts s spec h = elim (Bool-cases (starts_with b'[' s)) [
    | inr other ↦ let h' = rw (parse_spec, other) at h in cc
    | inl starts ↦ elim (Option-cases (split_once b']' (trim_start b'[' s))) [
      | inl absent ↦ let h' = rw (parse_spec, starts, absent) at h in cc
      | inr ((origin_text, xpub_text), found) ↦
          let h' = rw (parse_spec, starts, found) at h in
          let (o, read, h1) =
            >>=-eq-ok (map_err from_origin (parse_xpub_origin b origin_text)) _ h' in
          let (x, key, h2) = >>=-eq-ok (parse_xpub b xpub_text) _ h1 in
          (o, x, origin_text, xpub_text, found, map_err-ok from_origin _ read, key, h2)
    ]
  ]

  -- The text of a specification is accepted only for an extended key of the test network whose
  -- depth is the number of the indexes of its origin, of which the second is 1 and the last is its
  -- child number.
  pub parse_spec-Matches :
      (s : Bytes) (spec : XpubSpec b) → parse_spec b s ≡ ok spec → Matches b spec.origin spec.xpub
  parse_spec-Matches s spec h =
      let (o, x, _, _, _, read, _, checked) = parse_spec-parts s spec h in
      let (some_path, reduced) = parse_xpub_origin-ok _ o read in
      checked_spec-Matches b o x spec some_path reduced checked

slash-other : (sep : ℕ) → sep ≢ b'/' → (b'/' == sep) ≡ false
slash-other sep other = elim (Bool-cases (b'/' == sep)) [
  | inr differs ↦ differs
  | inl same ↦ let e : sep ≡ b'/' = ground arith in absurd (other e)
]

-- what is left of a text that ends in a slash ends in it
split_once-slash :
    (sep : ℕ) (s before after : Bytes)
    → sep ≢ b'/'
    → split_once sep (s ++ b'/' ∷ []) ≡ some (before, after)
    → (rest : Bytes) × (after ≡ rest ++ b'/' ∷ [])
unfolding split_once
split_once-slash sep [] before after other h = let h' = rw (slash-other sep other) at h in cc
split_once-slash sep (c ∷ s) before after other h = elim (Bool-cases (c == sep)) [
  | inl here ↦ let h' = rw here at h in (s, cc)
  | inr later ↦ elim (Option-cases (split_once sep (s ++ b'/' ∷ []))) [
    | inl absent ↦ let h' = rw (later, absent) at h in cc
    | inr ((front, back), found) ↦
        let h' = rw (later, found) at h in
        let (rest, tail) = split_once-slash sep s front back other found in
        (rest, let e : back ≡ after = cc in sym e ∙ tail)
  ]
]

trim_start-slash :
    (sep : ℕ) (s : Bytes)
    → sep ≢ b'/'
    → (rest : Bytes) × (trim_start sep (s ++ b'/' ∷ []) ≡ rest ++ b'/' ∷ [])
unfolding trim_start
trim_start-slash sep [] other = ([], rw (slash-other sep other) refl)
trim_start-slash sep (c ∷ s) other = elim (Bool-cases (c == sep)) [
  | inl here ↦ let (rest, e) = trim_start-slash sep s other in (rest, rw here e)
  | inr there ↦ (c ∷ s, rw there refl)
]

module _ {T : Types} (b : Bip32 T) (lawful : IsBip32 b) where
  parse_xpub-slash :
      (rest text : Bytes) (x : Xpub T) → text ≡ rest ++ b'/' ∷ [] → parse_xpub b text ≢ ok x
  unfolding parse_xpub
  parse_xpub-slash rest text x tail h =
      let refused : b.decode_check text ≡ none = ap b.decode_check tail ∙ lawful.no_slash rest [] in
      let h' = rw (parse_xpub, refused) at h in cc

  parse_spec-slash : (s : Bytes) (spec : XpubSpec b) → parse_spec b (s ++ b'/' ∷ []) ≢ ok spec
  parse_spec-slash s spec h =
      let (o, x, before, after, found, _, key, _) = parse_spec-parts b (s ++ b'/' ∷ []) spec h in
      let (rest, trimmed) = trim_start-slash b'[' s (λ e. omega (arith, e)) in
      let (back, tail) =
        split_once-slash b']' rest before after (λ e. omega (arith, e))
          (sym (ap (split_once b']') trimmed) ∙ found) in
      parse_xpub-slash back after x tail key

  -- What `Display` writes of a specification, in either form, is never read as one: it ends in a
  -- slash, which Base58 refuses.
  pub parse_spec-ne-show_spec :
      (alternate : Bool) (spec other : XpubSpec b)
      → parse_spec b (show_spec b alternate spec) ≢ ok other
  unfolding show_spec
  parse_spec-ne-show_spec alternate spec other h =
      let org = show_xpub_origin b alternate spec.origin in
      let key = show_xpub b spec.xpub in
      let ends : show_spec b alternate spec ≡ (b'[' ∷ (org ++ b']' ∷ key)) ++ b'/' ∷ [] =
        rw (append_assoc org (b']' ∷ key) (b'/' ∷ [])) refl in
      parse_spec-slash (b'[' ∷ (org ++ b']' ∷ key)) other (sym (ap (parse_spec b) ends) ∙ h)
