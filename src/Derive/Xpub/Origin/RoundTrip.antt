-- ===== src/Derive/Xpub/Origin/RoundTrip.antt =====
-- Which origins of derive/src/xpub.rs are read back from their text.
use bp_std.Prelude.{
  Bytes, List, [], ◌∷◌, ◌++◌, length, Bool, true, false, some, codes, ◌≡◌, ◌≢◌, ◌↔◌, inl, inr, refl,
  ◌∙◌, sym, ap, All, All-map, Bool-cases, arith, append-nil,
}
use bp_std.Prelude.Eq.{bytes_eq, bytes_eq_iff}
use bp_std.Prelude.Text.{
  strip_suffix, Lacks, split, split_once, split_once-append, split_once_last, traverse,
}
use bp_std.Prelude.Decimal.{parse_decimal}
use bp_std.Prelude.Results.{Result, ok}
use bp_std.Consensus.{Types}
use bp_std.Derive.Index.Hardened.{HardenedIndex, IsReduced}
use bp_std.Derive.Index.Derivation.{DerivationIndex, IsInRange}
use bp_std.Derive.Index.Text.{
  parse_normal, IndexParseError, show_hardened, parse_hardened, show_derivation, parse_derivation,
}
use bp_std.Derive.Origins.{XpubOrigin, KeyOrigin}
use bp_std.Derive.Path.{show_path, parse_path, strip_slash}
use bp_std.Derive.Path.RoundTrip.{Prints, traverse-show_path, hardened-Prints, derivation-Prints}
use bp_std.Derive.Xpub.{Bip32, IsBip32, is_hex}
use bp_std.Derive.Xpub.Origin.{
  invalid_master_fp, fingerprint_of, parse_xpub_origin, show_xpub_origin,
}
use bp_std.Derive.Xpub.Text
use bp_std.Derive.Xpub.Text.{parse_key_origin, show_key_origin}

strip_slash-Lacks : (s rest : Bytes) → s ≢ [] → Lacks b'/' s → strip_slash (s ++ rest) ≡ s ++ rest
strip_slash-Lacks [] rest some_text h = absurd (some_text refl)
strip_slash-Lacks (c ∷ s) rest some_text (hc, h) = ground arith

module _ {I : Type 0} (show : I → Bytes) (from_str : Bytes → Result IndexParseError I) where
  -- the text of a path without its first slash is read as well
  parse_path-tail :
      (i : I) (path : List I)
      → ((j : I) → from_str [] ≢ ok j)
      → All (Prints show from_str) (i ∷ path)
      → parse_path from_str (show i ++ show_path show path) ≡ ok (i ∷ path)
  unfolding parse_path
  parse_path-tail i path no_empty ((lacks, read), all) =
      let some_text : show i ≢ [] = λ e. no_empty i (sym (ap from_str e) ∙ read) in
      rw
        (
          strip_slash-Lacks (show i) (show_path show path) some_text lacks,
          traverse-show_path show from_str i path ((lacks, read), all),
        )
        refl

module _ {T : Types} (b : Bip32 T) (lawful : IsBip32 b) where
  no_hardened : (i : HardenedIndex) → parse_hardened [] ≢ ok i
  unfolding parse_hardened strip_suffix
  no_hardened i e = cc

  no_derivation : (i : DerivationIndex) → parse_derivation [] ≢ ok i
  unfolding parse_derivation strip_suffix parse_normal parse_decimal
  no_derivation i e = cc

  hex-Lacks : (fp : T.XpubFp) → Lacks b'/' (b.fp_to_hex fp)
  hex-Lacks fp = All-map (λ c h e. cc (sym h, ap is_hex e)) (b.fp_to_hex fp) (lawful.hex_digits fp)

  hex-ne-m : (fp : T.XpubFp) → bytes_eq (b.fp_to_hex fp) (codes "m") ≡ false
  hex-ne-m fp = elim (Bool-cases (bytes_eq (b.fp_to_hex fp) (codes "m"))) [
    | inr differs ↦ differs
    | inl same ↦
        let e = ap length ((bytes_eq_iff (b.fp_to_hex fp) (codes "m")).0 same) in
        absurd (omega (arith, e, lawful.hex_length fp))
  ]

  zeros-default :
      (fp : T.XpubFp) → bytes_eq (b.fp_to_hex fp) (codes "00000000") ≡ true → b.fp_default ≡ fp
  zeros-default fp same =
      let e = (bytes_eq_iff (b.fp_to_hex fp) (codes "00000000")).0 same in
      let zeros : b.fp_to_hex fp ≡ b.fp_to_hex b.fp_default = e ∙ sym lawful.hex_default in
      let both : some b.fp_default ≡ some fp =
        sym (lawful.hex_back b.fp_default) ∙ sym (ap b.fp_from_hex zeros) ∙ lawful.hex_back fp in
      cc

  fingerprint_of-hex :
      {E : Type 0} (invalid : E) (fp : T.XpubFp) (t : Bytes)
      → fingerprint_of b invalid (some (b.fp_to_hex fp, t)) ≡ ok (fp, t)
  fingerprint_of-hex invalid fp t =
      elim (Bool-cases (bytes_eq (b.fp_to_hex fp) (codes "00000000"))) [
        | inl zeros ↦ rw (zeros, zeros-default fp zeros) refl
        | inr other ↦ rw (other, hex-ne-m fp, lawful.hex_back fp) refl
      ]

  split_once-hex :
      (fp : T.XpubFp) (t : Bytes)
      → split_once b'/' (b.fp_to_hex fp ++ b'/' ∷ t) ≡ some (b.fp_to_hex fp, t)
  split_once-hex fp t = split_once-append b'/' (b.fp_to_hex fp) t (hex-Lacks fp)

  xpub_origin-back :
      (alternate : Bool) (fp : T.XpubFp) (i : HardenedIndex) (path : List HardenedIndex)
      → All IsReduced (i ∷ path)
      → let o : XpubOrigin T = record { master_fp = fp; derivation = i ∷ path } in
        parse_xpub_origin b (show_xpub_origin b alternate o) ≡ ok o
  unfolding parse_xpub_origin show_xpub_origin show_path
  xpub_origin-back alternate fp i path reduced =
      rw
        (
          split_once-hex fp (show_hardened alternate i ++ show_path (show_hardened alternate) path),
          fingerprint_of-hex invalid_master_fp fp
              (show_hardened alternate i ++ show_path (show_hardened alternate) path),
          parse_path-tail (show_hardened alternate) parse_hardened i path no_hardened
              (hardened-Prints alternate (i ∷ path) reduced),
        )
        refl

  key_origin-back :
      (fp : T.XpubFp) (i : DerivationIndex) (path : List DerivationIndex)
      → All IsInRange (i ∷ path)
      → let o : KeyOrigin T = record { master_fp = fp; derivation = i ∷ path } in
        parse_key_origin b (show_key_origin b o) ≡ ok o
  unfolding parse_key_origin show_key_origin show_path
  key_origin-back fp i path in_range =
      rw
        (
          split_once-hex fp (show_derivation i ++ show_path show_derivation path),
          fingerprint_of-hex Text.invalid_master_fp fp
              (show_derivation i ++ show_path show_derivation path),
          parse_path-tail show_derivation parse_derivation i path no_derivation
              (derivation-Prints (i ∷ path) in_range),
        )
        refl

  no_path_refused :
      (alternate : Bool) (fp : T.XpubFp) (o : XpubOrigin T) (k : KeyOrigin T)
      → (parse_xpub_origin b
            (show_xpub_origin b alternate (record { master_fp = fp; derivation = [] }))
          ≢ ok o)
        × (parse_key_origin b (show_key_origin b (record { master_fp = fp; derivation = [] }))
            ≢ ok k)
  unfolding parse_xpub_origin show_xpub_origin parse_key_origin show_key_origin show_path parse_path
      parse_hardened parse_derivation strip_suffix parse_normal parse_decimal traverse split
  no_path_refused alternate fp o k =
      let none_found = split_once_last b'/' (b.fp_to_hex fp) (hex-Lacks fp) in
      (
        λ e. let e' = rw (append-nil (b.fp_to_hex fp), none_found) at e in cc,
        λ e. let e' = rw (append-nil (b.fp_to_hex fp), none_found) at e in cc,
      )

  pub xpub_origin_iff :
      (alternate : Bool) (fp : T.XpubFp) (path : List HardenedIndex)
      → All IsReduced path
      → let o : XpubOrigin T = record { master_fp = fp; derivation = path } in
        (parse_xpub_origin b (show_xpub_origin b alternate o) ≡ ok o) ↔ (path ≢ [])
  xpub_origin_iff alternate fp [] reduced =
      let no_key : KeyOrigin T = record { master_fp = fp; derivation = [] } in
      (
        λ read. absurd (
            (no_path_refused alternate fp (record { master_fp = fp; derivation = [] }) no_key).0
              read),
        λ some_path. absurd (some_path refl),
      )
  xpub_origin_iff alternate fp (i ∷ path) reduced =
      (λ read e. cc, λ some_path. xpub_origin-back alternate fp i path reduced)

  key_origin_iff :
      (fp : T.XpubFp) (path : List DerivationIndex)
      → All IsInRange path
      → let o : KeyOrigin T = record { master_fp = fp; derivation = path } in
        (parse_key_origin b (show_key_origin b o) ≡ ok o) ↔ (path ≢ [])
  key_origin_iff fp [] in_range =
      let no_xpub : XpubOrigin T = record { master_fp = fp; derivation = [] } in
      (
        λ read. absurd (
            (no_path_refused false fp no_xpub (record { master_fp = fp; derivation = [] })).1 read),
        λ some_path. absurd (some_path refl),
      )
  key_origin_iff fp (i ∷ path) in_range =
      (λ read e. cc, λ some_path. key_origin-back fp i path in_range)

  -- The origin of an extended key, in either form, and that of a key, in the plain form, are read
  -- back from their texts exactly where their derivation is not empty, each index in its range.
  pub origins_iff :
      (alternate : Bool) (o : XpubOrigin T) (k : KeyOrigin T)
      → All IsReduced o.derivation
      → All IsInRange k.derivation
      → ((parse_xpub_origin b (show_xpub_origin b alternate o) ≡ ok o) ↔ (o.derivation ≢ []))
        × ((parse_key_origin b (show_key_origin b k) ≡ ok k) ↔ (k.derivation ≢ []))
  origins_iff alternate o k reduced in_range = (
    xpub_origin_iff alternate o.master_fp o.derivation reduced,
    key_origin_iff k.master_fp k.derivation in_range,
  )
