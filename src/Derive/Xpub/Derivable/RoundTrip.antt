-- ===== src/Derive/Xpub/Derivable/RoundTrip.antt =====
-- An `XpubDerivable` of derive/src/xpub.rs is read back from its text.
use bp_std.Prelude.{
  ℕ, ◌<◌, ◌≤◌, ◌^◌, Bytes, [], ◌∷◌, ◌++◌, length, Bool, false, codes, ◌≡◌, ◌≢◌, ◌⊎◌, refl, sym, ap,
  All, All-map, all-of, arith, append_assoc,
}
use bp_std.Prelude.Text.{
  Lacks, Lacks-append, split, split-append, split_once-append, trim_start, trim_start-first,
}
use bp_std.Prelude.Results.{ok}
use bp_std.Consensus.{Types}
use bp_std.Derive.Index.Hardened.{IsReduced}
use bp_std.Derive.Index.Derivation.{index, IsInRange}
use bp_std.Derive.Index.Text.{show_hardened}
use bp_std.Derive.Index.Text.RoundTrip.{show_hardened-Lacks}
use bp_std.Derive.Path.{show_path}
use bp_std.Derive.Path.RoundTrip.{show_path-Lacks}
use bp_std.Derive.Xpub.Derivable.Segments.{
  IsSegment, IsVariant, split-segments, parse_segments-back,
}
use bp_std.Derive.Path.Segment.{show_seg}
use bp_std.Derive.Origins.{XpubOrigin}
use bp_std.Derive.Xpub.{Bip32, IsBip32, Xpub, is_hex}
use bp_std.Derive.Xpub.Layout.{decode-encode_iff}
use bp_std.Derive.Xpub.Origin.{show_xpub_origin}
use bp_std.Derive.Xpub.Origin.RoundTrip.{xpub_origin_iff}
use bp_std.Derive.Xpub.Text.{parse_xpub, show_xpub, show_spec}
use bp_std.Derive.Xpub.Derivable.{
  XpubDerivable, keychain_number, show_keychain, keychain_from_str, show_variant, show_derivable,
  parse_remains, parse_halves, parse_derivable,
}

module _ {T : Types} (b : Bip32 T) (lawful : IsBip32 b) where
  hex-Lacks-bracket : (sep : ℕ) (fp : T.XpubFp) → is_hex sep ≡ false → Lacks sep (b.fp_to_hex fp)
  hex-Lacks-bracket sep fp other =
      All-map (λ c h e. cc (sym h, ap is_hex e, other)) (b.fp_to_hex fp) (lawful.hex_digits fp)

  xpub_origin-Lacks :
      (alternate : Bool) (o : XpubOrigin T) → Lacks b']' (show_xpub_origin b alternate o)
  unfolding show_xpub_origin
  xpub_origin-Lacks alternate o =
      Lacks-append b']' (b.fp_to_hex o.master_fp) _ (hex-Lacks-bracket b']' o.master_fp refl) (
        show_path-Lacks (show_hardened alternate) b']' o.derivation (λ e. omega (arith, e))
          (all-of (λ i. show_hardened-Lacks b']' alternate i refl refl) o.derivation))

  parse_xpub-show_xpub :
      (x : Xpub T)
      → length x.core.chain_code ≡ 32
      → IsInRange x.meta.child_number
      → (index x.meta.child_number < 2 ^ 28) ⊎ (2 ^ 31 ≤ index x.meta.child_number)
      → parse_xpub b (show_xpub b x) ≡ ok x
  unfolding parse_xpub show_xpub
  parse_xpub-show_xpub x h in_range fits =
      let (_, read) = decode-encode_iff b lawful x h in_range in
      rw (parse_xpub, lawful.check_back, read.1 fits) refl

  -- the text in its two halves
  halves :
      (alternate : Bool) (x : XpubDerivable b)
      → show_derivable b alternate x
        ≡ b'['
          ∷ (show_xpub_origin b alternate x.spec.origin
              ++ b']'
                ∷ (show_xpub b x.spec.xpub
                    ++ b'/'
                      ∷ (show_variant b x.variant
                          ++ (show_seg keychain_number show_keychain keychain_from_str x.keychains
                              ++ codes "/*"))))
  unfolding show_derivable show_spec
  halves alternate x =
      let org = show_xpub_origin b alternate x.spec.origin in
      let key = show_xpub b x.spec.xpub in
      let tail =
        show_variant b x.variant
        ++ (show_seg keychain_number show_keychain keychain_from_str x.keychains ++ codes "/*") in
      rw (append_assoc org (b']' ∷ (key ++ b'/' ∷ [])) tail, append_assoc key (b'/' ∷ []) tail) refl

  -- a derivable key that is written as it is
  pub record IsDerivable (x : XpubDerivable b) : Type 0 where
    pub some_path : x.spec.origin.derivation ≢ []
    pub reduced : All IsReduced x.spec.origin.derivation
    pub chain_code : length x.spec.xpub.core.chain_code ≡ 32
    pub child_in_range : IsInRange x.spec.xpub.meta.child_number
    pub child_word :
        (index x.spec.xpub.meta.child_number < 2 ^ 28)
        ⊎ (2 ^ 31 ≤ index x.spec.xpub.meta.child_number)
    pub variant : IsVariant x.variant
    pub keychains : IsSegment x.keychains

  parse_remains-back :
      (x : XpubDerivable b)
      → IsDerivable x
      → parse_remains b x.spec.origin (
          split b'/' (
            show_xpub b x.spec.xpub
            ++ b'/'
              ∷ (show_variant b x.variant
                  ++ (show_seg keychain_number show_keychain keychain_from_str x.keychains
                      ++ codes "/*"))))
        ≡ ok x
  unfolding show_xpub
  parse_remains-back x h =
      let key = show_xpub b x.spec.xpub in
      let tail =
        show_variant b x.variant
        ++ (show_seg keychain_number show_keychain keychain_from_str x.keychains ++ codes "/*") in
      rw
        (
          split-append b'/' key tail (lawful.check_no_slash _),
          split-segments b x.variant x.keychains,
          parse_remains,
          parse_xpub-show_xpub x.spec.xpub h.chain_code h.child_in_range h.child_word,
          parse_segments-back b x.variant x.keychains h.variant h.keychains,
        )
        refl

  hex-ne-nil : (fp : T.XpubFp) → b.fp_to_hex fp ≢ []
  hex-ne-nil fp e = let eight = lawful.hex_length fp in omega (arith, eight, ap length e)

  trim-origin :
      (alternate : Bool) (o : XpubOrigin T) (rest : Bytes)
      → trim_start b'[' (b'[' ∷ (show_xpub_origin b alternate o ++ rest))
        ≡ show_xpub_origin b alternate o ++ rest
  unfolding show_xpub_origin trim_start
  trim-origin alternate o rest =
      let path = show_path (show_hardened alternate) o.derivation in
      rw (append_assoc (b.fp_to_hex o.master_fp) path rest) (
        trim_start-first b'[' (b.fp_to_hex o.master_fp) (path ++ rest) (hex-ne-nil o.master_fp)
          (hex-Lacks-bracket b'[' o.master_fp refl))

  -- A derivable extended key is read back from its text, in either form: its origin has a
  -- derivation, its child number is one that the 78 bytes keep, its variant, if any, is a normal
  -- index, and it has one to eight keychains.
  pub parse_derivable-show_derivable :
      (alternate : Bool) (x : XpubDerivable b)
      → IsDerivable x
      → parse_derivable b (show_derivable b alternate x) ≡ ok x
  unfolding parse_derivable
  parse_derivable-show_derivable alternate x h =
      let org = show_xpub_origin b alternate x.spec.origin in
      let remains =
        show_xpub b x.spec.xpub
        ++ b'/'
          ∷ (show_variant b x.variant
              ++ (show_seg keychain_number show_keychain keychain_from_str x.keychains
                  ++ codes "/*")) in
      let origin_back =
        (xpub_origin_iff b lawful alternate x.spec.origin.master_fp x.spec.origin.derivation
            h.reduced).1
          h.some_path in
      rw
        (
          halves alternate x,
          parse_derivable,
          trim-origin alternate x.spec.origin (b']' ∷ remains),
          split_once-append b']' org remains (xpub_origin-Lacks alternate x.spec.origin),
          parse_halves,
          origin_back,
          parse_remains-back x h,
        )
        refl
