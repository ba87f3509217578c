-- ===== src/Derive/Xpub/Derivable/Segments.antt =====
-- The segments after the key in the text of an `XpubDerivable` of derive/src/xpub.rs.
use bp_std.Prelude.{
  ◌<◌, ◌≤◌, Bytes, List, [], ◌∷◌, ◌++◌, length, Option, none, some, codes, ◌≡◌, refl, All, All-map,
  all-of, arith, append_assoc,
}
use bp_std.Prelude.Decimal.RoundTrip.{parse_decimal-show_decimal}
use bp_std.Prelude.Text.{Lacks, Lacks-append, split, split-append}
use bp_std.Prelude.Results.{ok}
use bp_std.Consensus.{Types}
use bp_std.Derive.Index.Normal.{NormalIndex, IsNormal}
use bp_std.Derive.Index.Text.{show_normal}
use bp_std.Derive.Index.Text.RoundTrip.{
  show_decimal-Lacks, show_normal-Lacks, parse_normal-show_normal,
}
use bp_std.Derive.Terminal.{Keychain}
use bp_std.Derive.Terminal.Text.{parse_keychain}
use bp_std.Derive.Path.Segment.{
  DerivationSeg, show_seg, show_rest-Lacks, Ordered, Prints, parse_seg-show_seg,
}
use bp_std.Derive.Xpub.{Bip32}
use bp_std.Derive.Xpub.Derivable.{
  keychain_number, show_keychain, keychain_from_str, parse_keychains, show_variant, parse_segments,
}

keychain-Prints :
    (k : Keychain) → k.value < 256 → Prints keychain_number show_keychain keychain_from_str k
unfolding keychain_from_str parse_keychain
keychain-Prints k small = (
  show_decimal-Lacks b';' k.value refl,
  show_decimal-Lacks b'<' k.value refl,
  show_decimal-Lacks b'>' k.value refl,
  rw (parse_decimal-show_decimal 256 k.value small) refl,
)

-- one to eight keychains, bytes, in their order
pub record IsSegment (keychains : DerivationSeg Keychain) : Type 0 where
  pub some_keychain : 1 ≤ length keychains
  pub few : length keychains ≤ 8
  pub ordered : Ordered keychain_number show_keychain keychain_from_str keychains
  pub bytes : All (λ k. k.value < 256) keychains

parse_keychains-back :
    (ks : DerivationSeg Keychain)
    → IsSegment ks
    → parse_keychains (show_seg keychain_number show_keychain keychain_from_str ks) ≡ ok ks
unfolding parse_keychains
parse_keychains-back ks h =
    rw
      (parse_seg-show_seg keychain_number show_keychain keychain_from_str ks h.some_keychain h.few
        h.ordered (All-map keychain-Prints ks h.bytes))
      refl

show_seg-Lacks :
    (ks : DerivationSeg Keychain)
    → Lacks b'/' (show_seg keychain_number show_keychain keychain_from_str ks)
unfolding show_seg
show_seg-Lacks [] = (λ e. omega (arith, e), (λ e. omega (arith, e), tt))
show_seg-Lacks (k ∷ []) = show_decimal-Lacks b'/' k.value refl
show_seg-Lacks (k ∷ j ∷ ks) = (
  λ e. omega (arith, e),
  Lacks-append b'/' _ (b'>' ∷ [])
      (show_rest-Lacks keychain_number show_keychain keychain_from_str b'/' k (j ∷ ks)
        (λ e. omega (arith, e))
        (all-of (λ (i : Keychain). show_decimal-Lacks b'/' i.value refl) (k ∷ j ∷ ks)))
      ((λ e. omega (arith, e)), tt),
)

-- the segments after the key
abbrev pub segments : Option NormalIndex → DerivationSeg Keychain → List Bytes
segments none ks = show_seg keychain_number show_keychain keychain_from_str ks ∷ codes "*" ∷ []
segments (some v) ks =
    show_normal v ∷ show_seg keychain_number show_keychain keychain_from_str ks ∷ codes "*" ∷ []

-- a variant is a normal index
abbrev pub IsVariant : Option NormalIndex → Type 0
IsVariant none = Unit
IsVariant (some v) = IsNormal v

module _ {T : Types} (b : Bip32 T) where
  pub split-segments :
      (v : Option NormalIndex) (ks : DerivationSeg Keychain)
      → split b'/' (
          show_variant b v
          ++ (show_seg keychain_number show_keychain keychain_from_str ks ++ codes "/*"))
        ≡ segments v ks
  unfolding split
  split-segments none ks =
      split-append b'/' (show_seg keychain_number show_keychain keychain_from_str ks) (codes "*")
        (show_seg-Lacks ks)
  split-segments (some v) ks =
      let rest = show_seg keychain_number show_keychain keychain_from_str ks ++ codes "/*" in
      rw
        (
          append_assoc (show_normal v) (b'/' ∷ []) rest,
          split-append b'/' (show_normal v) rest (show_normal-Lacks b'/' v refl),
          split-append b'/' (show_seg keychain_number show_keychain keychain_from_str ks)
              (codes "*") (show_seg-Lacks ks),
        )
        refl

  pub parse_segments-back :
      (v : Option NormalIndex) (ks : DerivationSeg Keychain)
      → IsVariant v
      → IsSegment ks
      → parse_segments b (segments v ks) ≡ ok (v, ks)
  parse_segments-back none ks hv h = rw (parse_keychains-back ks h) refl
  parse_segments-back (some v) ks hv h =
      rw (parse_normal-show_normal v hv, parse_keychains-back ks h) refl
