-- ===== src/Derive/Xpub/Derivable.antt =====
-- `XpubDerivable` of derive/src/xpub.rs and its text.
pub mod Segments
pub mod RoundTrip
use bp_std.Prelude.{ℕ, Bytes, List, [], ◌∷◌, ◌++◌, Bool, if◌then◌else◌, Option, none, some, codes}
use bp_std.Prelude.Eq.{bytes_eq}
use bp_std.Prelude.Text.{split, split_once, starts_with, trim_start}
use bp_std.Prelude.Decimal.{show_decimal}
use bp_std.Prelude.Results.{Result, ok, err, ◌>>=◌, map_err}
use bp_std.Consensus.{Types}
use bp_std.Derive.Index.Normal.{NormalIndex}
use bp_std.Derive.Index.Text.{IndexParseError, parse, show_normal, parse_normal}
use bp_std.Derive.Terminal.{Keychain, inner, outer}
use bp_std.Derive.Terminal.Text.{parse_keychain}
use bp_std.Derive.Path.Segment.{DerivationSeg, parse_seg, show_seg, insert}
use bp_std.Derive.Origins.{XpubOrigin}
use bp_std.Derive.Xpub.{Bip32, Xpub}
use bp_std.Derive.Xpub.Origin.{parse_xpub_origin}
use bp_std.Derive.Xpub.Text.{
  XpubSpec, XpubParseError, from_origin, no_origin, no_xpub, invalid_terminal, invalid_keychain,
  invalid_index, parse_xpub, show_spec,
}

-- `Display`, `FromStr` and the number of a keychain in a segment
abbrev pub keychain_number : Keychain → ℕ
keychain_number k = k.value

abbrev pub show_keychain : Keychain → Bytes
show_keychain k = show_decimal k.value

unfoldable pub keychain_from_str : Bytes → Result IndexParseError Keychain
keychain_from_str s = map_err parse (parse_keychain s)

unfoldable pub parse_keychains : Bytes → Result XpubParseError (DerivationSeg Keychain)
parse_keychains s =
    map_err invalid_keychain (parse_seg keychain_number show_keychain keychain_from_str s)

module _ {T : Types} (b : Bip32 T) where
  pub record XpubDerivable : Type 0 where
    pub spec : XpubSpec b
    pub variant : Option NormalIndex
    pub keychains : DerivationSeg Keychain

  -- `From<XpubSpec>`, as `new_standard`
  abbrev pub from_spec : XpubSpec b → XpubDerivable
  from_spec spec = record {
    spec = spec;
    variant = none;
    keychains =
        insert keychain_number show_keychain keychain_from_str inner
          (insert keychain_number show_keychain keychain_from_str outer []);
  }

  abbrev pub show_variant : Option NormalIndex → Bytes
  show_variant none = []
  show_variant (some variant) = show_normal variant ++ b'/' ∷ []

  -- `Display`
  unfoldable pub show_derivable : Bool → XpubDerivable → Bytes
  show_derivable alternate x =
      show_spec b alternate x.spec
      ++ (show_variant x.variant
          ++ (show_seg keychain_number show_keychain keychain_from_str x.keychains ++ codes "/*"))

  -- the `match` on the segments after the key
  abbrev pub parse_segments :
      List Bytes → Result XpubParseError (Option NormalIndex × DerivationSeg Keychain)
  parse_segments (var ∷ keychains ∷ star ∷ []) =
      if bytes_eq star (codes "*")
      then (do
        variant ← map_err invalid_index (parse_normal var)
        segment ← parse_keychains keychains
        ok (some variant, segment))
      else err invalid_terminal
  parse_segments (keychains ∷ star ∷ []) =
      if bytes_eq star (codes "*")
      then (do segment ← parse_keychains keychains; ok (none, segment))
      else err invalid_terminal
  parse_segments [] = err invalid_terminal
  parse_segments (a ∷ []) = err invalid_terminal
  parse_segments (a ∷ c ∷ d ∷ e ∷ rest) = err invalid_terminal

  -- what follows the origin
  abbrev pub parse_remains : XpubOrigin T → List Bytes → Result XpubParseError XpubDerivable
  parse_remains o [] = err no_xpub
  parse_remains o (key ∷ segs) = do
    xpub ← parse_xpub b key
    (variant, keychains) ← parse_segments segs
    ok (record {
      spec = record { origin = o; xpub = xpub };
      variant = variant;
      keychains = keychains;
    })

  abbrev pub parse_halves : Option (Bytes × Bytes) → Result XpubParseError XpubDerivable
  parse_halves none = err no_origin
  parse_halves (some (origin_text, remains)) = do
    o ← map_err from_origin (parse_xpub_origin b origin_text)
    parse_remains o (split b'/' remains)

  -- `FromStr`
  unfoldable pub parse_derivable : Bytes → Result XpubParseError XpubDerivable
  unfolding parse_keychains
  parse_derivable s =
      if starts_with b'[' s
      then parse_halves (split_once b']' (trim_start b'[' s))
      else err no_origin
