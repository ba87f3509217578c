-- ===== src/Derive/Xpub/Text.antt =====
-- The text of `Xpub`, `KeyOrigin` and `XpubSpec` of derive/src/xpub.rs.

pub mod Spec
pub mod Accepted
use bp_std.Prelude.{
  ℕ, Bytes, List, [], ◌∷◌, ◌++◌, length, ◌==◌, ◌||◌, Bool, true, false, not, if◌then◌else◌, Option,
  none, some, codes, get_elem?,
}
use bp_std.Prelude.Eq.{bytes_eq}
use bp_std.Prelude.Text.{split_once, starts_with, trim_start}
use bp_std.Prelude.Results.{Result, ok, err, ◌>>=◌, map_err, ok_or}
use bp_std.Consensus.{Types}
use bp_std.Derive.Index.Hardened.{HardenedIndex, hardened_idx}
use bp_std.Derive.Index.Normal.{NormalIndex}
use bp_std.Derive.Index.Derivation.{DerivationIndex, normal, hardened}
use bp_std.Derive.Index.Text.{
  IndexParseError, show_hardened, parse_hardened, show_derivation, parse_derivation,
}
use bp_std.Derive.Terminal.{DerivationPath}
use bp_std.Derive.Path.{DerivationParseError, show_path, parse_path}
use bp_std.Derive.Origins.{XpubOrigin, KeyOrigin}
use bp_std.Derive.Path.Segment.{SegParseError}
use bp_std.Derive.Xpub.Origin
use bp_std.Derive.Xpub.Origin.{
  OriginParseError, fingerprint_of, parse_xpub_origin, show_xpub_origin,
}
use bp_std.Derive.Xpub.{Bip32, Xpub, XpubDecodeError, decode, encode}

-- `XpubParseError`; a foreign error carries nothing
pub data XpubParseError : Type 0 where
  base58 invalid_master_fp invalid_terminal : XpubParseError
  decode_failed : XpubDecodeError → XpubParseError
  derivation_path : DerivationParseError → XpubParseError
  invalid_keychain : SegParseError → XpubParseError
  invalid_index : IndexParseError → XpubParseError
  no_origin no_xpub network_mismatch depth_mismatch parent_mismatch : XpubParseError

-- `From<OriginParseError>`
abbrev pub from_origin : OriginParseError → XpubParseError
from_origin (Origin.derivation_path e) = derivation_path e
from_origin Origin.invalid_master_fp = invalid_master_fp

-- a derived `PartialEq`
abbrev pub index_eq : DerivationIndex → DerivationIndex → Bool
index_eq (normal i) (normal j) = i.value == j.value
index_eq (hardened i) (hardened j) = i.value == j.value
index_eq (normal i) (hardened j) = false
index_eq (hardened i) (normal j) = false

abbrev pub hardened_is : Option HardenedIndex → HardenedIndex → Bool
hardened_is none j = false
hardened_is (some i) j = i.value == j.value

-- `slice::last`
abbrev pub last {ℓ} : {A : Type ℓ} → List A → Option A
last [] = none
last (a ∷ []) = some a
last (a ∷ c ∷ as') = last (c ∷ as')

module _ {T : Types} (b : Bip32 T) where
  -- `Display` and `FromStr` of `Xpub`
  unfoldable pub show_xpub : Xpub T → Bytes
  show_xpub x = b.encode_check (encode b x)

  unfoldable pub parse_xpub : Bytes → Result XpubParseError (Xpub T)
  parse_xpub s = do bytes ← ok_or base58 (b.decode_check s); map_err decode_failed (decode b bytes)

  unfoldable pub parse_key_origin : Bytes → Result XpubParseError (KeyOrigin T)
  parse_key_origin s = do
    (master_fp, path) ← fingerprint_of b invalid_master_fp (split_once b'/' s)
    derivation ← map_err derivation_path (parse_path parse_derivation path)
    ok (record { master_fp = master_fp; derivation = derivation })

  -- `Display`, in the plain form
  unfoldable pub show_key_origin : KeyOrigin T → Bytes
  show_key_origin o = b.fp_to_hex o.master_fp ++ show_path show_derivation o.derivation

  pub record XpubSpec : Type 0 where
    pub origin : XpubOrigin T
    pub xpub : Xpub T

  -- `Display`
  unfoldable pub show_spec : Bool → XpubSpec → Bytes
  show_spec alternate spec =
      b'['
      ∷ (show_xpub_origin b alternate spec.origin ++ (b']' ∷ (show_xpub spec.xpub ++ (b'/' ∷ []))))

  -- the index of the network in an origin
  abbrev pub network_index : Xpub T → HardenedIndex
  network_index x = if x.testnet then hardened_idx.one else hardened_idx.zero

  abbrev pub names_child : Option HardenedIndex → DerivationIndex → Bool
  names_child none child = false
  names_child (some i) child = index_eq (hardened i) child

  -- the guards of `from_str`, once both parts are read
  unfoldable pub checked_spec : XpubOrigin T → Xpub T → Result XpubParseError XpubSpec
  checked_spec o x =
      if not (length o.derivation == x.meta.depth)
      then err depth_mismatch
      else if length o.derivation == 0
      then ok (record { origin = o; xpub = x })
      else if not (hardened_is (get_elem? o.derivation 1) (network_index x))
      then err network_mismatch
      else if not (names_child (last o.derivation) x.meta.child_number)
      then err parent_mismatch
      else ok (record { origin = o; xpub = x })

  abbrev pub parse_parts : Option (Bytes × Bytes) → Result XpubParseError XpubSpec
  parse_parts none = err no_origin
  parse_parts (some (origin_text, xpub_text)) = do
    o ← map_err from_origin (parse_xpub_origin b origin_text)
    x ← parse_xpub xpub_text
    checked_spec o x

  -- `FromStr`
  unfoldable pub parse_spec : Bytes → Result XpubParseError XpubSpec
  unfolding parse_xpub_origin parse_xpub checked_spec
  parse_spec s =
      if starts_with b'[' s
      then parse_parts (split_once b']' (trim_start b'[' s))
      else err no_origin
