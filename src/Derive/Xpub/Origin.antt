-- ===== src/Derive/Xpub/Origin.antt =====
-- The text of `XpubOrigin` of derive/src/xpub.rs.
pub mod RoundTrip
use bp_std.Prelude.{Bytes, [], ◌∷◌, ◌++◌, ◌||◌, Bool, if◌then◌else◌, Option, none, some, codes}
use bp_std.Prelude.Eq.{bytes_eq}
use bp_std.Prelude.Text.{split_once}
use bp_std.Prelude.Results.{Result, ok, err, ◌>>=◌, map_err}
use bp_std.Consensus.{Types}
use bp_std.Derive.Index.Text.{show_hardened, parse_hardened}
use bp_std.Derive.Path.{DerivationParseError, show_path, parse_path}
use bp_std.Derive.Origins.{XpubOrigin}
use bp_std.Derive.Xpub.{Bip32}

-- `OriginParseError`; a foreign error carries nothing
pub data OriginParseError : Type 0 where
  derivation_path : DerivationParseError → OriginParseError
  invalid_master_fp : OriginParseError

module _ {T : Types} (b : Bip32 T) where
  -- the `match` on `s.split_once('/')`
  abbrev pub fingerprint_of :
      {E : Type 0} → E → Option (Bytes × Bytes) → Result E (T.XpubFp × Bytes)
  fingerprint_of invalid none = ok (b.fp_default, [])
  fingerprint_of invalid (some (fp, path)) =
      if bytes_eq fp (codes "00000000") || bytes_eq fp (codes "m")
      then ok (b.fp_default, path)
      else elim (b.fp_from_hex fp) [ none ↦ err invalid | some f ↦ ok (f, path) ]

  unfoldable pub parse_xpub_origin : Bytes → Result OriginParseError (XpubOrigin T)
  parse_xpub_origin s = do
    (master_fp, path) ← fingerprint_of invalid_master_fp (split_once b'/' s)
    derivation ← map_err derivation_path (parse_path parse_hardened path)
    ok (record { master_fp = master_fp; derivation = derivation })

  -- `Display`, with a flag for the alternate form
  unfoldable pub show_xpub_origin : Bool → XpubOrigin T → Bytes
  show_xpub_origin alternate o =
      b.fp_to_hex o.master_fp ++ show_path (show_hardened alternate) o.derivation
