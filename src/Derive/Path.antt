-- ===== src/Derive/Path.antt =====
-- The text of `DerivationPath` in derive/src/path.rs.
pub mod RoundTrip
pub mod Refused
pub mod Segment
use bp_std.Prelude.{ℕ, Bytes, [], ◌∷◌, ◌++◌, Bool, List, ◌==◌, if◌then◌else◌}
use bp_std.Prelude.Results.{Result, ok, err, map_err}
use bp_std.Prelude.Text.{split, traverse}
use bp_std.Derive.Index.Text.{IndexParseError}
use bp_std.Derive.Terminal.{DerivationPath}

pub data DerivationParseError : Type 0 where
  invalid_index : Bytes → IndexParseError → DerivationParseError
  invalid_format : Bytes → DerivationParseError

-- `if s.starts_with('/') { s = &s[1..]; }`
abbrev pub strip_slash : Bytes → Bytes
strip_slash [] = []
strip_slash (c ∷ s) = if c == b'/' then s else c ∷ s

module _ {I : Type 0} where
  -- `Display`, by that of an index
  unfoldable pub show_path : (I → Bytes) → DerivationPath I → Bytes
  show_path show [] = []
  show_path show (segment ∷ path) = b'/' ∷ show segment ++ show_path show path

  abbrev pub non_empty : Bytes → List I → Result DerivationParseError (DerivationPath I)
  non_empty s [] = err (invalid_format s)
  non_empty s (i ∷ path) = ok (i ∷ path)

  abbrev pub checked_path :
      Bytes → Result IndexParseError (List I) → Result DerivationParseError (DerivationPath I)
  checked_path s (err e) = err (invalid_index s e)
  checked_path s (ok path) = non_empty s path

  -- `FromStr`, by that of an index
  unfoldable pub parse_path :
      (Bytes → Result IndexParseError I) → Bytes → Result DerivationParseError (DerivationPath I)
  parse_path from_str s =
      let path_text = strip_slash s in
      checked_path path_text (traverse from_str (split b'/' path_text))
