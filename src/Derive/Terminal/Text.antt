-- ===== src/Derive/Terminal/Text.antt =====
-- The text of `Terminal` in derive/src/derive.rs.
use bp_std.Prelude.{◌<◌, Bytes, [], ◌∷◌, ◌++◌, List, if◌then◌else◌, ◌≡◌, refl}
use bp_std.Prelude.Results.{Result, ok, err, ◌>>=◌, map_err}
use bp_std.Prelude.Decimal.{ParseIntError, show_decimal, parse_decimal}
use bp_std.Prelude.Decimal.RoundTrip.{parse_decimal-show_decimal}
use bp_std.Prelude.Text.{split, split-append, split_last, starts_with, trim_start, trim_start-Lacks}
use bp_std.Derive.Index.Normal.{IsNormal}
use bp_std.Derive.Index.Text.{IndexParseError, show_normal, parse_normal}
use bp_std.Derive.Index.Text.RoundTrip.{
  show_decimal-Lacks, show_normal-Lacks, parse_normal-show_normal,
}
use bp_std.Derive.Terminal.{Keychain, Terminal}

pub data TerminalParseError : Type 0 where
  no_keychain : TerminalParseError
  invalid_keychain : ParseIntError → TerminalParseError
  index : IndexParseError → TerminalParseError
  invalid_components : Bytes → TerminalParseError

-- `Keychain::from_str`, of a `u8`
unfoldable pub parse_keychain : Bytes → Result ParseIntError Keychain
parse_keychain s = do n ← parse_decimal 256 s; ok (record { value = n })

-- `Display`
unfoldable pub show_terminal : Terminal → Bytes
show_terminal t = b'&' ∷ show_decimal t.keychain.value ++ b'/' ∷ show_normal t.index

abbrev pub parse_components : Bytes → List Bytes → Result TerminalParseError Terminal
parse_components s (keychain ∷ i ∷ []) =
    if starts_with b'&' keychain
    then (do
      k ← map_err invalid_keychain (parse_keychain (trim_start b'&' keychain))
      n ← map_err index (parse_normal i)
      ok (record { keychain = k; index = n }))
    else err no_keychain
parse_components s [] = err (invalid_components s)
parse_components s (a ∷ []) = err (invalid_components s)
parse_components s (a ∷ b ∷ c ∷ rest) = err (invalid_components s)

-- `FromStr`
unfoldable pub parse_terminal : Bytes → Result TerminalParseError Terminal
unfolding parse_keychain
parse_terminal s = parse_components s (split b'/' s)

split-show_terminal :
    (t : Terminal)
    → split b'/' (show_terminal t)
      ≡ (b'&' ∷ show_decimal t.keychain.value) ∷ show_normal t.index ∷ []
unfolding show_terminal
split-show_terminal t =
    rw
      (
        split-append b'/' (b'&' ∷ show_decimal t.keychain.value) (show_normal t.index)
            ((λ e. cc), show_decimal-Lacks b'/' t.keychain.value refl),
        split_last b'/' (show_normal t.index) (show_normal-Lacks b'/' t.index refl),
      )
      refl

-- A terminal, its keychain a byte and its index a normal one, is read back from its text.
pub parse_terminal-show_terminal :
    (t : Terminal)
    → t.keychain.value < 256
    → IsNormal t.index
    → parse_terminal (show_terminal t) ≡ ok t
unfolding parse_terminal trim_start
parse_terminal-show_terminal t fits h =
    rw
      (
        split-show_terminal t,
        trim_start-Lacks b'&' (show_decimal t.keychain.value)
            (show_decimal-Lacks b'&' t.keychain.value refl),
        parse_decimal-show_decimal 256 t.keychain.value fits,
        parse_normal-show_normal t.index h,
      )
      refl
