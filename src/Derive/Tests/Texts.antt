-- ===== src/Derive/Tests/Texts.antt =====
-- The theorems on the texts and the trees of derive/src at concrete inputs.
use bp_std.Prelude.{ℕ, [], ◌∷◌, true, ◌≡◌, ◌≢◌, arith}
use bp_std.Prelude.Results.{ok}
use bp_std.Derive.Index.Normal.{NormalIndex}
use bp_std.Derive.Index.Hardened.{HardenedIndex}
use bp_std.Derive.Index.Derivation.{normal, hardened}
use bp_std.Derive.Index.Text.{show_hardened, parse_hardened, show_derivation, parse_derivation}
use bp_std.Derive.Path.{show_path, parse_path}
use bp_std.Derive.Path.RoundTrip.{paths-RoundTrip}
use bp_std.Derive.Path.Refused.{parse_derivation_alternate}
use bp_std.Derive.Terminal.{Terminal}
use bp_std.Derive.Terminal.Text.{show_terminal, parse_terminal, parse_terminal-show_terminal}

abbrev plain : ℕ → NormalIndex
plain n = record { value = n }

abbrev reduced : ℕ → HardenedIndex
reduced n = record { value = n }

paths-RoundTrip_example :
    (parse_path parse_hardened (show_path (show_hardened true) (reduced 86 ∷ reduced 0 ∷ []))
      ≡ ok (reduced 86 ∷ reduced 0 ∷ []))
    × (parse_path parse_derivation
          (show_path show_derivation (hardened (reduced 84) ∷ normal (plain 1) ∷ []))
        ≡ ok (hardened (reduced 84) ∷ normal (plain 1) ∷ []))
paths-RoundTrip_example =
    paths-RoundTrip true (reduced 86) (reduced 0 ∷ []) (hardened (reduced 84))
      (normal (plain 1) ∷ []) (omega arith, (omega arith, tt)) (omega arith, (omega arith, tt))

parse_derivation_alternate_example :
    (parse_hardened (show_hardened true (reduced 44)) ≡ ok (reduced 44))
    × (parse_derivation (show_hardened true (reduced 44)) ≢ ok (hardened (reduced 44)))
parse_derivation_alternate_example =
    parse_derivation_alternate (reduced 44) (hardened (reduced 44)) (omega arith)

abbrev change_seven : Terminal
change_seven = record { keychain = record { value = 1 }; index = plain 7 }

parse_terminal-show_terminal_example : parse_terminal (show_terminal change_seven) ≡ ok change_seven
parse_terminal-show_terminal_example =
    parse_terminal-show_terminal change_seven (omega arith) (omega arith)
