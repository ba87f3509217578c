-- ===== src/Psbt/Ver.antt =====
-- psbt/src/lib.rs: the versions of a PSBT.
use bp_std.Prelude.{ℕ, Bool, true, false, ◌==◌, if◌then◌else◌, ◌%◌, ◌^◌}
use bp_std.Prelude.Results.{Result, ok, err}

pub data PsbtVer : Type 0 where
  v0 v2 : PsbtVer

-- `PsbtUnsupportedVer`
pub record PsbtUnsupportedVer : Type 0 where
  pub version : ℕ

unfoldable pub try_from_standard_u32 : ℕ → Result PsbtUnsupportedVer PsbtVer
try_from_standard_u32 v =
    if v == 0 then ok v0 else if v == 2 then ok v2 else err (record { version = v })

unfoldable pub to_standard_u32 : PsbtVer → ℕ
to_standard_u32 v0 = 0
to_standard_u32 v2 = 2

-- `TryFrom<usize>`: the error keeps the low 32 bits.
unfoldable pub try_from : ℕ → Result PsbtUnsupportedVer PsbtVer
try_from value =
    if value == 0
    then ok v0
    else if value == 2
    then ok v2
    else err (record { version = value % 2 ^ 32 })

-- the derived order, `a <= b`
abbrev pub ver_leb : PsbtVer → PsbtVer → Bool
ver_leb v0 b = true
ver_leb v2 v0 = false
ver_leb v2 v2 = true
