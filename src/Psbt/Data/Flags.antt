-- ===== src/Psbt/Data/Flags.antt =====
-- `ModifiableFlags` of psbt/src/data.rs, a set of flags in one byte.
use bp_std.Prelude.{ℕ, ◌+◌, ◌*◌, ◌/◌, ◌%◌, Bool, true, false, ◌||◌, ◌==◌, ◌≡◌, arith}
use bp_std.Psbt.Coders.Reader.{Decoder, ◌>>=◌, pure}
use bp_std.Psbt.Coders.Writer.{Encoder}
use bp_std.Psbt.Coders.Wire.{Wire}

-- `unknown` is a `u5`
pub record ModifiableFlags : Type 0 where
  pub inputs_modifiable : Bool
  pub outputs_modifiable : Bool
  pub sighash_single : Bool
  pub unknown : ℕ

abbrev pub unmodifiable : ModifiableFlags
unmodifiable = record {
  inputs_modifiable = false;
  outputs_modifiable = false;
  sighash_single = false;
  unknown = 0;
}

abbrev pub modifiable : ModifiableFlags
modifiable = record {
  inputs_modifiable = true;
  outputs_modifiable = true;
  sighash_single = false;
  unknown = 0;
}

abbrev pub modifiable_sighash_single : ModifiableFlags
modifiable_sighash_single = record {
  inputs_modifiable = true;
  outputs_modifiable = true;
  sighash_single = true;
  unknown = 0;
}

-- bit `k` of a byte is `val / 2 ^ k % 2`, and `val >> 3` is `val / 8`
unfoldable pub from_standard_u8 : ℕ → ModifiableFlags
from_standard_u8 val = record {
  inputs_modifiable = val % 2 == 1;
  outputs_modifiable = val / 2 % 2 == 1;
  sighash_single = val / 4 % 2 == 1;
  unknown = val / 8;
}

-- `b as u8`
abbrev pub bit : Bool → ℕ
bit true = 1
bit false = 0

-- the flags are or-ed at places of their own
unfoldable pub to_standard_u8 : ModifiableFlags → ℕ
to_standard_u8 f = bit f.inputs_modifiable + 2 * bit f.outputs_modifiable + 4 * bit f.sighash_single

unfoldable pub is_modifiable : ModifiableFlags → Bool
is_modifiable f = f.inputs_modifiable || f.outputs_modifiable || f.sighash_single

module _ (w : Wire) where
  -- `Encode for ModifiableFlags`
  unfoldable pub encode_flags : Encoder ModifiableFlags
  encode_flags f = w.u8.encode (to_standard_u8 f)

  -- `Decode for ModifiableFlags`
  unfoldable pub decode_flags : Decoder ModifiableFlags
  decode_flags = do val ← w.u8.decode; pure (from_standard_u8 val)

-- Writing the flags that were read from a byte gives the lower three bits of that byte: the other
-- five, which reading keeps as unknown, are lost.
pub to_standard_u8-from_standard_u8 : (val : ℕ) → to_standard_u8 (from_standard_u8 val) ≡ val % 8
unfolding to_standard_u8 from_standard_u8
to_standard_u8-from_standard_u8 val = ground arith

-- Reading what was written gives the flags back exactly with their unknown bits cleared.
from_standard_u8-to_standard_u8 :
    (f : ModifiableFlags) → from_standard_u8 (to_standard_u8 f) ≡ record f { unknown = 0 }
unfolding to_standard_u8 from_standard_u8
from_standard_u8-to_standard_u8 f = ground arith
