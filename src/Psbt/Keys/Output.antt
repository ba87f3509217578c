-- ===== src/Psbt/Keys/Output.antt =====
-- `OutputKey` of psbt/src/keys.rs: the keys of the output map and their tables.
use bp_std.Prelude.{ℕ, Bool, true, false, Option, none, List, [], ◌∷◌, ◌+◌, ◌==◌, if◌then◌else◌}
use bp_std.Psbt.Ver.{PsbtVer, v0, v2}
use bp_std.Psbt.Keys.KeyType.{KeyType}

pub data OutputKey : Type 0 where
  redeem_script witness_script bip32_derivation amount script tap_internal_key tap_tree
        tap_bip32_derivation proprietary :
      OutputKey
  unknown : ℕ → OutputKey

abbrev pub psbt_out_redeem_script : ℕ
psbt_out_redeem_script = 0x00

abbrev pub psbt_out_witness_script : ℕ
psbt_out_witness_script = 0x01

abbrev pub psbt_out_bip32_derivation : ℕ
psbt_out_bip32_derivation = 0x02

abbrev pub psbt_out_amount : ℕ
psbt_out_amount = 0x03

abbrev pub psbt_out_script : ℕ
psbt_out_script = 0x04

abbrev pub psbt_out_tap_internal_key : ℕ
psbt_out_tap_internal_key = 0x05

abbrev pub psbt_out_tap_tree : ℕ
psbt_out_tap_tree = 0x06

abbrev pub psbt_out_tap_bip32_derivation : ℕ
psbt_out_tap_bip32_derivation = 0x07

abbrev pub psbt_out_proprietary : ℕ
psbt_out_proprietary = 0xFC

-- `KeyType::into_u8`
unfoldable pub into_u8 : OutputKey → ℕ
into_u8 redeem_script = psbt_out_redeem_script
into_u8 witness_script = psbt_out_witness_script
into_u8 bip32_derivation = psbt_out_bip32_derivation
into_u8 amount = psbt_out_amount
into_u8 script = psbt_out_script
into_u8 tap_internal_key = psbt_out_tap_internal_key
into_u8 tap_tree = psbt_out_tap_tree
into_u8 tap_bip32_derivation = psbt_out_tap_bip32_derivation
into_u8 proprietary = psbt_out_proprietary
into_u8 (unknown x) = x

-- `KeyType::from_u8`: the first variant whose byte is `val`
unfoldable pub from_u8 : ℕ → OutputKey
unfolding into_u8
from_u8 val =
    if val == into_u8 redeem_script
    then redeem_script
    else if val == into_u8 witness_script
    then witness_script
    else if val == into_u8 bip32_derivation
    then bip32_derivation
    else if val == into_u8 amount
    then amount
    else if val == into_u8 script
    then script
    else if val == into_u8 tap_internal_key
    then tap_internal_key
    else if val == into_u8 tap_tree
    then tap_tree
    else if val == into_u8 tap_bip32_derivation
    then tap_bip32_derivation
    else if val == into_u8 proprietary
    then proprietary
    else unknown val

-- `KeyType::has_key_data`
unfoldable pub has_key_data : OutputKey → Bool
has_key_data redeem_script = false
has_key_data witness_script = false
has_key_data bip32_derivation = true
has_key_data amount = false
has_key_data script = false
has_key_data tap_internal_key = false
has_key_data tap_tree = false
has_key_data tap_bip32_derivation = true
has_key_data proprietary = true
has_key_data (unknown _) = true

-- `KeyType::present_since`
unfoldable pub present_since : OutputKey → PsbtVer
present_since redeem_script = v0
present_since witness_script = v0
present_since bip32_derivation = v0
present_since amount = v2
present_since script = v2
present_since tap_internal_key = v0
present_since tap_tree = v0
present_since tap_bip32_derivation = v0
present_since proprietary = v0
present_since (unknown _) = v0

-- `KeyType::deprecated_since`
unfoldable pub deprecated_since : OutputKey → Option PsbtVer
deprecated_since redeem_script = none
deprecated_since witness_script = none
deprecated_since bip32_derivation = none
deprecated_since amount = none
deprecated_since script = none
deprecated_since tap_internal_key = none
deprecated_since tap_tree = none
deprecated_since tap_bip32_derivation = none
deprecated_since proprietary = none
deprecated_since (unknown _) = none

-- `KeyType::is_required`
unfoldable pub is_required : OutputKey → Bool
is_required redeem_script = false
is_required witness_script = false
is_required bip32_derivation = false
is_required amount = true
is_required script = true
is_required tap_internal_key = false
is_required tap_tree = false
is_required tap_bip32_derivation = false
is_required proprietary = false
is_required (unknown _) = false

-- `KeyType::is_proprietary`
unfoldable pub is_proprietary : OutputKey → Bool
is_proprietary proprietary = true
is_proprietary _ = false

-- the derived order: the position of the variant, then the payload
unfoldable pub order : OutputKey → ℕ
order redeem_script = 0
order witness_script = 1
order bip32_derivation = 2
order amount = 3
order script = 4
order tap_internal_key = 5
order tap_tree = 6
order tap_bip32_derivation = 7
order proprietary = 8
order (unknown x) = 9 + x

-- `KeyType::STANDARD`
abbrev pub standard : List OutputKey
standard =
    redeem_script ∷ witness_script ∷ bip32_derivation ∷ amount ∷ script ∷ tap_internal_key
    ∷ tap_tree ∷ tap_bip32_derivation ∷ []

instance abbrev pub output_key_type : KeyType OutputKey
output_key_type = record {
  standard = standard;
  unknown_unchecked = unknown;
  from_u8 = from_u8;
  into_u8 = into_u8;
  has_key_data = has_key_data;
  present_since = present_since;
  deprecated_since = deprecated_since;
  is_required = is_required;
  is_proprietary = is_proprietary;
  order = order;
}
