-- ===== src/Psbt/Keys/Global.antt =====
-- `GlobalKey` of psbt/src/keys.rs: the keys of the global map and their tables.
use bp_std.Prelude.{
  ℕ, Bool, true, false, Option, none, some, List, [], ◌∷◌, ◌+◌, ◌==◌, if◌then◌else◌,
}
use bp_std.Psbt.Ver.{PsbtVer, v0, v2}
use bp_std.Psbt.Keys.KeyType.{KeyType}

pub data GlobalKey : Type 0 where
  unsigned_tx xpub tx_version fallback_locktime input_count output_count tx_modifiable version
        proprietary :
      GlobalKey
  unknown : ℕ → GlobalKey

abbrev pub psbt_global_unsigned_tx : ℕ
psbt_global_unsigned_tx = 0x00

abbrev pub psbt_global_xpub : ℕ
psbt_global_xpub = 0x01

abbrev pub psbt_global_tx_version : ℕ
psbt_global_tx_version = 0x02

abbrev pub psbt_global_fallback_locktime : ℕ
psbt_global_fallback_locktime = 0x03

abbrev pub psbt_global_input_count : ℕ
psbt_global_input_count = 0x04

abbrev pub psbt_global_output_count : ℕ
psbt_global_output_count = 0x05

abbrev pub psbt_global_tx_modifiable : ℕ
psbt_global_tx_modifiable = 0x06

abbrev pub psbt_global_version : ℕ
psbt_global_version = 0xFB

abbrev pub psbt_global_proprietary : ℕ
psbt_global_proprietary = 0xFC

-- `KeyType::into_u8`
unfoldable pub into_u8 : GlobalKey → ℕ
into_u8 unsigned_tx = psbt_global_unsigned_tx
into_u8 xpub = psbt_global_xpub
into_u8 tx_version = psbt_global_tx_version
into_u8 fallback_locktime = psbt_global_fallback_locktime
into_u8 input_count = psbt_global_input_count
into_u8 output_count = psbt_global_output_count
into_u8 tx_modifiable = psbt_global_tx_modifiable
into_u8 version = psbt_global_version
into_u8 proprietary = psbt_global_proprietary
into_u8 (unknown x) = x

-- `KeyType::from_u8`: the first variant whose byte is `val`
unfoldable pub from_u8 : ℕ → GlobalKey
unfolding into_u8
from_u8 val =
    if val == into_u8 unsigned_tx
    then unsigned_tx
    else if val == into_u8 xpub
    then xpub
    else if val == into_u8 tx_version
    then tx_version
    else if val == into_u8 fallback_locktime
    then fallback_locktime
    else if val == into_u8 input_count
    then input_count
    else if val == into_u8 output_count
    then output_count
    else if val == into_u8 tx_modifiable
    then tx_modifiable
    else if val == into_u8 version
    then version
    else if val == into_u8 proprietary
    then proprietary
    else unknown val

-- `KeyType::has_key_data`
unfoldable pub has_key_data : GlobalKey → Bool
has_key_data unsigned_tx = false
has_key_data xpub = true
has_key_data tx_version = false
has_key_data fallback_locktime = false
has_key_data input_count = false
has_key_data output_count = false
has_key_data tx_modifiable = false
has_key_data version = false
has_key_data proprietary = true
has_key_data (unknown _) = true

-- `KeyType::present_since`
unfoldable pub present_since : GlobalKey → PsbtVer
present_since unsigned_tx = v0
present_since xpub = v0
present_since tx_version = v2
present_since fallback_locktime = v2
present_since input_count = v2
present_since output_count = v2
present_since tx_modifiable = v2
present_since version = v0
present_since proprietary = v0
present_since (unknown _) = v0

-- `KeyType::deprecated_since`
unfoldable pub deprecated_since : GlobalKey → Option PsbtVer
deprecated_since unsigned_tx = some v2
deprecated_since xpub = none
deprecated_since tx_version = none
deprecated_since fallback_locktime = none
deprecated_since input_count = none
deprecated_since output_count = none
deprecated_since tx_modifiable = none
deprecated_since version = none
deprecated_since proprietary = none
deprecated_since (unknown _) = none

-- `KeyType::is_required`
unfoldable pub is_required : GlobalKey → Bool
is_required unsigned_tx = true
is_required xpub = false
is_required tx_version = true
is_required fallback_locktime = false
is_required input_count = true
is_required output_count = true
is_required tx_modifiable = false
is_required version = false
is_required proprietary = false
is_required (unknown _) = false

-- `KeyType::is_proprietary`
unfoldable pub is_proprietary : GlobalKey → Bool
is_proprietary proprietary = true
is_proprietary _ = false

-- the derived order: the position of the variant, then the payload
unfoldable pub order : GlobalKey → ℕ
order unsigned_tx = 0
order xpub = 1
order tx_version = 2
order fallback_locktime = 3
order input_count = 4
order output_count = 5
order tx_modifiable = 6
order version = 7
order proprietary = 8
order (unknown x) = 9 + x

-- `KeyType::STANDARD`
abbrev pub standard : List GlobalKey
standard =
    unsigned_tx ∷ xpub ∷ tx_version ∷ fallback_locktime ∷ input_count ∷ output_count ∷ tx_modifiable
    ∷ version ∷ []

instance abbrev pub global_key_type : KeyType GlobalKey
global_key_type = record {
  standard = standard;
  unknown_unchecked = unknown;
  from_u8 = from_u8;
  into_u8 = into_u8;
  has_key_data = has_key_data;
  present_since = present_since;
  deprecated_since = deprecated_since;
  is_required = is_required;
  is_proprietary = is_proprietary;
  order = order;
}
