-- ===== src/Psbt/Keys/Laws.antt =====
-- What the codecs of psbt/src/coders.rs and psbt/src/maps.rs rely on in a key type.
use bp_std.Prelude.{ℕ, true, false, ◌≡◌, refl, arith}
use bp_std.Psbt.Keys.KeyType.{KeyType, is_standard}
use bp_std.Psbt.Keys.Global.{GlobalKey, global_key_type}
use bp_std.Psbt.Keys.Input.{InputKey, input_key_type}
use bp_std.Psbt.Keys.Output.{OutputKey, output_key_type}
use bp_std.Psbt.Keys.Global
use bp_std.Psbt.Keys.Input
use bp_std.Psbt.Keys.Output

-- The byte of a key determines it, and the bytes of the standard keys are not those of the
-- proprietary keys; `order` tells keys apart.
pub record IsLawful {K : Type 0} (t : KeyType K) : Type 0 where
  pub into_from : (b : ℕ) → t.into_u8 (t.from_u8 b) ≡ b
  pub from_into : (k : K) → is_standard ⦃t = t⦄ k ≡ true → t.from_u8 (t.into_u8 k) ≡ k
  pub from_into_proprietary : (k : K) → t.is_proprietary k ≡ true → t.from_u8 (t.into_u8 k) ≡ k
  pub not_both : (k : K) → is_standard ⦃t = t⦄ k ≡ true → t.is_proprietary k ≡ false
  pub order_injective : (a b : K) → t.order a ≡ t.order b → a ≡ b

from_into_global : (k : GlobalKey) → is_standard k ≡ true → Global.from_u8 (Global.into_u8 k) ≡ k
unfolding Global.from_u8 Global.into_u8 Global.order
from_into_global GlobalKey.unsigned_tx h = refl
from_into_global k h = ground arith

proprietary_global :
    (k : GlobalKey) → Global.is_proprietary k ≡ true → Global.from_u8 (Global.into_u8 k) ≡ k
unfolding Global.from_u8 Global.into_u8 Global.is_proprietary
proprietary_global GlobalKey.unsigned_tx h = cc
proprietary_global k h = ground arith

not_both_global : (k : GlobalKey) → is_standard k ≡ true → Global.is_proprietary k ≡ false
unfolding Global.order Global.is_proprietary
not_both_global GlobalKey.unsigned_tx h = refl
not_both_global k h = ground arith

order_global : (a b : GlobalKey) → Global.order a ≡ Global.order b → a ≡ b
unfolding Global.order
order_global a b h = ground arith

into_from_global : (b : ℕ) → Global.into_u8 (Global.from_u8 b) ≡ b
unfolding Global.from_u8 Global.into_u8
into_from_global b = ground arith

-- The keys of the global map obey the laws.
pub global-IsLawful : IsLawful global_key_type
global-IsLawful = record {
  into_from = into_from_global;
  from_into = from_into_global;
  from_into_proprietary = proprietary_global;
  not_both = not_both_global;
  order_injective = order_global;
}

from_into_input : (k : InputKey) → is_standard k ≡ true → Input.from_u8 (Input.into_u8 k) ≡ k
unfolding Input.from_u8 Input.into_u8 Input.order
from_into_input InputKey.non_witness_utxo h = refl
from_into_input k h = ground arith

proprietary_input :
    (k : InputKey) → Input.is_proprietary k ≡ true → Input.from_u8 (Input.into_u8 k) ≡ k
unfolding Input.from_u8 Input.into_u8 Input.is_proprietary
proprietary_input InputKey.non_witness_utxo h = cc
proprietary_input k h = ground arith

not_both_input : (k : InputKey) → is_standard k ≡ true → Input.is_proprietary k ≡ false
unfolding Input.order Input.is_proprietary
not_both_input InputKey.non_witness_utxo h = refl
not_both_input k h = ground arith

order_input : (a b : InputKey) → Input.order a ≡ Input.order b → a ≡ b
unfolding Input.order
order_input a b h = ground arith

into_from_input : (b : ℕ) → Input.into_u8 (Input.from_u8 b) ≡ b
unfolding Input.from_u8 Input.into_u8
into_from_input b = ground arith

-- The keys of the input map obey the laws.
pub input-IsLawful : IsLawful input_key_type
input-IsLawful = record {
  into_from = into_from_input;
  from_into = from_into_input;
  from_into_proprietary = proprietary_input;
  not_both = not_both_input;
  order_injective = order_input;
}

from_into_output : (k : OutputKey) → is_standard k ≡ true → Output.from_u8 (Output.into_u8 k) ≡ k
unfolding Output.from_u8 Output.into_u8 Output.order
from_into_output OutputKey.redeem_script h = refl
from_into_output k h = ground arith

proprietary_output :
    (k : OutputKey) → Output.is_proprietary k ≡ true → Output.from_u8 (Output.into_u8 k) ≡ k
unfolding Output.from_u8 Output.into_u8 Output.is_proprietary
proprietary_output OutputKey.redeem_script h = cc
proprietary_output k h = ground arith

not_both_output : (k : OutputKey) → is_standard k ≡ true → Output.is_proprietary k ≡ false
unfolding Output.order Output.is_proprietary
not_both_output OutputKey.redeem_script h = refl
not_both_output k h = ground arith

order_output : (a b : OutputKey) → Output.order a ≡ Output.order b → a ≡ b
unfolding Output.order
order_output a b h = ground arith

into_from_output : (b : ℕ) → Output.into_u8 (Output.from_u8 b) ≡ b
unfolding Output.from_u8 Output.into_u8
into_from_output b = ground arith

-- The keys of the output map obey the laws.
pub output-IsLawful : IsLawful output_key_type
output-IsLawful = record {
  into_from = into_from_output;
  from_into = from_into_output;
  from_into_proprietary = proprietary_output;
  not_both = not_both_output;
  order_injective = order_output;
}
