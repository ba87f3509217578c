-- ===== src/Derive/Tests/Keys.antt =====
-- The theorems on derive/src/xpub.rs at concrete keys.
use bp_std.Prelude.{
  ℕ, zero, suc, ◌+◌, ◌^◌, ◌≤◌, Bytes, [], ◌∷◌, ◌++◌, length, Bool, true, false, Option, none, some,
  codes, All, ltb, ◌==◌, ◌-◌, if◌then◌else◌, not, Option-cases, ◌≡◌, inl, inr, refl, arith,
}
use bp_std.Consensus.{Types}
use bp_std.Derive.Index.Hardened.{HardenedIndex}
use bp_std.Derive.Index.Derivation.{hardened, index}
use bp_std.Prelude.Text.{Lacks}
use bp_std.Derive.Index.Hardened
use bp_std.Derive.Xpub.Text.{last}
use bp_std.Derive.Xpub.{is_hex, Bip32, IsBip32, Xpub}

-- two keys and two fingerprints
abbrev pub keys : Types
keys = record {
  Txid = Unit;
  Vout = Unit;
  TxVer = Unit;
  SeqNo = Unit;
  LockTime = Unit;
  LockTimestamp = Unit;
  LockHeight = Unit;
  SigScript = Unit;
  Witness = Unit;
  ScriptPubkey = Unit;
  RedeemScript = Unit;
  WitnessScript = Unit;
  SighashType = Unit;
  LegacyPk = Unit;
  LegacySig = Unit;
  CompressedPk = Bool;
  XOnlyPk = Unit;
  InternalPk = Unit;
  Bip340Sig = Unit;
  TapNodeHash = Unit;
  TapLeafHash = Unit;
  ControlBlock = Unit;
  LeafScript = Unit;
  Xpub = Unit;
  XpubFp = Bool;
}

abbrev pub repeat : ℕ → ℕ → Bytes
repeat zero byte = []
repeat (suc n) byte = byte ∷ repeat n byte

abbrev fp_text : Bool → Bytes
fp_text false = codes "00000000"
fp_text true = codes "0000000a"

abbrev ends_in_a : Bytes → Bool
ends_in_a s = elim (last s) [ none ↦ false | some c ↦ c == b'a' ]

abbrev first_is : ℕ → Bytes → Bool
first_is n [] = false
first_is n (c ∷ s) = c == n

-- a text of bytes without a slash
abbrev shift_up : Bytes → Bytes
shift_up [] = []
shift_up (c ∷ s) = (c + 48) ∷ shift_up s

abbrev shift_down : Bytes → Option Bytes
shift_down [] = some []
shift_down (c ∷ s) = elim (shift_down s) [
  | none ↦ none
  | some rest ↦ if ltb c 48 then none else some ((c - 48) ∷ rest)
]

shift_down-shift_up : (s : Bytes) → shift_down (shift_up s) ≡ some s
shift_down-shift_up [] = refl
shift_down-shift_up (c ∷ s) = rw (shift_down-shift_up s) (ground arith)

shift_up-Lacks : (s : Bytes) → Lacks b'/' (shift_up s)
shift_up-Lacks [] = tt
shift_up-Lacks (c ∷ s) = (λ e. omega (arith, e), shift_up-Lacks s)

shift_down-slash : (s rest : Bytes) → shift_down (s ++ b'/' ∷ rest) ≡ none
shift_down-slash [] rest = elim (Option-cases (shift_down rest)) [
  | inl absent ↦ rw absent refl
  | inr (t, found) ↦ rw found refl
]
shift_down-slash (c ∷ s) rest = rw (shift_down-slash s rest) refl

abbrev pub bip32 : Bip32 keys
bip32 = record {
  fp_bytes = λ fp. if fp then repeat 4 1 else repeat 4 0;
  fp_from = first_is 1;
  fp_default = false;
  fp_to_hex = fp_text;
  fp_from_hex = λ s. some (ends_in_a s);
  serialize = λ pk. if pk then repeat 33 3 else repeat 33 2;
  pk_from_bytes = λ s. some (first_is 3 s);
  hash160 = λ s. repeat 20 1;
  hmac_sha512 = λ key s. repeat 64 5;
  Scalar = Unit;
  secret_key_from_slice = λ s. some tt;
  add_exp_tweak = λ pk scalar. some (not pk);
  encode_check = shift_up;
  decode_check = shift_down;
}

fp_length : (fp : Bool) → length (bip32.fp_bytes fp) ≡ 4
fp_length true = refl
fp_length false = refl

fp_back : (fp : Bool) → bip32.fp_from (bip32.fp_bytes fp) ≡ fp
fp_back true = refl
fp_back false = refl

hex_digits : (fp : Bool) → All (λ c. is_hex c ≡ true) (fp_text fp)
hex_digits true = (refl, (refl, (refl, (refl, (refl, (refl, (refl, (refl, tt))))))))
hex_digits false = (refl, (refl, (refl, (refl, (refl, (refl, (refl, (refl, tt))))))))

hex_length : (fp : Bool) → length (fp_text fp) ≡ 8
hex_length true = refl
hex_length false = refl

hex_back : (fp : Bool) → bip32.fp_from_hex (fp_text fp) ≡ some fp
hex_back true = refl
hex_back false = refl

pk_length : (pk : Bool) → length (bip32.serialize pk) ≡ 33
pk_length true = refl
pk_length false = refl

pk_back : (pk : Bool) → bip32.pk_from_bytes (bip32.serialize pk) ≡ some pk
pk_back true = refl
pk_back false = refl

pub bip32-IsBip32 : IsBip32 bip32
bip32-IsBip32 = record {
  fp_length = fp_length;
  fp_back = fp_back;
  hex_digits = hex_digits;
  hex_length = hex_length;
  hex_back = hex_back;
  hex_default = refl;
  pk_length = pk_length;
  pk_back = pk_back;
  check_back = shift_down-shift_up;
  check_no_slash = shift_up-Lacks;
  no_slash = shift_down-slash;
}

-- the key of a test account
abbrev pub account : Xpub keys
account = record {
  testnet = true;
  meta = record { depth = 3; parent_fp = true; child_number = hardened (record { value = 0 }) };
  core = record { public_key = true; chain_code = repeat 32 9 };
}

pub account_fits : 2 ^ 31 ≤ index account.meta.child_number
unfolding index Hardened.index
account_fits = omega arith
