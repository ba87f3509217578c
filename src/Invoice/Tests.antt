-- ===== src/Invoice/Tests.antt =====
-- The theorem on invoice/src/address.rs at a concrete address.
use bp_std.Prelude.{
  ℕ, zero, suc, Bytes, [], ◌∷◌, ◌++◌, length, ◌==◌, ◌&&◌, Bool, true, false, if◌then◌else◌, none,
  some, ◌≡◌, ◌≢◌, ◌↔◌, refl, length-append, arith,
}
use bp_std.Prelude.Big.{take-append}
use bp_std.Prelude.Results.{ok}
use bp_std.Invoice.Address.{
  Scripts, wpkh, Address, testnet, p2sh, script_pubkey, address_type, with_script,
}
use bp_std.Invoice.Address.Script.{IsScripts, with_script-script_pubkey_iff}

abbrev repeat : ℕ → ℕ → Bytes
repeat zero byte = []
repeat (suc n) byte = byte ∷ repeat n byte

abbrev starts : ℕ → ℕ → Bytes → Bool
starts a c [] = false
starts a c (x ∷ []) = false
starts a c (x ∷ y ∷ rest) = x == a && y == c

abbrev first_is : ℕ → Bytes → Bool
first_is n [] = false
first_is n (c ∷ bytes) = c == n

-- the opcodes of the templates
abbrev scripts : Scripts
scripts = record {
  OutputPk = Bool;
  to_byte_array = λ pk. if pk then repeat 32 1 else repeat 32 0;
  from_byte_array = λ bytes. some (first_is 1 bytes);
  p2pkh = λ h. 0x76 ∷ 0xa9 ∷ 20 ∷ (h ++ 0x88 ∷ 0xac ∷ []);
  p2sh = λ h. 0xa9 ∷ 20 ∷ (h ++ 0x87 ∷ []);
  p2wpkh = λ h. 0 ∷ 20 ∷ h;
  p2wsh = λ h. 0 ∷ 32 ∷ h;
  p2tr_tweaked = λ pk. 0x51 ∷ 32 ∷ (if pk then repeat 32 1 else repeat 32 0);
  is_p2pkh = starts 0x76 0xa9;
  is_p2sh = starts 0xa9 20;
  is_p2wpkh = starts 0 20;
  is_p2wsh = starts 0 32;
  is_p2tr = starts 0x51 32;
}

pk_length : (pk : Bool) → length (scripts.to_byte_array pk) ≡ 32
pk_length true = refl
pk_length false = refl

pk_back : (pk : Bool) → scripts.from_byte_array (scripts.to_byte_array pk) ≡ some pk
pk_back true = refl
pk_back false = refl

scripts-IsScripts : IsScripts scripts
scripts-IsScripts = record {
  pk_length = pk_length;
  pk_back = pk_back;
  p2pkh_is = λ h. refl;
  p2pkh_hash = λ h len. take-append 20 h (0x88 ∷ 0xac ∷ []) len;
  p2sh_is = λ h. (refl, refl);
  p2sh_length = λ h len. omega (arith, len, length-append h (0x87 ∷ []));
  p2wpkh_is = λ h. (refl, refl, refl);
  p2wpkh_hash = λ h len. refl;
  p2wsh_is = λ h. (refl, refl, refl, refl);
  p2wsh_hash = λ h len. refl;
  p2tr_is = λ pk. (refl, refl, refl, refl, refl);
  p2tr_key = λ pk. refl;
}

-- an address of the test network for a key hash
abbrev address : Address scripts
address = record { payload = wpkh (repeat 20 4); network = testnet }

with_script-script_pubkey_iff_example :
    ((with_script scripts (script_pubkey scripts address.payload) testnet ≡ some (ok address))
      ↔ (address_type scripts address.payload ≢ p2sh))
    × ((with_script scripts (script_pubkey scripts address.payload) testnet ≡ none)
        ↔ (address_type scripts address.payload ≡ p2sh))
with_script-script_pubkey_iff_example =
    with_script-script_pubkey_iff scripts scripts-IsScripts address refl
