-- ===== src/Derive/Tests/Specs.antt =====
-- The theorems on the texts of derive/src/xpub.rs at concrete keys.
use bp_std.Prelude.{
  ℕ, ◌+◌, ◌%◌, Bytes, [], ◌∷◌, ◌++◌, true, false, some, codes, ◌≡◌, ◌≢◌, ◌↔◌, inr, refl, arith,
}
use bp_std.Prelude.Decimal.{parse_decimal}
use bp_std.Prelude.Big.{to_be_bytes, from_be_bytes}
use bp_std.Prelude.Text.{split, split_once, strip_suffix, trim_start, traverse}
use bp_std.Prelude.Results.{ok}
use bp_std.Derive.Index.Hardened
use bp_std.Derive.Index.Hardened.{HardenedIndex}
use bp_std.Derive.Index.Derivation.{normal, hardened, index, from_index}
use bp_std.Derive.Index.Text.{parse_hardened}
use bp_std.Derive.Path.{parse_path}
use bp_std.Derive.Origins.{XpubOrigin, KeyOrigin}
use bp_std.Derive.Xpub.{
  Xpub, encode, decode, fingerprint, identifier, ckd_pub, ckd_pub_tweak, derive_pub,
}
use bp_std.Derive.Xpub.Derived.{derive_pub-child}
use bp_std.Derive.Xpub.Origin.{parse_xpub_origin, show_xpub_origin}
use bp_std.Derive.Xpub.Origin.RoundTrip.{origins_iff}
use bp_std.Derive.Xpub.Text.{
  XpubSpec, parse_key_origin, show_key_origin, parse_xpub, show_xpub, checked_spec, parse_spec,
  show_spec,
}
use bp_std.Derive.Xpub.Text.Spec.{Matches}
use bp_std.Derive.Xpub.Text.Accepted.{parse_spec-Matches, parse_spec-ne-show_spec}
use bp_std.Derive.Xpub.Derivable.{XpubDerivable, parse_derivable, show_derivable}
use bp_std.Derive.Xpub.Derivable.RoundTrip.{IsDerivable, parse_derivable-show_derivable}
use bp_std.Derive.Tests.Keys.{repeat, keys, bip32, bip32-IsBip32, account, account_fits}

abbrev fresh : ℕ → HardenedIndex
fresh n = record { value = n }

abbrev origin : XpubOrigin keys
origin = record { master_fp = true; derivation = fresh 86 ∷ fresh 1 ∷ fresh 0 ∷ [] }

abbrev key_origin : KeyOrigin keys
key_origin = record {
  master_fp = false;
  derivation = hardened (fresh 86) ∷ normal (record { value = 7 }) ∷ [];
}

origins_iff_example :
    ((parse_xpub_origin bip32 (show_xpub_origin bip32 true origin) ≡ ok origin)
      ↔ (origin.derivation ≢ []))
    × ((parse_key_origin bip32 (show_key_origin bip32 key_origin) ≡ ok key_origin)
        ↔ (key_origin.derivation ≢ []))
origins_iff_example =
    origins_iff bip32 bip32-IsBip32 true origin key_origin
      (omega arith, (omega arith, (omega arith, tt))) (omega arith, (omega arith, tt))

-- the child 7 of the child 1 of the account
abbrev derived : Xpub keys
derived = record {
  testnet = true;
  meta = record { depth = 5; parent_fp = true; child_number = normal (record { value = 7 }) };
  core = record { public_key = true; chain_code = repeat 32 5 };
}

account_derives :
    derive_pub bip32 account ((record { value = 1 } ∷ []) ++ record { value = 7 } ∷ [])
    ≡ some derived
unfolding derive_pub ckd_pub ckd_pub_tweak fingerprint identifier
account_derives = refl

derive_pub-child_example :
    (parent : Xpub keys) × (derive_pub bip32 account (record { value = 1 } ∷ []) ≡ some parent)
    × (ckd_pub bip32 parent (record { value = 7 }) ≡ some derived)
    × (derived.meta.parent_fp ≡ fingerprint bip32 parent)
    × (derived.meta.child_number ≡ normal (record { value = 7 }))
    × (derived.testnet ≡ account.testnet)
    × (derived.meta.depth ≡ (account.meta.depth + 1 + 1) % 256)
derive_pub-child_example =
    derive_pub-child bip32 account derived (record { value = 1 } ∷ []) (record { value = 7 })
      (omega arith) account_derives

abbrev spec : XpubSpec bip32
spec = record { origin = origin; xpub = account }

abbrev spec_text : Bytes
spec_text = codes "[0000000a/86h/1h/0h]" ++ show_xpub bip32 account

spec_read : parse_spec bip32 spec_text ≡ ok spec
unfolding parse_spec parse_xpub_origin parse_xpub show_xpub checked_spec encode decode parse_path
    parse_hardened parse_decimal to_be_bytes from_be_bytes split split_once strip_suffix trim_start
    traverse index Hardened.index from_index Hardened.try_from_child_number
spec_read = refl

parse_spec-Matches_example : Matches bip32 origin account
parse_spec-Matches_example = parse_spec-Matches bip32 spec_text spec spec_read

parse_spec-ne-show_spec_example : parse_spec bip32 (show_spec bip32 false spec) ≢ ok spec
parse_spec-ne-show_spec_example = parse_spec-ne-show_spec bip32 bip32-IsBip32 false spec spec

abbrev wallet_key : XpubDerivable bip32
wallet_key = record {
  spec = spec;
  variant = some (record { value = 2 });
  keychains = record { value = 0 } ∷ record { value = 1 } ∷ record { value = 9 } ∷ [];
}

wallet_key-IsDerivable : IsDerivable bip32 bip32-IsBip32 wallet_key
wallet_key-IsDerivable = record {
  some_path = λ e. cc;
  reduced = (omega arith, (omega arith, (omega arith, tt)));
  chain_code = refl;
  child_in_range = omega arith;
  child_word = inr account_fits;
  variant = omega arith;
  keychains = record {
    some_keychain = omega arith;
    few = omega arith;
    ordered = (omega arith, (omega arith, tt));
    bytes = (omega arith, (omega arith, (omega arith, tt)));
  };
}

parse_derivable-show_derivable_example :
    parse_derivable bip32 (show_derivable bip32 true wallet_key) ≡ ok wallet_key
parse_derivable-show_derivable_example =
    parse_derivable-show_derivable bip32 bip32-IsBip32 true wallet_key wallet_key-IsDerivable
