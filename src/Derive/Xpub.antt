-- ===== src/Derive/Xpub.antt =====
-- `Xpub` of derive/src/xpub.rs: its layout in 78 bytes and the derivation of public keys.
pub mod Layout
pub mod Derived
pub mod Origin
pub mod Text
pub mod Derivable
use bp_std.Prelude.{
  ℕ, zero, suc, ◌+◌, ◌%◌, ◌^◌, Bytes, List, [], ◌∷◌, ◌++◌, length, ◌==◌, Bool, true, false,
  if◌then◌else◌, Option, none, some, get_elem?, All, codes, leb, ◌&&◌, ◌||◌, ◌≡◌,
}
use bp_std.Prelude.Eq.{bytes_eq}
use bp_std.Prelude.Big.{to_be_bytes, from_be_bytes, take, range}
use bp_std.Prelude.Text.{Lacks}
use bp_std.Prelude.Results.{Result, ok, err, ◌>>=◌, ok_or}
use bp_std.Consensus.{Types}
use bp_std.Derive.Index.Normal
use bp_std.Derive.Index.Normal.{NormalIndex}
use bp_std.Derive.Index.Derivation.{DerivationIndex, normal, from_index, index}

-- What is taken from amplify, bp-core, bitcoin_hashes and secp256k1: fingerprints as four bytes
-- and in hexadecimal, compressed keys, two hashes and the arithmetic of tweaks; and the text of
-- bytes in Base58 with a checksum.
pub record Bip32 (T : Types) : Type 1 where
  pub fp_bytes : T.XpubFp → Bytes
  pub fp_from : Bytes → T.XpubFp
  pub fp_default : T.XpubFp
  pub fp_to_hex : T.XpubFp → Bytes
  pub fp_from_hex : Bytes → Option T.XpubFp
  pub serialize : T.CompressedPk → Bytes
  pub pk_from_bytes : Bytes → Option T.CompressedPk
  pub hash160 : Bytes → Bytes
  pub hmac_sha512 : Bytes → Bytes → Bytes
  pub Scalar : Type 0
  pub secret_key_from_slice : Bytes → Option Scalar
  pub add_exp_tweak : T.CompressedPk → Scalar → Option T.CompressedPk
  pub encode_check : Bytes → Bytes
  pub decode_check : Bytes → Option Bytes

-- a hexadecimal digit of lower case
abbrev pub is_hex : ℕ → Bool
is_hex c = (leb b'0' c && leb c b'9') || (leb b'a' c && leb c b'f')

-- What is documented of them. The Base58 alphabet has no slash.
pub record IsBip32 {T : Types} (b : Bip32 T) : Type 0 where
  pub fp_length : (fp : T.XpubFp) → length (b.fp_bytes fp) ≡ 4
  pub fp_back : (fp : T.XpubFp) → b.fp_from (b.fp_bytes fp) ≡ fp
  pub hex_digits : (fp : T.XpubFp) → All (λ c. is_hex c ≡ true) (b.fp_to_hex fp)
  pub hex_length : (fp : T.XpubFp) → length (b.fp_to_hex fp) ≡ 8
  pub hex_back : (fp : T.XpubFp) → b.fp_from_hex (b.fp_to_hex fp) ≡ some fp
  pub hex_default : b.fp_to_hex b.fp_default ≡ codes "00000000"
  pub pk_length : (pk : T.CompressedPk) → length (b.serialize pk) ≡ 33
  pub pk_back : (pk : T.CompressedPk) → b.pk_from_bytes (b.serialize pk) ≡ some pk
  pub check_back : (bytes : Bytes) → b.decode_check (b.encode_check bytes) ≡ some bytes
  pub check_no_slash : (bytes : Bytes) → Lacks b'/' (b.encode_check bytes)
  pub no_slash : (text rest : Bytes) → b.decode_check (text ++ b'/' ∷ rest) ≡ none

-- `XPUB_MAINNET_MAGIC`, `XPUB_TESTNET_MAGIC`
abbrev pub xpub_mainnet_magic : Bytes
xpub_mainnet_magic = 0x04 ∷ 0x88 ∷ 0xB2 ∷ 0x1E ∷ []

abbrev pub xpub_testnet_magic : Bytes
xpub_testnet_magic = 0x04 ∷ 0x35 ∷ 0x87 ∷ 0xCF ∷ []

pub data XpubDecodeError : Type 0 where
  wrong_extended_key_length : ℕ → XpubDecodeError
  unknown_key_type : Bytes → XpubDecodeError
  invalid_pubkey : XpubDecodeError

-- `ChainCode`, 32 bytes
abbrev pub ChainCode : Type 0
ChainCode = Bytes

pub record XpubCore (T : Types) : Type 0 where
  pub public_key : T.CompressedPk
  pub chain_code : ChainCode

pub record XpubMeta (T : Types) : Type 0 where
  pub depth : ℕ
  pub parent_fp : T.XpubFp
  pub child_number : DerivationIndex

pub record Xpub (T : Types) : Type 0 where
  pub testnet : Bool
  pub meta : XpubMeta T
  pub core : XpubCore T

module _ {T : Types} (b : Bip32 T) where
  -- the arms of the `match` on the first four bytes
  abbrev pub network_of : Bytes → Result XpubDecodeError Bool
  network_of magic =
      if bytes_eq magic xpub_mainnet_magic
      then ok false
      else if bytes_eq magic xpub_testnet_magic
      then ok true
      else err (unknown_key_type magic)

  abbrev pub byte_at : Bytes → ℕ → ℕ
  byte_at bytes i = elim (get_elem? bytes i) [ none ↦ 0 | some byte ↦ byte ]

  -- the bytes of a key, once their number is known
  abbrev pub decode_fields : Bytes → Result XpubDecodeError (Xpub T)
  decode_fields bytes = do
    testnet ← network_of (range bytes 0 4)
    public_key ← ok_or invalid_pubkey (b.pk_from_bytes (range bytes 45 78))
    ok (record {
      testnet = testnet;
      meta = record {
        depth = byte_at bytes 4;
        parent_fp = b.fp_from (range bytes 5 9);
        child_number = from_index (from_be_bytes (range bytes 9 13));
      };
      core = record { public_key = public_key; chain_code = range bytes 13 45 };
    })

  unfoldable pub decode : Bytes → Result XpubDecodeError (Xpub T)
  decode bytes =
      if length bytes == 78
      then decode_fields bytes
      else err (wrong_extended_key_length (length bytes))

  unfoldable pub encode : Xpub T → Bytes
  encode x =
      (if x.testnet then xpub_testnet_magic else xpub_mainnet_magic)
      ++ (x.meta.depth
          ∷ (b.fp_bytes x.meta.parent_fp
              ++ (to_be_bytes 4 (index x.meta.child_number)
                  ++ (x.core.chain_code ++ b.serialize x.core.public_key))))

  -- `identifier` and `fingerprint`
  unfoldable pub identifier : Xpub T → Bytes
  identifier x = b.hash160 (b.serialize x.core.public_key)

  unfoldable pub fingerprint : Xpub T → T.XpubFp
  unfolding identifier
  fingerprint x = b.fp_from (take 4 (identifier x))

  -- `none` is the panic of `expect`
  unfoldable pub ckd_pub_tweak : Xpub T → NormalIndex → Option (b.Scalar × ChainCode)
  ckd_pub_tweak x child_no =
      let hmac_result =
        b.hmac_sha512 x.core.chain_code
          (b.serialize x.core.public_key ++ to_be_bytes 4 child_no.value) in
      elim (b.secret_key_from_slice (range hmac_result 0 32)) [
        | none ↦ none
        | some private_key ↦ some (private_key, range hmac_result 32 64)
      ]

  -- the child of a tweaked key; the depth is a byte
  abbrev pub child_of : Xpub T → NormalIndex → T.CompressedPk → ChainCode → Xpub T
  child_of x child_no tweaked chain_code = record {
    testnet = x.testnet;
    meta = record {
      depth = (x.meta.depth + 1) % 256;
      parent_fp = fingerprint x;
      child_number = normal child_no;
    };
    core = record { public_key = tweaked; chain_code = chain_code };
  }

  unfoldable pub ckd_pub : Xpub T → NormalIndex → Option (Xpub T)
  unfolding ckd_pub_tweak fingerprint
  ckd_pub x child_no = elim (ckd_pub_tweak x child_no) [
    | none ↦ none
    | some (scalar, chain_code) ↦ elim (b.add_exp_tweak x.core.public_key scalar) [
      | none ↦ none
      | some tweaked ↦ some (child_of x child_no tweaked chain_code)
    ]
  ]

  unfoldable pub derive_pub : Xpub T → List NormalIndex → Option (Xpub T)
  unfolding ckd_pub
  derive_pub x [] = some x
  derive_pub x (cnum ∷ path) = elim (ckd_pub x cnum) [
    | none ↦ none
    | some child ↦ derive_pub child path
  ]
