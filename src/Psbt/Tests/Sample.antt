-- ===== src/Psbt/Tests/Sample.antt =====
-- A concrete instance of the parameters: all foreign types are numbers, written as compact size
-- integers.
use bp_std.Prelude.{
  ℕ, ◌+◌, ◌-◌, ◌/◌, ◌%◌, ◌^◌, ltb, leb, ◌==◌, ◌&&◌, if◌then◌else◌, Bool, Bytes, List, Option, [],
  ◌∷◌, some, none, ◌≡◌, refl, sym, arith, true, ◌↔◌,
}
use bp_std.Prelude.Eq.{nat_eq, bytes_eq, bytes_eq_iff}
use bp_std.Consensus.{Types, Constants, Equalities, Sats, IsSats, total}
use bp_std.Psbt.Errors.{consensus}
use bp_std.Psbt.Coders.Reader.{◌>>=◌, pure, fail}
use bp_std.Psbt.Coders.Writer.{raw, ◌▸◌}
use bp_std.Psbt.Coders.Wire.{Codec}
use bp_std.Psbt.Coders.Unsigned.{TxCodecs, encode_unsigned_tx, decode_unsigned_tx}
use bp_std.Psbt.Coders.Paths.{
  encode_xpub_origin, decode_xpub_origin, encode_key_origin, decode_key_origin,
  encode_tap_derivation, decode_tap_derivation,
}
use bp_std.Psbt.Coders.TapTrees.{Leafs, encode_tap_tree, decode_tap_tree}
use bp_std.Derive.TapTree.{MerkleBuoy}
use bp_std.Psbt.Data.Tx.{Outpoint, TxOut}
use bp_std.Psbt.KeyMap.Values.{Codecs}
use bp_std.Psbt.Tests.CompactSize.{wire}
use native.Mathlib.Nat.{div-add-mod, mod-lt}

abbrev pub types : Types
types = record {
  Txid = ℕ;
  Vout = ℕ;
  TxVer = ℕ;
  SeqNo = ℕ;
  LockTime = ℕ;
  LockTimestamp = ℕ;
  LockHeight = ℕ;
  SigScript = ℕ;
  Witness = ℕ;
  ScriptPubkey = ℕ;
  RedeemScript = ℕ;
  WitnessScript = ℕ;
  SighashType = ℕ;
  LegacyPk = ℕ;
  LegacySig = ℕ;
  CompressedPk = ℕ;
  XOnlyPk = ℕ;
  InternalPk = ℕ;
  Bip340Sig = ℕ;
  TapNodeHash = ℕ;
  TapLeafHash = ℕ;
  ControlBlock = ℕ;
  LeafScript = ℕ;
  Xpub = ℕ;
  XpubFp = ℕ;
}

abbrev pub constants : Constants types
constants = record {
  tx_ver_v2 = 2;
  lock_time_zero = 0;
  seq_no_from_consensus_u32 = λ n. n;
  vout_from_u32 = λ n. n;
  coinbase_txid = 0;
  coinbase_vout = 2 ^ 32 - 1;
  empty_script_pubkey = 0;
  empty_sig_script = 0;
  empty_witness = 0;
}

abbrev key_eq : ℕ × Bytes → ℕ × Bytes → Bool
key_eq (n, a) (m, b) = n == m && bytes_eq a b

pub key_eq_iff : (x y : ℕ × Bytes) → (key_eq x y ≡ true) ↔ (x ≡ y)
key_eq_iff (n, a) (m, b) =
    (λ h. ground (arith, bytes_eq_iff a b), λ h. ground (arith, bytes_eq_iff a b))

abbrev pub equalities : Equalities types
equalities = record {
  legacy_pk = nat_eq;
  compressed_pk = nat_eq;
  xonly_pk = nat_eq;
  internal_pk = nat_eq;
  control_block = nat_eq;
  xpub = nat_eq;
  tap_script_sig_key = record { same = key_eq; same_iff = key_eq_iff };
}

abbrev pub sats : Sats
sats = record {
  checked_add = λ a b. if ltb (a + b) (2 ^ 64) then some (a + b) else none;
  checked_sub = λ a b. if leb b a then some (a - b) else none;
  sum = total;
  div = λ a b. a / b;
}

pub sats-IsSats : IsSats sats
sats-IsSats = record {
  add_fits = λ a b h. ground arith;
  add_overflows = λ a b h. ground arith;
  sub_fits = λ a b h. ground arith;
  sub_underflows = λ a b h. ground arith;
  sum_fits = λ ns h. refl;
  div_rounds_down = λ a b h. (a % b, sym (div-add-mod a b), mod-lt a (omega (arith, h)));
}

abbrev pub outpoint_codec : Codec (Outpoint types)
outpoint_codec = record {
  encode = λ o. wire.varint.encode o.txid ▸ wire.varint.encode o.vout;
  decode = (do
    txid ← wire.varint.decode
    vout ← wire.varint.decode
    pure (record { txid = txid; vout = vout }));
}

abbrev pub tx_out_codec : Codec (TxOut types)
tx_out_codec = record {
  encode = λ o. wire.varint.encode o.value ▸ wire.varint.encode o.script_pubkey;
  decode = (do
    value ← wire.varint.decode
    script_pubkey ← wire.varint.decode
    pure (record { value = value; script_pubkey = script_pubkey }));
}

abbrev pub tx_codecs : TxCodecs types
tx_codecs = record {
  tx_ver = wire.varint;
  outpoint = outpoint_codec;
  seq_no = wire.varint;
  tx_out = tx_out_codec;
  lock_time = wire.varint;
  array_limit = 2 ^ 32;
}

-- a leaf script is a byte of one version
abbrev byte_of : Unit {0} → Bytes → Option ℕ
byte_of v [] = none
byte_of v (b ∷ []) = some b
byte_of v (b ∷ c ∷ bytes) = none

abbrev pub leafs : Leafs types
leafs = record {
  LeafVer = Unit {0};
  version = λ _. 192;
  script = λ b. b ∷ [];
  from_consensus_u8 = λ b. if b == 192 then some tt else none;
  with_bytes = byte_of;
}

-- the depths of the open subtrees, the last one first; two at one depth merge
abbrev merge_depth : ℕ → List ℕ → List ℕ
merge_depth d [] = d ∷ []
merge_depth d (e ∷ rest) =
    let merged = merge_depth (d - 1) rest in if d == e then merged else d ∷ e ∷ rest

abbrev last_depth : List ℕ → ℕ
last_depth [] = 127
last_depth (d ∷ rest) = d

abbrev pub merkle_buoy : MerkleBuoy
merkle_buoy = record { Buoy = List ℕ; zero = []; push = merge_depth; level = last_depth }

abbrev pub codecs : Codecs types
codecs = record {
  unsigned_tx = record {
    encode = encode_unsigned_tx wire tx_codecs;
    decode = decode_unsigned_tx wire tx_codecs;
  };
  xpub = wire.varint;
  xpub_origin = record {
    encode = encode_xpub_origin wire wire.varint;
    decode = decode_xpub_origin wire wire.varint;
  };
  tx_ver = wire.varint;
  lock_time = wire.varint;
  tx = record { encode = λ _. raw []; decode = fail consensus };
  tx_out = tx_out_codec;
  txid = wire.varint;
  vout = wire.varint;
  seq_no = wire.varint;
  lock_timestamp = wire.varint;
  lock_height = wire.varint;
  legacy_pk = wire.varint;
  legacy_sig = wire.varint;
  sighash_type = wire.varint;
  redeem_script = wire.varint;
  witness_script = wire.varint;
  compressed_pk = wire.varint;
  key_origin = record {
    encode = encode_key_origin wire wire.varint;
    decode = decode_key_origin wire wire.varint;
  };
  sig_script = wire.varint;
  witness = wire.varint;
  bip340_sig = wire.varint;
  internal_pk = wire.varint;
  control_block = wire.varint;
  leaf_script = wire.varint;
  xonly_pk = wire.varint;
  tap_derivation = record {
    encode = encode_tap_derivation wire wire.varint wire.varint;
    decode = decode_tap_derivation wire wire.varint wire.varint;
  };
  tap_node_hash = wire.varint;
  tap_tree = record {
    encode = encode_tap_tree wire leafs merkle_buoy;
    decode = decode_tap_tree wire leafs merkle_buoy;
  };
  sats = wire.varint;
  script_pubkey = wire.varint;
  from_utf8 = λ bytes. some bytes;
}
