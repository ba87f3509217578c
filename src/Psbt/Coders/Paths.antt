-- ===== src/Psbt/Coders/Paths.antt =====
-- The codecs of derivation paths and key origins in psbt/src/coders.rs.
pub mod RoundTrip
use bp_std.Prelude.{Bytes, List, [], ◌∷◌, length}
use bp_std.Prelude.Results.{Result, ok, err}
use bp_std.Consensus.{Types}
use bp_std.Derive.Index.{Idx}
use bp_std.Derive.Index.Hardened.{hardened_idx}
use bp_std.Derive.Index.Derivation.{derivation_idx}
use bp_std.Derive.Terminal.{DerivationPath}
use bp_std.Derive.Origins.{XpubOrigin, KeyOrigin, TapDerivation}
use bp_std.Psbt.Errors.{DecodeError, psbt, xpub_unhardened_origin, invalid_derivation_path}
use bp_std.Psbt.Coders.Reader.{Decoder, ◌>>=◌, pure}
use bp_std.Psbt.Coders.Writer.{Encoder, ◌▸◌, encode_each}
use bp_std.Psbt.Coders.Wire.{Codec, Wire}
use bp_std.Psbt.Coders.Unsigned.{decode_times}

-- `chunks_exact(4)` and its remainder
abbrev pub chunks_exact : Bytes → List Bytes × Bytes
chunks_exact (a ∷ b ∷ c ∷ d ∷ rest) =
    let (chunks, left) = chunks_exact rest in ((a ∷ b ∷ c ∷ d ∷ []) ∷ chunks, left)
chunks_exact bytes = ([], bytes)

module _ {I : Type 0} ⦃t : Idx I⦄ (w : Wire) where
  -- `Encode for DerivationPath`
  abbrev pub encode_index : Encoder I
  encode_index i = w.u32.encode (t.index i)

  unfoldable pub encode_path : Encoder (DerivationPath I)
  encode_path path = encode_each encode_index path

  -- one round of the loop of `Decode for DerivationPath`; four bytes are enough for a `u32`
  unfoldable pub decode_index : Bytes → Result DecodeError I
  decode_index chunk = elim (w.u32.decode chunk) [
    | err e ↦ err e
    | ok (word, left) ↦ elim (t.try_from_index word) [
      | ok i ↦ ok i
      | err e ↦ err (psbt xpub_unhardened_origin)
    ]
  ]

  decode_indexes : List Bytes → Result DecodeError (List I)
  decode_indexes [] = ok []
  decode_indexes (chunk ∷ chunks) = elim (decode_index chunk) [
    | err e ↦ err e
    | ok i ↦ elim (decode_indexes chunks) [ err e ↦ err e | ok is' ↦ ok (i ∷ is') ]
  ]

  at_remainder : List I → Bytes → Result DecodeError (List I × Bytes)
  at_remainder path [] = ok (path, [])
  at_remainder path (b ∷ left) = err (psbt invalid_derivation_path)

  -- `Decode for DerivationPath`
  unfoldable pub decode_path : Decoder (DerivationPath I)
  unfolding decode_indexes at_remainder
  decode_path s =
      let (chunks, left) = chunks_exact s in
      elim (decode_indexes chunks) [ err e ↦ err e | ok path ↦ at_remainder path left ]

module _ {T : Types} (w : Wire) (fp : Codec T.XpubFp) where
  -- `Encode` and `Decode for XpubOrigin`
  unfoldable pub encode_xpub_origin : Encoder (XpubOrigin T)
  encode_xpub_origin o = fp.encode o.master_fp ▸ encode_path w o.derivation

  unfoldable pub decode_xpub_origin : Decoder (XpubOrigin T)
  decode_xpub_origin = do
    master_fp ← fp.decode
    derivation ← decode_path w
    pure (record { master_fp = master_fp; derivation = derivation })

  -- `Encode` and `Decode for KeyOrigin`
  unfoldable pub encode_key_origin : Encoder (KeyOrigin T)
  encode_key_origin o = fp.encode o.master_fp ▸ encode_path w o.derivation

  unfoldable pub decode_key_origin : Decoder (KeyOrigin T)
  decode_key_origin = do
    master_fp ← fp.decode
    derivation ← decode_path w
    pure (record { master_fp = master_fp; derivation = derivation })

  module _ (hash : Codec T.TapLeafHash) where
    -- `Encode` and `Decode for TapDerivation`
    unfoldable pub encode_tap_derivation : Encoder (TapDerivation T)
    encode_tap_derivation d =
        w.varint.encode (length d.leaf_hashes)
        ▸ encode_each hash.encode d.leaf_hashes
        ▸ encode_key_origin d.origin

    unfoldable pub decode_tap_derivation : Decoder (TapDerivation T)
    decode_tap_derivation = do
      count ← w.varint.decode
      leaf_hashes ← decode_times count hash.decode
      origin ← decode_key_origin
      pure (record { leaf_hashes = leaf_hashes; origin = origin })
