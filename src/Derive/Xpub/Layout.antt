-- ===== src/Derive/Xpub/Layout.antt =====
-- The 78 bytes of an extended key of derive/src/xpub.rs are read back.
use bp_std.Prelude.{
  Bool-cases, ℕ, ◌^◌, ◌<◌, ◌≤◌, Bytes, [], ◌∷◌, ◌++◌, length, length-append, Bool, some, ◌≡◌, ◌↔◌,
  ◌⊎◌, inl, inr, refl, ◌∙◌, sym, ap, arith,
}
use bp_std.Prelude.Big.{
  to_be_bytes, from_be_bytes, take, drop, range, length-to_be_bytes, from_be_bytes-to_be_bytes,
  take-append, take-length, drop-append,
}
use bp_std.Prelude.Results.{Result, ok}
use bp_std.Consensus.{Types}
use bp_std.Derive.Index.Ranges.{index-fits, from_index-index_iff}
use bp_std.Derive.Index.Derivation.{DerivationIndex, from_index, index, IsInRange}
use bp_std.Derive.Xpub.{
  Bip32, IsBip32, Xpub, XpubDecodeError, decode, encode, decode_fields, network_of, byte_at,
}

module _ {T : Types} (b : Bip32 T) (lawful : IsBip32 b) where
  -- what follows the first five bytes
  abbrev body : Xpub T → Bytes
  body x =
      b.fp_bytes x.meta.parent_fp
      ++ (to_be_bytes 4 (index x.meta.child_number)
          ++ (x.core.chain_code ++ b.serialize x.core.public_key))

  length-body : (x : Xpub T) → length x.core.chain_code ≡ 32 → length (body x) ≡ 73
  length-body x h =
      let fp = b.fp_bytes x.meta.parent_fp in
      let word = to_be_bytes 4 (index x.meta.child_number) in
      let pk = b.serialize x.core.public_key in
      rw
        (
          length-append fp (word ++ (x.core.chain_code ++ pk)),
          length-append word (x.core.chain_code ++ pk),
          length-append x.core.chain_code pk,
          h,
          lawful.fp_length x.meta.parent_fp,
          length-to_be_bytes 4 (index x.meta.child_number),
          lawful.pk_length x.core.public_key,
        )
        refl

  drop-4 :
      (x : Xpub T)
      → drop 4 (body x)
        ≡ to_be_bytes 4 (index x.meta.child_number)
          ++ (x.core.chain_code ++ b.serialize x.core.public_key)
  drop-4 x =
      drop-append 4 4 0 (b.fp_bytes x.meta.parent_fp) _ refl (lawful.fp_length x.meta.parent_fp)

  drop-8 : (x : Xpub T) → drop 8 (body x) ≡ x.core.chain_code ++ b.serialize x.core.public_key
  drop-8 x =
      drop-append 8 4 4 (b.fp_bytes x.meta.parent_fp) _ refl (lawful.fp_length x.meta.parent_fp)
      ∙ drop-append 4 4 0 (to_be_bytes 4 (index x.meta.child_number)) _ refl
          (length-to_be_bytes 4 (index x.meta.child_number))

  drop-40 :
      (x : Xpub T)
      → length x.core.chain_code ≡ 32
      → drop 40 (body x) ≡ b.serialize x.core.public_key
  drop-40 x h =
      drop-append 40 4 36 (b.fp_bytes x.meta.parent_fp) _ refl (lawful.fp_length x.meta.parent_fp)
      ∙ drop-append 36 4 32 (to_be_bytes 4 (index x.meta.child_number)) _ refl
          (length-to_be_bytes 4 (index x.meta.child_number))
      ∙ drop-append 32 32 0 x.core.chain_code _ refl h

  -- the key with its child number as the word of it is read
  abbrev reread : Xpub T → Xpub T
  reread x = record x {
    meta = record x.meta { child_number = from_index (index x.meta.child_number) };
  }

  decode_fields-parts :
      (bytes : Bytes) (testnet : Bool) (public_key : T.CompressedPk)
      → network_of b (range bytes 0 4) ≡ ok testnet
      → b.pk_from_bytes (range bytes 45 78) ≡ some public_key
      → decode_fields b bytes
        ≡ ok (record {
          testnet = testnet;
          meta = record {
            depth = byte_at b bytes 4;
            parent_fp = b.fp_from (range bytes 5 9);
            child_number = from_index (from_be_bytes (range bytes 9 13));
          };
          core = record { public_key = public_key; chain_code = range bytes 13 45 };
        })
  decode_fields-parts bytes testnet public_key h k = rw (decode_fields, h, k) refl

  take-fp : (x : Xpub T) → b.fp_from (take 4 (body x)) ≡ x.meta.parent_fp
  take-fp x =
      ap b.fp_from
        (take-append 4 (b.fp_bytes x.meta.parent_fp) _ (lawful.fp_length x.meta.parent_fp))
      ∙ lawful.fp_back x.meta.parent_fp

  take-word :
      (x : Xpub T)
      → IsInRange x.meta.child_number
      → from_be_bytes (take 4 (drop 4 (body x))) ≡ index x.meta.child_number
  take-word x h =
      let word = to_be_bytes 4 (index x.meta.child_number) in
      ap (λ s. from_be_bytes (take 4 s)) (drop-4 x)
      ∙ ap from_be_bytes (take-append 4 word _ (length-to_be_bytes 4 (index x.meta.child_number)))
      ∙ from_be_bytes-to_be_bytes 4 (index x.meta.child_number) (index-fits x.meta.child_number h)

  take-chain_code :
      (x : Xpub T) → length x.core.chain_code ≡ 32 → take 32 (drop 8 (body x)) ≡ x.core.chain_code
  take-chain_code x h = ap (take 32) (drop-8 x) ∙ take-append 32 x.core.chain_code _ h

  take-pk :
      (x : Xpub T)
      → length x.core.chain_code ≡ 32
      → b.pk_from_bytes (take 33 (drop 40 (body x))) ≡ some x.core.public_key
  take-pk x h =
      let pk = b.serialize x.core.public_key in
      ap (λ s. b.pk_from_bytes (take 33 s)) (drop-40 x h)
      ∙ ap b.pk_from_bytes (take-length 33 pk (lawful.pk_length x.core.public_key))
      ∙ lawful.pk_back x.core.public_key

  decode_fields-laid :
      (x : Xpub T) (m0 m1 m2 m3 : ℕ)
      → length x.core.chain_code ≡ 32
      → IsInRange x.meta.child_number
      → network_of b (m0 ∷ m1 ∷ m2 ∷ m3 ∷ []) ≡ ok x.testnet
      → decode_fields b (m0 ∷ m1 ∷ m2 ∷ m3 ∷ x.meta.depth ∷ body x) ≡ ok (reread x)
  decode_fields-laid x m0 m1 m2 m3 h in_range network =
      decode_fields-parts (m0 ∷ m1 ∷ m2 ∷ m3 ∷ x.meta.depth ∷ body x) x.testnet x.core.public_key
        network (take-pk x h)
      ∙ rw (take-fp x, take-word x in_range, take-chain_code x h) refl

  decode-laid :
      (x : Xpub T) (m0 m1 m2 m3 : ℕ)
      → length x.core.chain_code ≡ 32
      → IsInRange x.meta.child_number
      → network_of b (m0 ∷ m1 ∷ m2 ∷ m3 ∷ []) ≡ ok x.testnet
      → encode b x ≡ m0 ∷ m1 ∷ m2 ∷ m3 ∷ x.meta.depth ∷ body x
      → (length (encode b x) ≡ 78) × (decode b (encode b x) ≡ ok (reread x))
  unfolding decode
  decode-laid x m0 m1 m2 m3 h in_range network laid =
      let whole : length (m0 ∷ m1 ∷ m2 ∷ m3 ∷ x.meta.depth ∷ body x) ≡ 78 =
        omega (arith, length-body x h) in
      (
        ap length laid ∙ whole,
        rw (decode, laid, whole) (decode_fields-laid x m0 m1 m2 m3 h in_range network),
      )

  decode-encode :
      (x : Xpub T)
      → length x.core.chain_code ≡ 32
      → IsInRange x.meta.child_number
      → (length (encode b x) ≡ 78) × (decode b (encode b x) ≡ ok (reread x))
  unfolding encode
  decode-encode x h in_range = elim (Bool-cases x.testnet) [
    | inl test ↦
        decode-laid x 0x04 0x35 0x87 0xCF h in_range (rw test refl) (rw (encode, test) refl)
    | inr main ↦
        decode-laid x 0x04 0x88 0xB2 0x1E h in_range (rw main refl) (rw (encode, main) refl)
  ]

  with_child : Xpub T → DerivationIndex → Result XpubDecodeError (Xpub T)
  with_child x c = ok (record x { meta = record x.meta { child_number = c } })

  child_of_ok :
      (x y : Xpub T)
      → with_child x x.meta.child_number ≡ with_child y y.meta.child_number
      → x.meta.child_number ≡ y.meta.child_number
  unfolding with_child
  child_of_ok x y e = let same : x ≡ y = cc in ap (λ z. z.meta.child_number) same

  pub decode-encode_iff :
      (x : Xpub T)
      → length x.core.chain_code ≡ 32
      → IsInRange x.meta.child_number
      → (length (encode b x) ≡ 78)
        × ((decode b (encode b x) ≡ ok x)
            ↔ ((index x.meta.child_number < 2 ^ 28) ⊎ (2 ^ 31 ≤ index x.meta.child_number)))
  unfolding with_child
  decode-encode_iff x h in_range =
      let (whole, read) = decode-encode x h in_range in
      let (to, from) = from_index-index_iff x.meta.child_number in_range in
      (
        whole,
        (
          λ e. to (child_of_ok (reread x) x (sym read ∙ e)),
          λ fits. read ∙ ap (with_child x) (from fits),
        ),
      )
