-- ===== src/Psbt/Coders/Unsigned.antt =====
-- The codecs of `UnsignedTx` and `UnsignedTxIn` in psbt/src/coders.rs. The source asks for the
-- capacity of the two counts first, and panics on one that does not fit; that is left out.
use bp_std.Prelude.{
  ℕ, zero, suc, ◌<◌, ◌≤◌, ◌^◌, ◌==◌, leb, not, if◌then◌else◌, Bytes, List, [], ◌∷◌, ◌++◌, All,
  append_assoc, length, ◌≡◌, refl, ◌∙◌, arith,
}
use bp_std.Prelude.Results.{ok}
use bp_std.Consensus.{Types}
use bp_std.Psbt.Errors.{signed_tx, confinement}
use bp_std.Psbt.Coders.Reader.{Decoder, ◌>>=◌, pure, fail, bind-ok}
use bp_std.Psbt.Coders.Writer.{Encoder, ◌▸◌, encode_each}
use bp_std.Psbt.Coders.Wire.{Codec, RoundTrips, Wire, IsWire}
use bp_std.Psbt.Data.Tx.{Outpoint, TxOut, UnsignedTxIn, UnsignedTx}

-- `for _ in 0..count { items.push(T::decode(reader)?); }`
pub decode_times : {A : Type 0} → ℕ → Decoder A → Decoder (List A)
decode_times zero decode = pure []
decode_times (suc n) decode = do a ← decode; rest ← decode_times n decode; pure (a ∷ rest)

-- Elements that are read back one by one are read back in a row.
pub decode_times-encode_each :
    {A : Type 0} (codec : Codec A) (as' : List A) (rest : Bytes)
    → All (RoundTrips codec) as'
    → decode_times (length as') codec.decode ((encode_each codec.encode as').written ++ rest)
      ≡ ok (as', rest)
unfolding decode_times
decode_times-encode_each codec [] rest all = refl
decode_times-encode_each codec (a ∷ as') rest (h, all) = rw append_assoc (
    bind-ok codec.decode _ (h ((encode_each codec.encode as').written ++ rest))
    ∙ bind-ok (decode_times (length as') codec.decode) _
        (decode_times-encode_each codec as' rest all))

-- The consensus codecs that the two call, and the largest length of a `VarIntArray`.
pub record TxCodecs (T : Types) : Type 0 where
  pub tx_ver : Codec T.TxVer
  pub outpoint : Codec (Outpoint T)
  pub seq_no : Codec T.SeqNo
  pub tx_out : Codec (TxOut T)
  pub lock_time : Codec T.LockTime
  pub array_limit : ℕ

module _ {T : Types} (w : Wire) (x : TxCodecs T) where
  unfoldable pub encode_unsigned_txin : Encoder (UnsignedTxIn T)
  encode_unsigned_txin i =
      x.outpoint.encode i.prev_output ▸ w.varint.encode 0 ▸ x.seq_no.encode i.sequence

  unfoldable pub decode_unsigned_txin : Decoder (UnsignedTxIn T)
  decode_unsigned_txin = do
    prev_output ← x.outpoint.decode
    sig_script_len ← w.varint.decode
    if not (sig_script_len == 0) then fail signed_tx else (do
      sequence ← x.seq_no.decode
      pure (record { prev_output = prev_output; sequence = sequence }))

  abbrev pub unsigned_txin : Codec (UnsignedTxIn T)
  unsigned_txin = record { encode = encode_unsigned_txin; decode = decode_unsigned_txin }

  unfoldable pub encode_unsigned_tx : Encoder (UnsignedTx T)
  encode_unsigned_tx tx =
      x.tx_ver.encode tx.version
      ▸ w.varint.encode (length tx.inputs)
      ▸ encode_each encode_unsigned_txin tx.inputs
      ▸ w.varint.encode (length tx.outputs)
      ▸ encode_each x.tx_out.encode tx.outputs
      ▸ x.lock_time.encode tx.lock_time

  -- `VarIntArray::try_from(items)?`
  abbrev pub confined : {A : Type 0} → List A → Decoder (List A)
  confined items = if leb (length items) x.array_limit then pure items else fail confinement

  unfoldable pub decode_unsigned_tx : Decoder (UnsignedTx T)
  decode_unsigned_tx = do
    version ← x.tx_ver.decode
    input_count ← w.varint.decode
    inputs ← decode_times input_count decode_unsigned_txin
    output_count ← w.varint.decode
    outputs ← decode_times output_count x.tx_out.decode
    lock_time ← x.lock_time.decode
    few_inputs ← confined inputs
    few_outputs ← confined outputs
    pure (record {
      version = version;
      inputs = few_inputs;
      outputs = few_outputs;
      lock_time = lock_time;
    })

  -- What the parts of a transaction have to be for it to be read back.
  pub record IsReadable (tx : UnsignedTx T) : Type 0 where
    pub version_back : RoundTrips x.tx_ver tx.version
    pub lock_time_back : RoundTrips x.lock_time tx.lock_time
    pub outpoints_back : All (λ (i : UnsignedTxIn T). RoundTrips x.outpoint i.prev_output) tx.inputs
    pub sequences_back : All (λ (i : UnsignedTxIn T). RoundTrips x.seq_no i.sequence) tx.inputs
    pub outputs_back : All (RoundTrips x.tx_out) tx.outputs
    pub inputs_few : length tx.inputs ≤ x.array_limit
    pub outputs_few : length tx.outputs ≤ x.array_limit

  module _ (lawful : IsWire w) where
    unsigned_txin-RoundTrips :
        (i : UnsignedTxIn T)
        → RoundTrips x.outpoint i.prev_output
        → RoundTrips x.seq_no i.sequence
        → RoundTrips unsigned_txin i
    unfolding encode_unsigned_txin decode_unsigned_txin
    unsigned_txin-RoundTrips i ho hs rest =
        rw (append_assoc, append_assoc)
          (bind-ok x.outpoint.decode _ (ho _)
            ∙ bind-ok w.varint.decode _ (lawful.varint_round_trips 0 (omega arith) _)
            ∙ bind-ok x.seq_no.decode _ (hs rest))

    unsigned_txins-RoundTrips :
        (is' : List (UnsignedTxIn T))
        → All (λ (i : UnsignedTxIn T). RoundTrips x.outpoint i.prev_output) is'
        → All (λ (i : UnsignedTxIn T). RoundTrips x.seq_no i.sequence) is'
        → All (RoundTrips unsigned_txin) is'
    unsigned_txins-RoundTrips [] ho hs = tt
    unsigned_txins-RoundTrips (i ∷ is') (o, ho) (s, hs) =
        (unsigned_txin-RoundTrips i o s, unsigned_txins-RoundTrips is' ho hs)

    confined-ok :
        {A : Type 0} (items : List A) (rest : Bytes)
        → length items ≤ x.array_limit
        → confined items rest ≡ ok (items, rest)
    confined-ok items rest h = ground arith

    -- An unsigned transaction whose parts are read back, and whose numbers of inputs and outputs
    -- fit, is read back, and what follows it is left.
    pub decode_unsigned_tx-encode_unsigned_tx :
        (tx : UnsignedTx T) (rest : Bytes)
        → IsReadable tx
        → x.array_limit < 2 ^ 64
        → decode_unsigned_tx ((encode_unsigned_tx tx).written ++ rest) ≡ ok (tx, rest)
    unfolding encode_unsigned_tx decode_unsigned_tx
    decode_unsigned_tx-encode_unsigned_tx tx rest h limit =
        let inputs = unsigned_txins-RoundTrips tx.inputs h.outpoints_back h.sequences_back in
        rw (append_assoc, append_assoc, append_assoc, append_assoc, append_assoc)
          (bind-ok x.tx_ver.decode _ (h.version_back _)
            ∙ bind-ok w.varint.decode _
                (lawful.varint_round_trips _ (omega (arith, h.inputs_few, limit)) _)
            ∙ bind-ok (decode_times (length tx.inputs) decode_unsigned_txin) _
                (decode_times-encode_each unsigned_txin tx.inputs _ inputs)
            ∙ bind-ok w.varint.decode _
                (lawful.varint_round_trips _ (omega (arith, h.outputs_few, limit)) _)
            ∙ bind-ok (decode_times (length tx.outputs) x.tx_out.decode) _
                (decode_times-encode_each x.tx_out tx.outputs _ h.outputs_back)
            ∙ bind-ok x.lock_time.decode _ (h.lock_time_back rest)
            ∙ bind-ok (confined tx.inputs) _ (confined-ok tx.inputs rest h.inputs_few)
            ∙ bind-ok (confined tx.outputs) _ (confined-ok tx.outputs rest h.outputs_few))
