-- ===== src/Psbt/Coders/Arrays.antt =====
-- The codecs of raw bytes, of arrays and of tuples in psbt/src/coders.rs.
use bp_std.Prelude.{ℕ, Bytes, length, ◌++◌, ◌∙◌, append_assoc}
use bp_std.Psbt.Coders.Reader.{◌>>=◌, pure, read_exact, read_to_end, read_exact-append, bind-ok}
use bp_std.Psbt.Coders.Writer.{raw, ◌▸◌}
use bp_std.Psbt.Coders.Wire.{Codec, RoundTrips}

-- `RawBytes`
abbrev pub raw_bytes : Codec Bytes
raw_bytes = record { encode = raw; decode = read_to_end }

-- `Array<u8, LEN>`
abbrev pub array : ℕ → Codec Bytes
array len = record {
  encode = λ bytes. record { written = bytes; count = len };
  decode = read_exact len;
}

-- `(A, B)`
abbrev pub both : {A B : Type 0} → Codec A → Codec B → Codec (A × B)
both ca cb = record {
  encode = λ (a, b). ca.encode a ▸ cb.encode b;
  decode = (do a ← ca.decode; b ← cb.decode; pure (a, b));
}

pub array-RoundTrips : (bytes : Bytes) → RoundTrips (array (length bytes)) bytes
array-RoundTrips bytes rest = read_exact-append bytes rest

pub both-RoundTrips :
    {A B : Type 0} (ca : Codec A) (cb : Codec B) (a : A) (b : B)
    → RoundTrips ca a
    → RoundTrips cb b
    → RoundTrips (both ca cb) (a, b)
both-RoundTrips ca cb a b ha hb rest =
    rw (append_assoc)
      (bind-ok ca.decode _ (ha ((cb.encode b).written ++ rest)) ∙ bind-ok cb.decode _ (hb rest))
