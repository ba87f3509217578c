-- ===== src/Psbt/KeyMap/Pairs.antt =====
-- The macros `once!`, `option!`, `option_raw!`, `iter!` and `iter_raw!` of psbt/src/maps.rs, and the
-- reading of one key-value pair into a field.
use bp_std.Prelude.{Bytes, List, [], ◌∷◌, Option, none, some}
use bp_std.Prelude.Results.{Result, ok, err}
use bp_std.Prelude.IndexMap.{IndexMap}
use bp_std.Psbt.Errors.{PsbtError}
use bp_std.Psbt.Coders.Writer.{Encoded, Encoder, raw}
use bp_std.Psbt.Coders.Wire.{Codec}
use bp_std.Psbt.Coders.Pairs.{PairToWrite}
use bp_std.Psbt.Coders.Values.{deserialize}
use bp_std.Psbt.KeyMap.{Fault, refused}

module _ {K : Type 0} (key_type : K) where
  abbrev pub once : Encoded → List (PairToWrite K)
  once value = record { key_type = key_type; key_data = raw []; value_data = value } ∷ []

  abbrev pub option : {A : Type 0} → Encoder A → Option A → List (PairToWrite K)
  option encode none = []
  option encode (some a) = once (encode a)

  abbrev pub iter : {A B : Type 0} → Encoder A → Encoder B → IndexMap A B → List (PairToWrite K)
  iter encode_key encode_value [] = []
  iter encode_key encode_value ((a, b) ∷ rest) =
      record { key_type = key_type; key_data = encode_key a; value_data = encode_value b }
      ∷ iter encode_key encode_value rest

-- `T::deserialize(bytes)?`
abbrev pub read : {A : Type 0} → Codec A → Bytes → Result (Fault PsbtError) A
read codec bytes = elim (deserialize codec.decode bytes) [ ok a ↦ ok a | err e ↦ err (refused e) ]
