-- ===== src/Psbt/Serial.antt =====
-- `Psbt::encode`, `Psbt::decode` and `Psbt::deserialize` of psbt/src/coders.rs.
pub mod Total
pub mod Buffers
use bp_std.Prelude.{
  ℕ, Bytes, List, [], ◌∷◌, ◌++◌, Bool, not, if◌then◌else◌, Option, none, some, length,
}
use bp_std.Prelude.Results.{Result, ok, err}
use bp_std.Prelude.Eq.{bytes_eq}
use bp_std.Prelude.BTreeMap
use bp_std.Consensus.{Types, Constants, Equalities}
use bp_std.Psbt.Ver.{PsbtVer, v0}
use bp_std.Psbt.Errors.{
  MapName, PsbtError, invalid_magic, data_not_consumed, DecodeError, psbt, from_decode_error,
}
use bp_std.Psbt.Keys.KeyType.{KeyType, key_ord}
use bp_std.Psbt.Keys.Global.{GlobalKey, global_key_type}
use bp_std.Psbt.Keys.Input.{InputKey, input_key_type}
use bp_std.Psbt.Keys.Output.{OutputKey, output_key_type}
use bp_std.Psbt.Coders.Reader.{Decoder, read_exact}
use bp_std.Psbt.Coders.Writer.{Encoded, raw, ◌▸◌, encode_each}
use bp_std.Psbt.Coders.Wire.{Wire}
use bp_std.Psbt.Coders.Values.{deserialize, decode_ver}
use bp_std.Psbt.Data.Input.{Input}
use bp_std.Psbt.Data.Output.{Output}
use bp_std.Psbt.Data.Container.{Psbt, create}
use bp_std.Psbt.Maps.{Map, parse}
use bp_std.Psbt.KeyMap.{Fault, refused, panicked, KeyMap, encode_map, parse_map}
use bp_std.Psbt.KeyMap.Values.{Codecs}
use bp_std.Psbt.KeyMap.GlobalMap.{global_key_map}
use bp_std.Psbt.KeyMap.InputMap.{input_key_map}
use bp_std.Psbt.KeyMap.OutputMap.{output_key_map}

-- `Psbt::MAGIC`: `psbt` and the byte 0xFF
abbrev pub magic : Bytes
magic = 0x70 ∷ 0x73 ∷ 0x62 ∷ 0x74 ∷ 0xFF ∷ []

-- A reader that may reach an `unreachable!`.
abbrev pub Parser : Type 0 → Type 0
Parser A = Bytes → Result (Fault DecodeError) (A × Bytes)

infixl 5 ◌>>=◌ ◌>>◌
abbrev pub ◌>>=◌ : {A B : Type 0} → Parser A → (A → Parser B) → Parser B
◌>>=◌ m f s = elim (m s) [ err e ↦ err e | ok (a, rest) ↦ f a rest ]

abbrev pub ◌>>◌ : {A B : Type 0} → Parser A → Parser B → Parser B
m >> n = m >>= λ _. n

abbrev pub pure : {A : Type 0} → A → Parser A
pure a s = ok (a, s)

abbrev pub reading : {A : Type 0} → Decoder A → Parser A
reading decode s = elim (decode s) [ ok r ↦ ok r | err e ↦ err (refused e) ]

abbrev pub checked : {A : Type 0} → Result PsbtError A → Parser A
checked (ok a) s = ok (a, s)
checked (err e) s = err (refused (psbt e))

abbrev pub setting : {A : Type 0} → Result (Fault PsbtError) A → Parser A
setting (ok a) s = ok (a, s)
setting (err panicked) s = err panicked
setting (err (refused e)) s = err (refused (psbt e))

module _ {S K : Type 0} ⦃t : KeyType K⦄ (m : KeyMap S K) (w : Wire) where
  -- one round of the loops that read the maps of the inputs and of the outputs
  unfoldable pub decode_part : MapName → PsbtVer → S → Parser S
  decode_part name version s = do map ← reading (parse w name); setting (parse_map m s version map)

  pub decode_parts : MapName → PsbtVer → List S → Parser (List S)
  decode_parts name version [] = pure []
  decode_parts name version (s ∷ ss) = do
    s' ← decode_part name version s
    ss' ← decode_parts name version ss
    pure (s' ∷ ss')

module _ (w : Wire) where
  -- the version that the global map states
  unfoldable pub stated_version : Map GlobalKey → Result PsbtError PsbtVer
  stated_version map = elim (BTreeMap.get GlobalKey.version map.singular) [
    | none ↦ ok v0
    | some bytes ↦ deserialize (decode_ver w) bytes
  ]

module _ {T : Types} (c : Constants T) (w : Wire) (v : Codecs T) (e : Equalities T) where
  -- `Psbt::encode`
  unfoldable pub encode_psbt : Psbt T → PsbtVer → Encoded
  encode_psbt p ver =
      raw magic
      ▸ encode_map (global_key_map c w v e) w p ver
      ▸ encode_each (λ i. encode_map (input_key_map v e) w i ver) p.inputs
      ▸ encode_each (λ o. encode_map (output_key_map v e) w o ver) p.outputs

  -- `Psbt::decode` from the global map on
  unfoldable pub decode_maps : Parser (Psbt T)
  unfolding stated_version decode_parts
  decode_maps = do
    map ← reading (parse w MapName.global)
    version ← checked (stated_version w map)
    p ← setting (parse_map (global_key_map c w v e) (create c v0) version map)
    inputs ← decode_parts (input_key_map v e) w MapName.input version p.inputs
    outputs ← decode_parts (output_key_map v e) w MapName.output version p.outputs
    pure (record p { inputs = inputs; outputs = outputs })

  -- `Psbt::decode`
  unfoldable pub decode_psbt : Parser (Psbt T)
  unfolding decode_maps
  decode_psbt = do
    found ← reading (read_exact 5)
    if bytes_eq found magic then decode_maps else checked (err (invalid_magic found))

  -- what `Psbt::deserialize` makes of the end of the input
  at_end : Psbt T → Bytes → Result (Fault PsbtError) (Psbt T)
  at_end p [] = ok p
  at_end p (b ∷ rest) = err (refused data_not_consumed)

  -- `Psbt::deserialize`
  unfoldable pub deserialize_psbt : Bytes → Result (Fault PsbtError) (Psbt T)
  unfolding decode_psbt at_end
  deserialize_psbt data' = elim (decode_psbt data') [
    | ok (p, rest) ↦ at_end p rest
    | err panicked ↦ err panicked
    | err (refused x) ↦ err (refused (from_decode_error x))
  ]
