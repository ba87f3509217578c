-- ===== src/Psbt/Serial/Total.antt =====
-- `Psbt::deserialize` of psbt/src/coders.rs on any bytes, and the `unreachable!` of the key maps of
-- psbt/src/maps.rs that it may run into.
use bp_std.Prelude.{Bytes, List, [], ◌∷◌, ◌≡◌, refl, arith, Bool-cases, inl, inr}
use bp_std.Prelude.Results.{Result, ok, err, Result-cases}
use bp_std.Prelude.Eq.{bytes_eq}
use bp_std.Consensus.{Types, Constants, Equalities}
use bp_std.Psbt.Ver.{PsbtVer, v0}
use bp_std.Psbt.Errors.{MapName, PsbtError, invalid_magic}
use bp_std.Psbt.Keys.KeyType.{KeyType}
use bp_std.Psbt.Keys.Global.{global_key_type}
use bp_std.Psbt.Keys.Input.{input_key_type}
use bp_std.Psbt.Keys.Output.{output_key_type}
use bp_std.Psbt.Coders.Reader.{Decoder, read_exact}
use bp_std.Psbt.Coders.Wire.{Wire}
use bp_std.Psbt.Data.Container.{Psbt, create}
use bp_std.Psbt.Maps.{parse}
use bp_std.Psbt.Maps.Filed.{parse-IsFiled}
use bp_std.Psbt.KeyMap.{Fault, panicked, refused, KeyMap, parse_map}
use bp_std.Psbt.KeyMap.Values.{Codecs}
use bp_std.Psbt.KeyMap.GlobalMap.{global_key_map}
use bp_std.Psbt.KeyMap.InputMap.{input_key_map}
use bp_std.Psbt.KeyMap.OutputMap.{output_key_map}
use bp_std.Psbt.KeyMap.Total.{
  NoUnreachable, IsTotal, parse_map-NoUnreachable, global-IsTotal, input-IsTotal, output-IsTotal,
}
use bp_std.Psbt.Serial.{
  Parser, ◌>>=◌, reading, checked, setting, decode_part, decode_parts, stated_version, decode_maps,
  decode_psbt, at_end, deserialize_psbt, magic,
}

abbrev Safe : {A : Type 0} → Parser A → Type 0
Safe m = (s : Bytes) → NoUnreachable (m s)

bind-Safe :
    {A B : Type 0} (m : Parser A) (f : A → Parser B)
    → Safe m
    → ((a : A) (s rest : Bytes) → m s ≡ ok (a, rest) → NoUnreachable (f a rest))
    → Safe (m >>= f)
bind-Safe m f h k s = elim (Result-cases (m s)) [
  | inl ((a, rest), e) ↦ rw (e, ◌>>=◌) (k a s rest e)
  | inr (panicked, e) ↦ absurd (h s e)
  | inr (refused x, e) ↦ rw (e, ◌>>=◌) (λ q. cc)
]

reading-Safe : {A : Type 0} (decode : Decoder A) → Safe (reading decode)
reading-Safe decode s q = elim (Result-cases (decode s)) [
  | inl (a, e) ↦ cc (q, e)
  | inr (x, e) ↦ cc (q, e)
]

reading-ok :
    {A : Type 0} (decode : Decoder A) (s rest : Bytes) (a : A)
    → reading decode s ≡ ok (a, rest)
    → decode s ≡ ok (a, rest)
reading-ok decode s rest a h = elim (Result-cases (decode s)) [
  | inl (r, e) ↦ ground (arith, e)
  | inr (x, e) ↦ ground (arith, e)
]

checked-Safe : {A : Type 0} (r : Result PsbtError A) → Safe (checked r)
checked-Safe (ok a) s q = cc
checked-Safe (err e) s q = cc

setting-Safe : {A : Type 0} (r : Result (Fault PsbtError) A) → NoUnreachable r → Safe (setting r)
setting-Safe (ok a) h s q = cc
setting-Safe (err panicked) h s q = h refl
setting-Safe (err (refused e)) h s q = cc

module _ {S K : Type 0} ⦃t : KeyType K⦄ (m : KeyMap S K) (total : IsTotal m) (w : Wire)
    (name : MapName) (version : PsbtVer) where
  decode_part-Safe : (s : S) → Safe (decode_part m w name version s)
  unfolding decode_part
  decode_part-Safe s =
      bind-Safe (reading (parse w name)) _ (reading-Safe (parse {K = K} w name))
        (λ map stream rest e.
          setting-Safe (parse_map m s version map)
            (parse_map-NoUnreachable m total s version map
              (parse-IsFiled w name stream rest map (reading-ok (parse w name) stream rest map e)))
            rest)

  pub decode_parts-Safe : (ss : List S) → Safe (decode_parts m w name version ss)
  unfolding decode_parts
  decode_parts-Safe [] = λ s q. cc
  decode_parts-Safe (s ∷ ss) =
      bind-Safe (decode_part m w name version s) _ (decode_part-Safe s) (λ s' _ rest _.
        bind-Safe (decode_parts m w name version ss) _ (decode_parts-Safe ss)
          (λ ss' _ rest' _ q. cc) rest)

module _ {T : Types} (c : Constants T) (w : Wire) (v : Codecs T) (e : Equalities T) where
  decode_maps-Safe : Safe (decode_maps c w v e)
  unfolding decode_maps
  decode_maps-Safe =
      bind-Safe (reading (parse w MapName.global)) _ (reading-Safe _) (λ map stream rest h.
        bind-Safe (checked (stated_version w map)) _ (checked-Safe (stated_version w map))
          (λ version _ rest1 _.
            bind-Safe (setting (parse_map (global_key_map c w v e) (create c v0) version map)) _
              (setting-Safe _ (
                parse_map-NoUnreachable _ (global-IsTotal c w v e) (create c v0) version map (
                  parse-IsFiled w MapName.global stream rest map
                    (reading-ok (parse w MapName.global) stream rest map h))))
              (λ p _ rest2 _.
                bind-Safe (decode_parts (input_key_map v e) w MapName.input version p.inputs) _
                  (decode_parts-Safe _ (input-IsTotal v e) w MapName.input version p.inputs)
                  (λ inputs _ rest3 _.
                    bind-Safe (decode_parts (output_key_map v e) w MapName.output version p.outputs)
                      _
                      (decode_parts-Safe _ (output-IsTotal v e) w MapName.output version p.outputs)
                      (λ outputs _ rest4 _ q. cc) rest3)
                  rest2)
              rest1)
          rest)

  decode_psbt-Safe : Safe (decode_psbt c w v e)
  unfolding decode_psbt
  decode_psbt-Safe =
      bind-Safe (reading (read_exact 5)) _ (reading-Safe (read_exact 5)) (λ found _ rest _.
        elim (Bool-cases (bytes_eq found magic)) [
          | inl same ↦ rw same (decode_maps-Safe rest)
          | inr other ↦ rw other (checked-Safe {A = Psbt T} (err (invalid_magic found)) rest)
        ])

  -- No bytes make the reading of a PSBT reach one of the `unreachable!` of the key maps. This is
  -- no claim about buffers: a stated length may still be more than the code can allocate.
  pub deserialize_psbt-NoUnreachable :
      (bytes : Bytes) → NoUnreachable (deserialize_psbt c w v e bytes)
  unfolding deserialize_psbt at_end
  deserialize_psbt-NoUnreachable bytes q = elim (Result-cases (decode_psbt c w v e bytes)) [
    | inl ((p, []), h) ↦ ground (arith, h, q)
    | inl ((p, b ∷ rest), h) ↦ ground (arith, h, q)
    | inr (panicked, h) ↦ decode_psbt-Safe bytes h
    | inr (refused x, h) ↦ ground (arith, h, q)
  ]
