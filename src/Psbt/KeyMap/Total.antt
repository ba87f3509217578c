-- ===== src/Psbt/KeyMap/Total.antt =====
-- The `unreachable!` cases of the `insert_…` methods in psbt/src/maps.rs are not reached from a
-- map that was read.
use bp_std.Prelude.{Bytes, List, [], ◌∷◌, All, true, false, ◌≢◌, arith, inl, inr}
use bp_std.Prelude.Results.{Result, ok, err, Result-cases, ◌>>=◌}
use bp_std.Consensus.{Types, Constants, Equalities}
use bp_std.Psbt.Ver.{PsbtVer}
use bp_std.Psbt.Keys.KeyType.{KeyType}
use bp_std.Psbt.Keys.Global as GlobalKeys
use bp_std.Psbt.Keys.Global.{GlobalKey, global_key_type}
use bp_std.Psbt.Keys.Input as InputKeys
use bp_std.Psbt.Keys.Input.{InputKey, input_key_type}
use bp_std.Psbt.Keys.Output as OutputKeys
use bp_std.Psbt.Keys.Output.{OutputKey, output_key_type}
use bp_std.Psbt.Coders.Wire.{Wire, Codec}
use bp_std.Psbt.Coders.Values.{deserialize}
use bp_std.Psbt.Data.Input.{Input}
use bp_std.Psbt.Data.Output.{Output}
use bp_std.Psbt.Data.Container.{Psbt}
use bp_std.Psbt.Maps.{Map, check}
use bp_std.Psbt.Maps.Filed.{IsFiled, IsFiledAs}
use bp_std.Psbt.KeyMap.{Fault, panicked, KeyMap, each, returned, parse_map, insert_submap}
use bp_std.Psbt.KeyMap.Values.{Codecs}
use bp_std.Psbt.KeyMap.Pairs.{read}
use bp_std.Psbt.KeyMap.GlobalMap.{insert_singular_global, insert_plural_global, global_key_map}
use bp_std.Psbt.KeyMap.InputMap.{insert_singular_input, insert_plural_input, input_key_map}
use bp_std.Psbt.KeyMap.OutputMap.{insert_singular_output, insert_plural_output, output_key_map}

abbrev pub NoUnreachable : {E A : Type 0} → Result (Fault E) A → Type 0
NoUnreachable r = r ≢ err panicked

module _ {E A B : Type 0} where
  bind-NoUnreachable :
      (r : Result (Fault E) A) (f : A → Result (Fault E) B)
      → NoUnreachable r
      → ((a : A) → NoUnreachable (f a))
      → NoUnreachable (r >>= f)
  bind-NoUnreachable (ok a) f h k q = k a q
  bind-NoUnreachable (err e) f h k q = h (ground arith)

each-NoUnreachable :
    {S A E : Type 0} (P : A → Type 0) (step : S → A → Result (Fault E) S)
    → ((s : S) (a : A) → P a → NoUnreachable (step s a))
    → (s : S) (items : List A) → All P items
    → NoUnreachable (each step s items)
each-NoUnreachable P step h s [] all = λ q. cc
each-NoUnreachable P step h s (a ∷ rest) (p, all) =
    bind-NoUnreachable (step s a) _ (h s a p) (λ s'. each-NoUnreachable P step h s' rest all)

read-NoUnreachable :
    {A : Type 0} (codec : Codec A) (bytes : Bytes) → NoUnreachable (read codec bytes)
read-NoUnreachable codec bytes q = elim (Result-cases (deserialize codec.decode bytes)) [
  | inl (a, e) ↦ cc (q, e)
  | inr (x, e) ↦ cc (q, e)
]

returned-NoUnreachable : {E A : Type 0} (r : Result E A) → NoUnreachable (returned r)
returned-NoUnreachable (ok a) q = cc
returned-NoUnreachable (err e) q = cc

trivial : {A : Type 0} (xs : List A) → All (λ _. Unit {0}) xs
trivial [] = tt
trivial (x ∷ xs) = (tt, trivial xs)

module _ {S K : Type 0} ⦃t : KeyType K⦄ where
  -- The keys that the tables of `K` put in the singular and in the plural part are handled.
  pub record IsTotal (m : KeyMap S K) : Type 0 where
    pub singular_total :
        (s : S) (k : K) (bytes : Bytes)
        → IsFiledAs false k
        → NoUnreachable (m.insert_singular s k bytes)
    pub plural_total :
        (s : S) (k : K) (key bytes : Bytes)
        → IsFiledAs true k
        → NoUnreachable (m.insert_plural s k key bytes)

  pub parse_map-NoUnreachable :
      (m : KeyMap S K)
      → IsTotal m
      → (s : S) (version : PsbtVer) (map : Map K) → IsFiled map
      → NoUnreachable (parse_map m s version map)
  unfolding parse_map
  parse_map-NoUnreachable m total s version map filed =
      bind-NoUnreachable (returned (check map version)) _
        (returned-NoUnreachable (check map version))
        (λ passed.
          bind-NoUnreachable (each (λ s' (k, v). m.insert_singular s' k v) s map.singular) _
            (each-NoUnreachable (λ (k, v). IsFiledAs false k) _
              (λ s' (k, v). total.singular_total s' k v) s map.singular filed.singular_filed)
            (λ s1.
              bind-NoUnreachable (each (insert_submap m) s1 map.plural) _
                (each-NoUnreachable (λ (k, sub). IsFiledAs true k) _
                  (λ s' (k, sub) f.
                    each-NoUnreachable (λ _. Unit {0}) _
                      (λ s'' (d, v) _. total.plural_total s'' k d v f) s' sub (trivial sub))
                  s1 map.plural filed.plural_filed)
                (λ s2 q. cc)))

module _ {T : Types} (v : Codecs T) (e : Equalities T) where
  output_singular :
      (o : Output T) (k : OutputKey) (bytes : Bytes)
      → IsFiledAs false k
      → NoUnreachable (insert_singular_output v o k bytes)
  unfolding insert_singular_output OutputKeys.has_key_data OutputKeys.order
  output_singular o k bytes f q = ground arith

  output_plural :
      (o : Output T) (k : OutputKey) (key bytes : Bytes)
      → IsFiledAs true k
      → NoUnreachable (insert_plural_output v e o k key bytes)
  unfolding insert_plural_output OutputKeys.has_key_data OutputKeys.order
  output_plural o k key bytes f q = ground arith

  pub output-IsTotal : IsTotal (output_key_map v e)
  output-IsTotal = record { singular_total = output_singular; plural_total = output_plural }

  input_singular :
      (i : Input T) (k : InputKey) (bytes : Bytes)
      → IsFiledAs false k
      → NoUnreachable (insert_singular_input v i k bytes)
  unfolding insert_singular_input InputKeys.has_key_data InputKeys.order
  input_singular i k bytes f q = ground arith

  input_plural :
      (i : Input T) (k : InputKey) (key bytes : Bytes)
      → IsFiledAs true k
      → NoUnreachable (insert_plural_input v e i k key bytes)
  unfolding insert_plural_input InputKeys.has_key_data InputKeys.order
  input_plural i k key bytes f q = ground arith

  pub input-IsTotal : IsTotal (input_key_map v e)
  input-IsTotal = record { singular_total = input_singular; plural_total = input_plural }

module _ {T : Types} (c : Constants T) (w : Wire) (v : Codecs T) (e : Equalities T) where
  global_singular :
      (p : Psbt T) (k : GlobalKey) (bytes : Bytes)
      → IsFiledAs false k
      → NoUnreachable (insert_singular_global c w v p k bytes)
  unfolding insert_singular_global GlobalKeys.has_key_data GlobalKeys.order
  global_singular p k bytes f q = ground arith

  global_plural :
      (p : Psbt T) (k : GlobalKey) (key bytes : Bytes)
      → IsFiledAs true k
      → NoUnreachable (insert_plural_global c w v e p k key bytes)
  unfolding insert_plural_global GlobalKeys.has_key_data GlobalKeys.order
  global_plural p k key bytes f q = ground arith

  pub global-IsTotal : IsTotal (global_key_map c w v e)
  global-IsTotal = record { singular_total = global_singular; plural_total = global_plural }
