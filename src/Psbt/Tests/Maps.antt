-- ===== src/Psbt/Tests/Maps.antt =====
-- The theorems on psbt/src/maps.rs at concrete inputs.
use bp_std.Prelude.{suc, ◌^◌, Bytes, List, [], ◌∷◌, ◌++◌, All, map, true, ◌≡◌, refl, ◌↔◌, arith}
use bp_std.Prelude.Results.{ok, err}
use bp_std.Prelude.BTreeMap
use bp_std.Psbt.Ver.{v0, v2}
use bp_std.Psbt.Errors.{MapName}
use bp_std.Psbt.Keys.KeyType.{key_ord}
use bp_std.Psbt.Keys.Global.{GlobalKey, global_key_type}
use bp_std.Psbt.Keys.Input
use bp_std.Psbt.Keys.Input.{InputKey, input_key_type}
use bp_std.Psbt.Keys.Output.{output_key_type}
use bp_std.Psbt.Keys.Laws.{input-IsLawful}
use bp_std.Psbt.Coders.Writer.{raw, encode_each}
use bp_std.Psbt.Coders.Pairs.{PairToWrite, encode_pair}
use bp_std.Psbt.Coders.Pairs.RoundTrip.{Fits, pair_read}
use bp_std.Psbt.Maps.{Map, new, add_pair, parse_loop, parse, check}
use bp_std.Psbt.Maps.Required.{AllAllowed, input-check_iff, global-check_iff}
use bp_std.Psbt.Maps.Parse.{add_all, leaving, parse-encode_each, parse_total}
use bp_std.Psbt.Maps.Lookup.{FullKey, full_key, Extends}
use bp_std.Psbt.Maps.Extends.{add_pair-Extends}
use bp_std.Psbt.Maps.Unique.{AllDistinct, Finds, parse-AllDistinct}
use bp_std.Psbt.KeyMap.{panicked}
use bp_std.Psbt.Serial.Buffers.{read_map}
use bp_std.Psbt.Serial.Buffers.Reads.{read_map-parse_iff}
use bp_std.Psbt.Tests.CompactSize.{wire, wire-IsWire}

abbrev unsigned_only : Map GlobalKey
unsigned_only = record (new MapName.global) { singular = (GlobalKey.unsigned_tx, 1 ∷ 2 ∷ []) ∷ [] }

input-check_iff_example :
    (check {K = InputKey} (new MapName.input) v2 ≡ ok tt)
    ↔ AllAllowed {K = InputKey} (new MapName.input) v2
input-check_iff_example = input-check_iff (new MapName.input) v2

global-check_iff_example : (check unsigned_only v0 ≡ ok tt) ↔ (
    AllAllowed unsigned_only v0
    × (v0 ≡ v0 → BTreeMap.contains_key GlobalKey.unsigned_tx unsigned_only.singular ≡ true))
global-check_iff_example = global-check_iff unsigned_only v0

abbrev sighash_pair : PairToWrite InputKey
sighash_pair = record {
  key_type = InputKey.sighash_type;
  key_data = raw [];
  value_data = raw (1 ∷ 0 ∷ 0 ∷ 0 ∷ []);
}

abbrev partial_sig_pair : PairToWrite InputKey
partial_sig_pair = record {
  key_type = InputKey.partial_sig;
  key_data = raw (2 ∷ 3 ∷ []);
  value_data = raw (48 ∷ []);
}

abbrev two_pairs : List (PairToWrite InputKey)
two_pairs = sighash_pair ∷ partial_sig_pair ∷ []

sighash_pair-Fits : Fits sighash_pair
unfolding Input.into_u8
sighash_pair-Fits = record {
  key_exact = refl;
  value_exact = refl;
  key_short = omega arith;
  value_short = omega arith;
  key_byte = omega arith;
}

partial_sig_pair-Fits : Fits partial_sig_pair
unfolding Input.into_u8
partial_sig_pair-Fits = record {
  key_exact = refl;
  value_exact = refl;
  key_short = omega arith;
  value_short = omega arith;
  key_byte = omega arith;
}

abbrev two_pairs_stream : Bytes
two_pairs_stream = (encode_each (encode_pair wire) two_pairs).written ++ (0 ∷ 7 ∷ [])

parse-encode_each_example :
    parse {K = InputKey} wire MapName.input two_pairs_stream
    ≡ leaving (7 ∷ []) (add_all wire (new MapName.input) (map pair_read two_pairs))
parse-encode_each_example =
    parse-encode_each wire-IsWire MapName.input two_pairs (7 ∷ [])
      (sighash_pair-Fits, (partial_sig_pair-Fits, tt))

parse_total_example :
    parse_loop {K = InputKey} wire 9 (new MapName.input) (1 ∷ 3 ∷ 1 ∷ 7 ∷ 0 ∷ [])
    ≡ parse wire MapName.input (1 ∷ 3 ∷ 1 ∷ 7 ∷ 0 ∷ [])
parse_total_example =
    parse_total {K = InputKey} wire-IsWire MapName.input (1 ∷ 3 ∷ 1 ∷ 7 ∷ 0 ∷ []) 9 (omega arith)

abbrev sighash_map : Map InputKey
sighash_map = record (new MapName.input) {
  singular = (InputKey.sighash_type, 1 ∷ 0 ∷ 0 ∷ 0 ∷ []) ∷ [];
}

add_pair_test : add_pair wire (new MapName.input) (pair_read sighash_pair) ≡ ok sighash_map
unfolding add_pair Input.into_u8 Input.from_u8 Input.is_proprietary Input.order Input.has_key_data
    BTreeMap.insert BTreeMap.get
add_pair_test = refl

add_pair-Extends_example :
    (k : FullKey InputKey) × (full_key wire (pair_read sighash_pair) ≡ ok k)
    × Extends (new MapName.input) sighash_map k (1 ∷ 0 ∷ 0 ∷ 0 ∷ [])
add_pair-Extends_example =
    add_pair-Extends input-IsLawful wire (new MapName.input) sighash_map (pair_read sighash_pair)
      add_pair_test

abbrev two_map : Map InputKey
two_map = record (new MapName.input) {
  singular = (InputKey.sighash_type, 1 ∷ 0 ∷ 0 ∷ 0 ∷ []) ∷ [];
  plural = (InputKey.partial_sig, (2 ∷ 3 ∷ [], 48 ∷ []) ∷ []) ∷ [];
}

add_all_test : add_all wire (new MapName.input) (map pair_read two_pairs) ≡ ok two_map
unfolding add_pair Input.into_u8 Input.from_u8 Input.is_proprietary Input.order Input.has_key_data
    BTreeMap.insert BTreeMap.get BTreeMap.cmp_bytes
add_all_test = refl

parse_test : parse {K = InputKey} wire MapName.input two_pairs_stream ≡ ok (two_map, 7 ∷ [])
parse_test = rw (parse-encode_each_example, add_all_test) refl

parse-AllDistinct_example :
    ◌≡◌ {A = Bytes} (7 ∷ []) (7 ∷ [])
    × AllDistinct input-IsLawful wire (map pair_read two_pairs)
    × All (Finds input-IsLawful wire two_map) (map pair_read two_pairs)
parse-AllDistinct_example =
    parse-AllDistinct input-IsLawful wire wire-IsWire MapName.input two_pairs (7 ∷ []) (7 ∷ [])
      two_map (sighash_pair-Fits, (partial_sig_pair-Fits, tt)) parse_test

abbrev sighash_stream : Bytes
sighash_stream = 1 ∷ 3 ∷ 4 ∷ 1 ∷ 0 ∷ 0 ∷ 0 ∷ 0 ∷ 7 ∷ []

read_map-parse_iff_example :
    ((read_map wire MapName.input sighash_stream ≡ ok (sighash_map, 7 ∷ []))
      ↔ (parse wire MapName.input sighash_stream ≡ ok (sighash_map, 7 ∷ [])))
    × (read_map {K = InputKey} wire MapName.input
          ((wire.varint.encode (suc (2 ^ 63))).written ++ (3 ∷ []))
        ≡ err panicked)
read_map-parse_iff_example =
    read_map-parse_iff wire-IsWire MapName.input sighash_stream (7 ∷ []) [] sighash_map (2 ^ 63) 3
      (omega arith) (omega arith) (omega arith) (omega arith)
