-- ===== src/Psbt/Tests/Data.antt =====
-- The theorems on psbt/src/data.rs and psbt/src/coders.rs at concrete inputs.
use mathlib.Core.List.{Perm}
use bp_std.Prelude.{
  ℕ, ◌%◌, ◌<◌, ◌^◌, ltb, [], ◌∷◌, ◌++◌, All, map, true, false, some, none, ◌≡◌, ◌↔◌, refl, arith,
}
use bp_std.Prelude.Results.{ok, AllOk}
use bp_std.Derive.Index.Hardened.{hardened_idx}
use bp_std.Derive.Index.Derivation.{derivation_idx, normal, hardened}
use bp_std.Derive.Terminal.{Terminal, outer}
use bp_std.Derive.Origins.{TapDerivation}
use bp_std.Psbt.Ver.{v2}
use bp_std.Psbt.Coders.Wire.{RoundTrips}
use bp_std.Psbt.Coders.Unsigned.{
  encode_unsigned_tx, decode_unsigned_tx, IsReadable, decode_unsigned_tx-encode_unsigned_tx,
}
use bp_std.Psbt.Coders.Paths.{encode_tap_derivation, decode_tap_derivation}
use bp_std.Psbt.Coders.Paths.RoundTrip.{decode_tap_derivation-encode_tap_derivation_iff, IsKept}
use bp_std.Psbt.Data.Flags.{
  ModifiableFlags, from_standard_u8, to_standard_u8, to_standard_u8-from_standard_u8,
}
use bp_std.Psbt.Data.Tx.{
  Outpoint, Tx, UnsignedTx, Prevout, with_sigs_removed, finalize, finalize-with_sigs_removed,
}
use bp_std.Psbt.Data.Output.{Output, to_txout, with_txout}
use bp_std.Psbt.Data.Descriptor.{Descriptor}
use bp_std.Psbt.Data.Container.{
  Psbt, create, reset_from_unsigned_tx, reset_inputs, reset_outputs, to_unsigned_tx,
  are_outputs_modifiable, enumerate_from,
}
use bp_std.Psbt.Data.Construct.{
  construct_input, construct_output, construct_change, sort_outputs_by, sort_by_key,
  complete_construction, with_index,
}
use bp_std.Psbt.Data.Unsigned.{to_unsigned_tx-reset_from_unsigned_tx}
use bp_std.Psbt.Data.Indexes.{IsIndexed, reset-IsIndexed, construct-IsIndexed}
use bp_std.Psbt.Data.Sorting.{IsOrder, IsSorted, sort_outputs_by-IsSorted}
use bp_std.Psbt.Data.Amounts.{construct_output_iff}
use bp_std.Psbt.KeyMap.Total.{NoUnreachable}
use bp_std.Psbt.Serial.{deserialize_psbt, magic}
use bp_std.Psbt.Serial.Total.{deserialize_psbt-NoUnreachable}
use bp_std.Psbt.Tests.CompactSize.{wire, wire-IsWire}
use bp_std.Psbt.Tests.Sample.{types, constants, equalities, tx_codecs, codecs}

to_standard_u8-from_standard_u8_example : to_standard_u8 (from_standard_u8 0x0D) ≡ 0x0D % 8
to_standard_u8-from_standard_u8_example = to_standard_u8-from_standard_u8 0x0D

abbrev outpoint_one : Outpoint types
outpoint_one = record { txid = 5; vout = 1 }

abbrev unsigned : UnsignedTx types
unsigned = record {
  version = 2;
  inputs = record { prev_output = outpoint_one; sequence = 9 } ∷ [];
  outputs =
      record { value = 700; script_pubkey = 3 } ∷ record { value = 40; script_pubkey = 4 } ∷ [];
  lock_time = 0;
}

abbrev bare_tx : Tx types
bare_tx = record {
  version = 2;
  inputs = record { prev_output = outpoint_one; sig_script = 0; sequence = 9; witness = 0 } ∷ [];
  outputs = [];
  lock_time = 0;
}

finalize-with_sigs_removed_example :
    (with_sigs_removed (finalize constants unsigned) ≡ unsigned)
    × (finalize constants (with_sigs_removed bare_tx) ≡ bare_tx)
finalize-with_sigs_removed_example =
    finalize-with_sigs_removed constants unsigned bare_tx ((refl, refl), tt)

abbrev fresh : Psbt types
fresh = create constants v2

abbrev filled : Psbt types
filled = reset_from_unsigned_tx constants fresh unsigned

to_unsigned_tx-reset_from_unsigned_tx_example : to_unsigned_tx constants filled ≡ unsigned
to_unsigned_tx-reset_from_unsigned_tx_example =
    to_unsigned_tx-reset_from_unsigned_tx constants fresh unsigned

reset-IsIndexed_example :
    IsIndexed filled × IsIndexed (reset_outputs constants (reset_inputs constants fresh 2) 3)
reset-IsIndexed_example = reset-IsIndexed constants fresh unsigned 2 3

abbrev descriptor : Descriptor types
descriptor = record {
  derive = λ keychain index. record {
    script_pubkey = 100;
    redeem_script = none;
    witness_script = none;
    internal_pk = some 1;
    tap_tree = none;
    leaf_scripts = [];
    tap_root = none;
  };
  compr_keyset = λ terminal. [];
  xonly_keyset = λ terminal. [];
  xpubs = [];
  dust_limit = 330;
}

abbrev prevout : Prevout types
prevout = record { txid = 6; vout = 0; value = 1000 }

abbrev first_terminal : Terminal
first_terminal = record { keychain = outer; index = record { value = 0 } }

construct-IsIndexed_example :
    AllOk IsIndexed (construct_input constants filled prevout descriptor first_terminal 0)
    × AllOk IsIndexed (construct_output constants filled 8 50)
    × AllOk IsIndexed (construct_change constants filled descriptor first_terminal 50)
    × IsIndexed (complete_construction filled)
construct-IsIndexed_example =
    construct-IsIndexed constants filled (reset-IsIndexed constants fresh unsigned 0 0).0 prevout
      descriptor first_terminal 0 8 50

ltb-IsOrder : IsOrder ltb
ltb-IsOrder = record {
  asymmetric = λ a b h. ground arith;
  not_transitive = λ a b c h k. ground arith;
}

abbrev sorted : Psbt types
sorted = record filled {
  outputs =
      with_txout constants (record { value = 40; script_pubkey = 4 }) 0
      ∷ with_txout constants (record { value = 700; script_pubkey = 3 }) 1
      ∷ [];
}

sort_test : sort_outputs_by ltb (λ (o : Output types). o.amount) filled ≡ ok sorted
unfolding sort_outputs_by sort_by_key with_index enumerate_from reset_from_unsigned_tx with_txout
    are_outputs_modifiable
sort_test = refl

amount-with_index : (o : Output types) (i : ℕ) → (with_index o i).amount ≡ o.amount
unfolding with_index
amount-with_index o i = refl

sort_outputs_by-IsSorted_example :
    IsSorted ltb (λ (o : Output types). o.amount) sorted.outputs
    × Perm (map to_txout sorted.outputs) (map to_txout filled.outputs)
    × (are_outputs_modifiable filled ≡ true)
sort_outputs_by-IsSorted_example =
    sort_outputs_by-IsSorted ltb (λ o. o.amount) amount-with_index ltb-IsOrder filled sorted
      sort_test

construct_output_iff_example :
    ((p : Psbt types) × (construct_output constants fresh 8 50 ≡ ok p)) ↔ (
      (f : ModifiableFlags) × (fresh.tx_modifiable ≡ some f)
      × (f.inputs_modifiable ≡ true)
      × (f.sighash_single ≡ false))
construct_output_iff_example = construct_output_iff constants fresh 8 50

deserialize_psbt-NoUnreachable_example : NoUnreachable (
    deserialize_psbt constants wire codecs equalities
      (magic ++ (1 ∷ 0 ∷ 4 ∷ 2 ∷ 0 ∷ 0 ∷ 0 ∷ 0 ∷ [])))
deserialize_psbt-NoUnreachable_example =
    deserialize_psbt-NoUnreachable constants wire codecs equalities
      (magic ++ (1 ∷ 0 ∷ 4 ∷ 2 ∷ 0 ∷ 0 ∷ 0 ∷ 0 ∷ []))

number_back : (n : ℕ) → n < 2 ^ 64 → RoundTrips wire.varint n
number_back n h = wire-IsWire.varint_round_trips n h

abbrev small_tx : UnsignedTx types
small_tx = record { version = 2; inputs = []; outputs = []; lock_time = 600 }

small_tx-IsReadable : IsReadable wire tx_codecs small_tx
small_tx-IsReadable = record {
  version_back = number_back 2 (omega arith);
  lock_time_back = number_back 600 (omega arith);
  outpoints_back = tt;
  sequences_back = tt;
  outputs_back = tt;
  inputs_few = omega arith;
  outputs_few = omega arith;
}

decode_unsigned_tx-encode_unsigned_tx_example :
    decode_unsigned_tx wire tx_codecs
      ((encode_unsigned_tx wire tx_codecs small_tx).written ++ (7 ∷ []))
    ≡ ok (small_tx, 7 ∷ [])
decode_unsigned_tx-encode_unsigned_tx_example =
    decode_unsigned_tx-encode_unsigned_tx wire tx_codecs wire-IsWire small_tx (7 ∷ [])
      small_tx-IsReadable (omega arith)

abbrev tap : TapDerivation types
tap = record {
  leaf_hashes = 11 ∷ 12 ∷ [];
  origin = record {
    master_fp = 4;
    derivation = hardened (record { value = 86 }) ∷ normal (record { value = 3 }) ∷ [];
  };
}

decode_tap_derivation-encode_tap_derivation_iff_example :
    (decode_tap_derivation wire wire.varint wire.varint
        (encode_tap_derivation wire wire.varint wire.varint tap).written
      ≡ ok (tap, []))
    ↔ All IsKept tap.origin.derivation
decode_tap_derivation-encode_tap_derivation_iff_example =
    decode_tap_derivation-encode_tap_derivation_iff wire wire.varint wire.varint wire-IsWire tap
      (omega arith) (number_back 11 (omega arith), (number_back 12 (omega arith), tt))
      (number_back 4 (omega arith)) (omega arith, (omega arith, tt))
