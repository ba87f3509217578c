-- ===== src/Psbt/Data/Construct.antt =====
-- The methods of `Psbt` in psbt/src/data.rs that add inputs and outputs and put them in order. A
-- method that returns a reference to what it pushed returns the new state; the `…_expect` methods
-- panic where these return an error.
use bp_std.Prelude.{ℕ, Bool, if◌then◌else◌, not, List, [], ◌∷◌, ◌++◌, length, some}
use bp_std.Prelude.Results.{Result, ok, err}
use bp_std.Consensus.{Types, Constants}
use bp_std.Derive.Terminal.{Terminal}
use bp_std.Psbt.Data.Flags.{unmodifiable}
use bp_std.Psbt.Data.Tx.{Prevout, outpoint}
use bp_std.Psbt.Data.Input
use bp_std.Psbt.Data.Input.{Input}
use bp_std.Psbt.Data.Output
use bp_std.Psbt.Data.Output.{Output}
use bp_std.Psbt.Data.Descriptor.{Descriptor}
use bp_std.Psbt.Data.Container.{Psbt, are_inputs_modifiable, are_outputs_modifiable, enumerate_from}

-- `Unmodifiable`
pub data Unmodifiable : Type 0 where
  unmodifiable_psbt : Unmodifiable

module _ {T : Types} (c : Constants T) where
  unfoldable pub input_for : ℕ → Prevout T → Descriptor T → Terminal → T.SeqNo → Input T
  input_for index prevout descriptor terminal sequence =
      let scripts = descriptor.derive terminal.keychain terminal.index in
      record (Input.new c index) {
        previous_outpoint = outpoint prevout;
        sequence_number = some sequence;
        witness_utxo =
            some (record { value = prevout.value; script_pubkey = scripts.script_pubkey });
        redeem_script = scripts.redeem_script;
        witness_script = scripts.witness_script;
        bip32_derivation = descriptor.compr_keyset terminal;
        tap_leaf_script = scripts.leaf_scripts;
        tap_bip32_derivation = descriptor.xonly_keyset terminal;
        tap_internal_key = scripts.internal_pk;
        tap_merkle_root = scripts.tap_root;
      }

  unfoldable pub construct_input :
      Psbt T → Prevout T → Descriptor T → Terminal → T.SeqNo → Result Unmodifiable (Psbt T)
  unfolding input_for
  construct_input psbt prevout descriptor terminal sequence =
      if not (are_inputs_modifiable psbt)
      then err unmodifiable_psbt
      else ok (record psbt {
        inputs =
            psbt.inputs
            ++ (input_for (length psbt.inputs) prevout descriptor terminal sequence ∷ []);
      })

  unfoldable pub output_for : ℕ → T.ScriptPubkey → ℕ → Output T
  output_for index script_pubkey value = record (Output.new c index) {
    amount = value;
    script = script_pubkey;
  }

  unfoldable pub construct_output : Psbt T → T.ScriptPubkey → ℕ → Result Unmodifiable (Psbt T)
  unfolding output_for
  construct_output psbt script_pubkey value =
      if not (are_outputs_modifiable psbt)
      then err unmodifiable_psbt
      else ok (record psbt {
        outputs = psbt.outputs ++ (output_for (length psbt.outputs) script_pubkey value ∷ []);
      })

  unfoldable pub change_for : ℕ → Descriptor T → Terminal → ℕ → Output T
  change_for index descriptor terminal value =
      let scripts = descriptor.derive terminal.keychain terminal.index in
      record {
        index = index;
        amount = value;
        script = scripts.script_pubkey;
        redeem_script = scripts.redeem_script;
        witness_script = scripts.witness_script;
        bip32_derivation = descriptor.compr_keyset terminal;
        tap_internal_key = scripts.internal_pk;
        tap_tree = scripts.tap_tree;
        tap_bip32_derivation = descriptor.xonly_keyset terminal;
        proprietary = [];
        unknown = [];
      }

  unfoldable pub construct_change :
      Psbt T → Descriptor T → Terminal → ℕ → Result Unmodifiable (Psbt T)
  unfolding change_for
  construct_change psbt descriptor terminal value =
      if not (are_outputs_modifiable psbt)
      then err unmodifiable_psbt
      else ok (record psbt {
        outputs = psbt.outputs ++ (change_for (length psbt.outputs) descriptor terminal value ∷ []);
      })

-- `slice::sort_by_key`, which is stable; `lt` is the order of the keys
module _ {A : Type 0} {K : Type 0} (lt : K → K → Bool) (key : A → K) where
  unfoldable pub insert_sorted : A → List A → List A
  insert_sorted a [] = a ∷ []
  insert_sorted a (b ∷ rest) =
      let later = insert_sorted a rest in if lt (key b) (key a) then b ∷ later else a ∷ b ∷ rest

  unfoldable pub sort_by_key : List A → List A
  unfolding insert_sorted
  sort_by_key [] = []
  sort_by_key (a ∷ rest) = insert_sorted a (sort_by_key rest)

module _ {T : Types} where
  unfoldable pub with_index : Output T → ℕ → Output T
  with_index o index = record o { index = index }

  unfoldable pub sort_outputs_by :
      {K : Type 0} → (K → K → Bool) → (Output T → K) → Psbt T → Result Unmodifiable (Psbt T)
  sort_outputs_by lt f psbt =
      if not (are_outputs_modifiable psbt)
      then err unmodifiable_psbt
      else ok
          (record psbt { outputs = enumerate_from with_index 0 (sort_by_key lt f psbt.outputs) })

  unfoldable pub complete_construction : Psbt T → Psbt T
  complete_construction psbt = record psbt { tx_modifiable = some unmodifiable }
