-- ===== src/Psbt/Data/Indexes.antt =====
-- The inputs and outputs of a PSBT in psbt/src/data.rs know their places.
use bp_std.Prelude.{
  ℕ, zero, suc, ◌+◌, List, [], ◌∷◌, ◌++◌, length, not, if◌then◌else◌, ◌≡◌, refl, arith, true, false,
  Bool,
}
use bp_std.Prelude.Results.{ok, err, AllOk}
use bp_std.Consensus.{Types, Constants}
use bp_std.Derive.Terminal.{Terminal}
use bp_std.Psbt.Data.Tx.{Prevout, UnsignedTx}
use bp_std.Psbt.Data.Input
use bp_std.Psbt.Data.Input.{Input}
use bp_std.Psbt.Data.Output
use bp_std.Psbt.Data.Output.{Output}
use bp_std.Psbt.Data.Descriptor.{Descriptor}
use bp_std.Psbt.Data.Container.{
  Psbt, enumerate_from, map_range, reset_from_unsigned_tx, reset_inputs, reset_outputs,
  are_inputs_modifiable, are_outputs_modifiable,
}
use bp_std.Psbt.Data.Construct.{
  construct_input, construct_output, construct_change, sort_outputs_by, sort_by_key, with_index,
  unmodifiable_psbt, input_for, output_for, change_for, complete_construction,
}

module _ {A : Type 0} (index : A → ℕ) where
  -- The elements count on from `n`.
  abbrev pub CountsFrom : ℕ → List A → Type 0
  CountsFrom n [] = Unit {0}
  CountsFrom n (a ∷ rest) = (index a ≡ n) × CountsFrom (suc n) rest

  CountsFrom-append :
      (n : ℕ) (xs : List A) (a : A)
      → CountsFrom n xs
      → index a ≡ n + length xs
      → CountsFrom n (xs ++ (a ∷ []))
  CountsFrom-append n [] a h e = (omega (arith, e), tt)
  CountsFrom-append n (x ∷ xs) a (e, h) k = (e, CountsFrom-append (suc n) xs a h (omega (arith, k)))

  CountsFrom-map_range :
      (f : ℕ → A) → ((i : ℕ) → index (f i) ≡ i) → (n count : ℕ) → CountsFrom n (map_range f n count)
  unfolding map_range
  CountsFrom-map_range f h n zero = tt
  CountsFrom-map_range f h n (suc count) = (h n, CountsFrom-map_range f h (suc n) count)

  CountsFrom-enumerate_from :
      {B : Type 0} (f : B → ℕ → A)
      → ((b : B) (i : ℕ) → index (f b i) ≡ i)
      → (n : ℕ) (bs : List B) → CountsFrom n (enumerate_from f n bs)
  unfolding enumerate_from
  CountsFrom-enumerate_from f h n [] = tt
  CountsFrom-enumerate_from f h n (b ∷ bs) = (h b n, CountsFrom-enumerate_from f h (suc n) bs)

module _ {T : Types} where
  -- The index of each input and of each output is its place.
  pub record IsIndexed (psbt : Psbt T) : Type 0 where
    pub inputs_indexed : CountsFrom (λ (i : Input T). i.index) 0 psbt.inputs
    pub outputs_indexed : CountsFrom (λ (o : Output T). o.index) 0 psbt.outputs

-- A guarded step keeps the order if what it returns is in order.
guard-IsIndexed :
    {T : Types} (allowed : Bool) (psbt : Psbt T)
    → IsIndexed psbt
    → AllOk IsIndexed (if not allowed then err unmodifiable_psbt else ok psbt)
guard-IsIndexed true psbt h = h
guard-IsIndexed false psbt h = tt

module _ {T : Types} (psbt : Psbt T) (h : IsIndexed psbt) where
  abbrev push_input : Input T → Psbt T
  push_input i = record psbt { inputs = psbt.inputs ++ (i ∷ []) }

  abbrev push_output : Output T → Psbt T
  push_output o = record psbt { outputs = psbt.outputs ++ (o ∷ []) }

  push_input-IsIndexed : (i : Input T) → i.index ≡ length psbt.inputs → IsIndexed (push_input i)
  push_input-IsIndexed i e = record {
    inputs_indexed = CountsFrom-append _ 0 psbt.inputs i h.inputs_indexed (omega (arith, e));
    outputs_indexed = h.outputs_indexed;
  }

  push_output-IsIndexed : (o : Output T) → o.index ≡ length psbt.outputs → IsIndexed (push_output o)
  push_output-IsIndexed o e = record {
    inputs_indexed = h.inputs_indexed;
    outputs_indexed = CountsFrom-append _ 0 psbt.outputs o h.outputs_indexed (omega (arith, e));
  }

module _ {T : Types} (c : Constants T) (psbt : Psbt T) where
  -- A PSBT that is reset from a transaction is in order, whatever it held before, and so are
  -- inputs and outputs that are reset to any number.
  pub reset-IsIndexed :
      (tx : UnsignedTx T) (inputs outputs : ℕ)
      → IsIndexed (reset_from_unsigned_tx c psbt tx)
        × IsIndexed (reset_outputs c (reset_inputs c psbt inputs) outputs)
  unfolding reset_from_unsigned_tx reset_inputs reset_outputs Input.with_txin Output.with_txout
  reset-IsIndexed tx inputs outputs = (
    record {
      inputs_indexed = CountsFrom-enumerate_from _ _ (λ b i. refl) 0 tx.inputs;
      outputs_indexed = CountsFrom-enumerate_from _ _ (λ b i. refl) 0 tx.outputs;
    },
    record {
      inputs_indexed = CountsFrom-map_range _ _ (λ i. refl) 0 inputs;
      outputs_indexed = CountsFrom-map_range _ _ (λ i. refl) 0 outputs;
    },
  )

  -- A PSBT whose inputs and outputs know their places stays so when an input, an output or a
  -- change output is added, and when construction is completed.
  pub construct-IsIndexed :
      IsIndexed psbt
      → (prevout : Prevout T) (descriptor : Descriptor T) (terminal : Terminal) (sequence : T.SeqNo)
        (script : T.ScriptPubkey) (value : ℕ)
      → AllOk IsIndexed (construct_input c psbt prevout descriptor terminal sequence)
        × AllOk IsIndexed (construct_output c psbt script value)
        × AllOk IsIndexed (construct_change c psbt descriptor terminal value)
        × IsIndexed (complete_construction psbt)
  unfolding construct_input construct_output construct_change complete_construction input_for
      output_for change_for
  construct-IsIndexed h prevout descriptor terminal sequence script value = (
    guard-IsIndexed (are_inputs_modifiable psbt) _ (
        push_input-IsIndexed psbt h
          (input_for c (length psbt.inputs) prevout descriptor terminal sequence) refl),
    guard-IsIndexed (are_outputs_modifiable psbt) _
        (push_output-IsIndexed psbt h (output_for c (length psbt.outputs) script value) refl),
    guard-IsIndexed (are_outputs_modifiable psbt) _ (
        push_output-IsIndexed psbt h (change_for c (length psbt.outputs) descriptor terminal value)
          refl),
    record { inputs_indexed = h.inputs_indexed; outputs_indexed = h.outputs_indexed },
  )

module _ {T : Types} (psbt : Psbt T) where
  -- Sorting the outputs leaves a PSBT whose inputs know their places with outputs that do, too.
  sort_outputs_by-IsIndexed :
      {K : Type 0} (lt : K → K → Bool) (key : Output T → K)
      → CountsFrom (λ (i : Input T). i.index) 0 psbt.inputs
      → AllOk IsIndexed (sort_outputs_by lt key psbt)
  unfolding sort_outputs_by with_index
  sort_outputs_by-IsIndexed lt key h = guard-IsIndexed _ _ (record {
    inputs_indexed = h;
    outputs_indexed =
        CountsFrom-enumerate_from _ _ (λ o i. refl) 0 (sort_by_key lt key psbt.outputs);
  })
