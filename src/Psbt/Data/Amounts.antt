-- ===== src/Psbt/Data/Amounts.antt =====
-- The fee of a PSBT, and what its flags permit, in psbt/src/data.rs.
use bp_std.Prelude.{
  ℕ, ◌-◌, ◌<◌, ◌^◌, leb, if◌then◌else◌, true, false, List, [], ◌∷◌, ◌++◌, length, map, none, some,
  ◌≡◌, ◌↔◌, arith, Option-cases, inl, inr,
}
use bp_std.Prelude.Results.{ok}
use bp_std.Consensus.{Types, Constants, Sats, IsSats, total}
use bp_std.Psbt.Data.Flags.{ModifiableFlags}
use bp_std.Psbt.Data.Input
use bp_std.Psbt.Data.Container.{Psbt, all_some, input_sum, output_sum, fee, are_outputs_modifiable}
use bp_std.Psbt.Data.Construct.{construct_output, output_for}

abbrev pub amounts : {T : Types} → Psbt T → List ℕ
amounts psbt = map (λ o. o.amount) psbt.outputs

-- Where each input has a value and neither side overflows 64 bits, the fee is the difference of
-- the totals, and there is none where the outputs exceed the inputs.
fee_lem :
    {T : Types} (s : Sats)
    → IsSats s
    → (psbt : Psbt T) (values : List ℕ) → all_some Input.value psbt.inputs ≡ some values
    → total values < 2 ^ 64
    → total (amounts psbt) < 2 ^ 64
    → fee s psbt
      ≡ some (
          if leb (total (amounts psbt)) (total values)
          then some (total values - total (amounts psbt))
          else none)
unfolding fee input_sum output_sum
fee_lem s lawful psbt values h hi ho = ground (
  arith,
  h,
  lawful.sum_fits values hi,
  lawful.sum_fits (amounts psbt) ho,
  lawful.sub_fits (total values) (total (amounts psbt)),
  lawful.sub_underflows (total values) (total (amounts psbt)),
)

-- An output can be added exactly where the flag of the inputs is set and that of single sighashes
-- is not, whatever the flag of the outputs says.
pub construct_output_iff :
    {T : Types} (c : Constants T) (psbt : Psbt T) (script : T.ScriptPubkey) (value : ℕ)
    → ((psbt' : Psbt T) × (construct_output c psbt script value ≡ ok psbt')) ↔ (
        (flags : ModifiableFlags) × (psbt.tx_modifiable ≡ some flags)
        × (flags.inputs_modifiable ≡ true)
        × (flags.sighash_single ≡ false))
unfolding construct_output are_outputs_modifiable
construct_output_iff c psbt script value = (
  λ (psbt', h). elim (Option-cases psbt.tx_modifiable) [
    | inl e ↦ ground (arith, h, e)
    | inr (flags, e) ↦ (flags, e, ground (arith, h, e), ground (arith, h, e))
  ],
  λ (flags, e, i, s). (
    record psbt {
      outputs = psbt.outputs ++ (output_for c (length psbt.outputs) script value ∷ []);
    },
    ground (arith, e, i, s),
  ),
)
