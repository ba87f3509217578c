-- ===== src/Psbt/Data/Container.antt =====
-- `Psbt` of psbt/src/data.rs: its state, how it is created and what is computed from it. The
-- methods that change its parts are in Construct.
use bp_std.Prelude.{
  ℕ, zero, suc, Bytes, Bool, false, not, ◌&&◌, List, [], ◌∷◌, map, Option, none, some,
}
use bp_std.Prelude.IndexMap.{IndexMap}
use bp_std.Consensus.{Types, Constants, Sats}
use bp_std.Derive.Origins.{XpubOrigin}
use bp_std.Psbt.Ver.{PsbtVer, v0}
use bp_std.Psbt.Errors.{PropKey}
use bp_std.Psbt.Data.Flags.{ModifiableFlags, modifiable, is_modifiable}
use bp_std.Psbt.Data.Tx.{UnsignedTx}
use bp_std.Psbt.Data.Input
use bp_std.Psbt.Data.Input.{Input}
use bp_std.Psbt.Data.Output
use bp_std.Psbt.Data.Output.{Output, to_txout}

pub record Psbt (T : Types) : Type 0 where
  pub version : PsbtVer
  pub tx_version : T.TxVer
  pub fallback_locktime : Option T.LockTime
  pub inputs : List (Input T)
  pub outputs : List (Output T)
  pub xpubs : IndexMap T.Xpub (XpubOrigin T)
  pub tx_modifiable : Option ModifiableFlags
  pub proprietary : IndexMap PropKey Bytes
  pub unknown : IndexMap ℕ (IndexMap Bytes Bytes)

-- `iter.enumerate().map(f)`, counting from `n`
unfoldable pub enumerate_from {ℓ κ} : {A : Type ℓ} {B : Type κ} → (A → ℕ → B) → ℕ → List A → List B
enumerate_from f n [] = []
enumerate_from f n (a ∷ rest) = f a n ∷ enumerate_from f (suc n) rest

-- `(from..from + count).map(f)`
unfoldable pub map_range {ℓ} : {A : Type ℓ} → (ℕ → A) → ℕ → ℕ → List A
map_range f from zero = []
map_range f from (suc count) = f from ∷ map_range f (suc from) count

-- the values of all, if all have one
abbrev pub all_some {ℓ κ} : {A : Type ℓ} {B : Type κ} → (A → Option B) → List A → Option (List B)
all_some f [] = some []
all_some f (a ∷ rest) = elim (f a) [
  | none ↦ none
  | some b ↦ elim (all_some f rest) [ none ↦ none | some bs ↦ some (b ∷ bs) ]
]

module _ {T : Types} (c : Constants T) where
  -- `Psbt::create`
  abbrev pub create : PsbtVer → Psbt T
  create version = record {
    version = version;
    tx_version = c.tx_ver_v2;
    fallback_locktime = none;
    inputs = [];
    outputs = [];
    xpubs = [];
    tx_modifiable = some modifiable;
    proprietary = [];
    unknown = [];
  }

  unfoldable pub reset_from_unsigned_tx : Psbt T → UnsignedTx T → Psbt T
  reset_from_unsigned_tx psbt tx = record psbt {
    version = v0;
    tx_version = tx.version;
    fallback_locktime = some tx.lock_time;
    inputs = enumerate_from (Input.with_txin c) 0 tx.inputs;
    outputs = enumerate_from (Output.with_txout c) 0 tx.outputs;
  }

  unfoldable pub from_tx : UnsignedTx T → Psbt T
  unfolding reset_from_unsigned_tx
  from_tx tx = reset_from_unsigned_tx (create v0) tx

  -- The counts come from the stream, and are taken to be of lists that can be allocated.
  unfoldable pub reset_inputs : Psbt T → ℕ → Psbt T
  reset_inputs psbt count = record psbt { inputs = map_range (Input.new c) 0 count }

  unfoldable pub reset_outputs : Psbt T → ℕ → Psbt T
  reset_outputs psbt count = record psbt { outputs = map_range (Output.new c) 0 count }

  unfoldable pub lock_time : Psbt T → T.LockTime
  lock_time psbt = elim psbt.fallback_locktime [ none ↦ c.lock_time_zero | some time ↦ time ]

  unfoldable pub to_unsigned_tx : Psbt T → UnsignedTx T
  unfolding lock_time
  to_unsigned_tx psbt = record {
    version = psbt.tx_version;
    inputs = map (Input.to_unsigned_txin c) psbt.inputs;
    outputs = map to_txout psbt.outputs;
    lock_time = lock_time psbt;
  }

module _ {T : Types} (s : Sats) where
  -- `none` where `Input::value` panics
  unfoldable pub input_sum : Psbt T → Option ℕ
  input_sum psbt = elim (all_some Input.value psbt.inputs) [
    | none ↦ none
    | some values ↦ some (s.sum values)
  ]

  unfoldable pub output_sum : Psbt T → ℕ
  output_sum psbt = s.sum (map (λ (o : Output T). o.amount) psbt.outputs)

  -- the outer option is for a panic
  unfoldable pub fee : Psbt T → Option (Option ℕ)
  unfolding input_sum output_sum
  fee psbt = elim (input_sum psbt) [
    | none ↦ none
    | some sum ↦ some (s.checked_sub sum (output_sum psbt))
  ]

abbrev flag_or_false : (ModifiableFlags → Bool) → Option ModifiableFlags → Bool
flag_or_false test none = false
flag_or_false test (some flags) = test flags

module _ {T : Types} where
  unfoldable pub is_psbt_modifiable : Psbt T → Bool
  is_psbt_modifiable psbt = flag_or_false is_modifiable psbt.tx_modifiable

  unfoldable pub are_inputs_modifiable : Psbt T → Bool
  are_inputs_modifiable psbt =
      flag_or_false
        (λ (flags : ModifiableFlags). flags.inputs_modifiable && not flags.sighash_single)
        psbt.tx_modifiable

  -- the flag of the inputs decides on the outputs, too
  unfoldable pub are_outputs_modifiable : Psbt T → Bool
  are_outputs_modifiable psbt =
      flag_or_false
        (λ (flags : ModifiableFlags). flags.inputs_modifiable && not flags.sighash_single)
        psbt.tx_modifiable
