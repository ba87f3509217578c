-- ===== src/Psbt/Constructor.antt =====
-- psbt/src/constructor.rs: a wallet builds a PSBT from coins, payments, a fee and a change output.
pub mod Outputs
pub mod Sharing
pub mod Conservation
use bp_std.Prelude.{
  ℕ, zero, suc, ◌+◌, ◌%◌, ◌^◌, ◌==◌, ◌||◌, ltb, if◌then◌else◌, Bool, true, false, List, [], ◌∷◌,
  ◌++◌, length, Option, none, some,
}
use bp_std.Prelude.Results.{Result, ok, err, ◌>>=◌, ok_or}
use bp_std.Prelude.IndexMap
use bp_std.Consensus.{Types, Constants, Equalities, Sats}
use bp_std.Derive.Index.Normal.{NormalIndex}
use bp_std.Derive.Terminal.{Keychain, Terminal, inner}
use bp_std.Derive.Origins.{XpubOrigin}
use bp_std.Psbt.Ver.{v2}
use bp_std.Psbt.Errors.{PsbtError}
use bp_std.Psbt.Data.Tx.{Outpoint, prevout_new}
use bp_std.Psbt.Data.Output.{Output}
use bp_std.Psbt.Data.Descriptor.{Descriptor}
use bp_std.Psbt.Data.Container.{Psbt, create, input_sum}
use bp_std.Psbt.Data.Construct.{construct_input, construct_output, construct_change}
use bp_std.Psbt.KeyMap.{Fault, refused, panicked}

pub data ConstructionError : Type 0 where
  psbt : PsbtError → ConstructionError
  no_inputs : ConstructionError
  overflow : ℕ → ConstructionError
  output_exceeds_inputs : ℕ → ℕ → ConstructionError
  no_funds_for_fee : ℕ → ℕ → ℕ → ConstructionError

pub data Payment : Type 0 where
  fixed : ℕ → Payment
  max : Payment

-- `Payment::unwrap_or`, `Payment::is_max`
abbrev pub unwrap_or : Payment → ℕ → ℕ
unwrap_or (fixed sats) default = sats
unwrap_or max default = default

abbrev pub is_max : Payment → Bool
is_max (fixed sats) = false
is_max max = true

-- `Beneficiary`: of its address, the script
pub record Beneficiary (T : Types) : Type 0 where
  pub script_pubkey : T.ScriptPubkey
  pub amount : Payment

pub record TxParams (T : Types) : Type 0 where
  pub fee : ℕ
  pub lock_time : Option T.LockTime
  pub seq_no : T.SeqNo
  pub change_shift : Bool
  pub change_keychain : Keychain

pub record PsbtMeta (T : Types) : Type 0 where
  pub change_vout : Option T.Vout
  pub change_terminal : Option Terminal

pub record Utxo (T : Types) : Type 0 where
  pub outpoint : Outpoint T
  pub value : ℕ
  pub terminal : Terminal

-- the methods of `PsbtConstructor` that a wallet gives itself; the wallet is of type `W`
pub record Wallet (T : Types) (W : Type 0) : Type 0 where
  pub descriptor : W → Descriptor T
  pub utxo : W → Outpoint T → Option (Utxo T)
  pub next_derivation_index : W → Keychain → Bool → W × NormalIndex

-- `….expect(…)`
abbrev pub expect {ℓ} : {E F : Type 0} {A : Type ℓ} → Result E A → Result (Fault F) A
expect (ok a) = ok a
expect (err e) = err panicked

abbrev pub found {ℓ} : {F : Type 0} {A : Type ℓ} → Option A → Result (Fault F) A
found (some a) = ok a
found none = err panicked

-- `….ok_or(…)?`
abbrev pub otherwise {ℓ} : {E : Type 0} {A : Type ℓ} → E → Option A → Result (Fault E) A
otherwise e (some a) = ok a
otherwise e none = err (refused e)

-- `max.contains(&index)`
abbrev pub contains : List ℕ → ℕ → Bool
contains [] index = false
contains (i ∷ is') index = i == index || contains is' index

module _ {T : Types} where
  -- `TxParams::with`
  abbrev pub with_fee : Constants T → ℕ → TxParams T
  with_fee c fee = record {
    fee = fee;
    lock_time = none;
    seq_no = c.seq_no_from_consensus_u32 0;
    change_shift = true;
    change_keychain = inner;
  }

  -- `for out in psbt.outputs_mut()`
  pub share_out : List ℕ → ℕ → List (Output T) → List (Output T)
  share_out maxes portion [] = []
  share_out maxes portion (o ∷ os) =
      (if contains maxes o.index then record o { amount = portion } else o)
      ∷ share_out maxes portion os

module _ {T : Types} (c : Constants T) (e : Equalities T) (s : Sats) {W : Type 0}
    (wallet : Wallet T W) where
  unfoldable pub add_xpubs : Psbt T → List (T.Xpub × XpubOrigin T) → Psbt T
  add_xpubs p [] = p
  add_xpubs p ((xpub, origin) ∷ rest) =
      add_xpubs (record p { xpubs = IndexMap.insert ⦃e = e.xpub⦄ xpub origin p.xpubs }) rest

  -- the loop that adds the inputs
  unfoldable pub add_inputs :
      W → TxParams T → Psbt T → List (Outpoint T) → Result (Fault ConstructionError) (Psbt T)
  add_inputs w params p [] = ok p
  add_inputs w params p (coin ∷ coins) = do
    utxo ← found (wallet.utxo w coin)
    p' ← expect (
        construct_input c p (prevout_new utxo.outpoint utxo.value) (wallet.descriptor w)
          utxo.terminal params.seq_no)
    add_inputs w params p' coins

  -- the loop that adds the outputs: the PSBT, the value of its outputs and the indexes of those
  -- that take what remains
  unfoldable pub add_outputs :
      Psbt T
      → ℕ
      → List ℕ
      → List (Beneficiary T)
      → Result (Fault ConstructionError) (Psbt T × ℕ × List ℕ)
  add_outputs p output_value maxes [] = ok (p, output_value, maxes)
  add_outputs p output_value maxes (b ∷ bs) = do
    let amount = unwrap_or b.amount 0
    sum ← otherwise (overflow output_value) (s.checked_add output_value amount)
    p' ← expect (construct_output c p b.script_pubkey amount)
    add_outputs p' sum (if is_max b.amount then maxes ++ (length p.outputs ∷ []) else maxes) bs

  -- what remains of the inputs after the outputs and the fee
  unfoldable pub remainder : ℕ → ℕ → ℕ → Result (Fault ConstructionError) ℕ
  remainder input_value output_value fee = do
    left ←
        otherwise (output_exceeds_inputs input_value output_value)
          (s.checked_sub input_value output_value)
    otherwise (no_funds_for_fee input_value output_value fee) (s.checked_sub left fee)

  -- the outputs that take what remains share it equally
  unfoldable pub distribute : Psbt T → List ℕ → ℕ → Psbt T × ℕ
  unfolding share_out
  distribute p [] remaining = (p, remaining)
  distribute p (i ∷ maxes) remaining = (
    record p { outputs = share_out (i ∷ maxes) (s.div remaining (length (i ∷ maxes))) p.outputs },
    0,
  )

  -- the change output, if what remains exceeds the dust limit
  unfoldable pub add_change :
      W → TxParams T → Psbt T → ℕ → Result (Fault ConstructionError) (W × Psbt T × PsbtMeta T)
  add_change w params p remaining =
      let (w', change_index) =
        wallet.next_derivation_index w params.change_keychain params.change_shift in
      let change_terminal : Terminal = record {
        keychain = params.change_keychain;
        index = change_index;
      } in
      if ltb (wallet.descriptor w).dust_limit remaining
      then (do
        p' ← expect (construct_change c p (wallet.descriptor w') change_terminal remaining)
        ok (
          w',
          p',
          record {
            change_vout = some (c.vout_from_u32 (length p.outputs % 2 ^ 32));
            change_terminal = some change_terminal;
          },
        ))
      else ok (w, p, record { change_vout = none; change_terminal = none })

  -- `if psbt.inputs().count() == 0`
  abbrev pub require_inputs : Psbt T → Result (Fault ConstructionError) (Psbt T)
  require_inputs p = if length p.inputs == 0 then err (refused no_inputs) else ok p

  -- `PsbtConstructor::construct_psbt`
  unfoldable pub construct_psbt :
      W
      → List (Outpoint T)
      → List (Beneficiary T)
      → TxParams T
      → Result (Fault ConstructionError) (W × Psbt T × PsbtMeta T)
  unfolding add_xpubs add_inputs add_outputs remainder distribute add_change
  construct_psbt w coins beneficiaries params = do
    let p =
        add_xpubs (record (create c v2) { fallback_locktime = params.lock_time })
          (wallet.descriptor w).xpubs
    with_inputs ← add_inputs w params p coins
    ready ← require_inputs with_inputs
    input_value ← found (input_sum s ready)
    (paid, output_value, maxes) ← add_outputs ready 0 [] beneficiaries
    remaining ← remainder input_value output_value params.fee
    let (shared, left) = distribute paid maxes remaining
    add_change w params shared left
