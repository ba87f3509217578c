-- ===== src/Psbt/Data/Output.antt =====
-- `Output` of psbt/src/data.rs.
use bp_std.Prelude.{
  ℕ, ◌%◌, ◌^◌, ◌==◌, ◌&&◌, Bytes, Bool, if◌then◌else◌, List, [], ◌∷◌, ◌++◌, Option, none, some,
}
use bp_std.Prelude.IndexMap.{IndexMap}
use bp_std.Consensus.{Types, Constants}
use bp_std.Derive.Index.Derivation.{derivation_idx}
use bp_std.Derive.Terminal.{Terminal, terminal}
use bp_std.Derive.TapTree.{TapTree}
use bp_std.Derive.Origins.{KeyOrigin, TapDerivation}
use bp_std.Psbt.Errors.{PropKey}
use bp_std.Psbt.Data.Tx.{TxOut}

pub record Output (T : Types) : Type 0 where
  pub index : ℕ
  pub amount : ℕ
  pub script : T.ScriptPubkey
  pub redeem_script : Option T.RedeemScript
  pub witness_script : Option T.WitnessScript
  pub bip32_derivation : IndexMap T.CompressedPk (KeyOrigin T)
  pub tap_internal_key : Option T.InternalPk
  pub tap_tree : Option (TapTree T)
  pub tap_bip32_derivation : IndexMap T.XOnlyPk (TapDerivation T)
  pub proprietary : IndexMap PropKey Bytes
  pub unknown : IndexMap ℕ (IndexMap Bytes Bytes)

module _ {T : Types} (c : Constants T) where
  -- `Output::new`
  abbrev pub new : ℕ → Output T
  new index = record {
    index = index;
    amount = 0;
    script = c.empty_script_pubkey;
    redeem_script = none;
    witness_script = none;
    bip32_derivation = [];
    tap_internal_key = none;
    tap_tree = none;
    tap_bip32_derivation = [];
    proprietary = [];
    unknown = [];
  }

  -- `Output::with_txout`, which `Output::from_txout` calls
  unfoldable pub with_txout : TxOut T → ℕ → Output T
  with_txout txout index = record (new index) { amount = txout.value; script = txout.script_pubkey }

  -- `Output::vout`
  abbrev pub vout : Output T → T.Vout
  vout o = c.vout_from_u32 (o.index % 2 ^ 32)

-- `terminal == other`
abbrev pub same_terminal : Terminal → Terminal → Bool
same_terminal a b = a.keychain.value == b.keychain.value && a.index.value == b.index.value

-- the terminals of a list of paths, without those that have none
abbrev pub flatten : List (Option Terminal) → List Terminal
flatten [] = []
flatten (none ∷ rest) = flatten rest
flatten (some t ∷ rest) = t ∷ flatten rest

-- the only element of the set of these terminals
abbrev pub only_one : List Terminal → Option Terminal
only_one [] = none
only_one (t ∷ []) = some t
only_one (t ∷ u ∷ rest) =
    let others = only_one (u ∷ rest) in if same_terminal t u then others else none

module _ {T : Types} where
  -- `Output::to_txout`
  unfoldable pub to_txout : Output T → TxOut T
  to_txout o = record { value = o.amount; script_pubkey = o.script }

  key_terminals : IndexMap T.CompressedPk (KeyOrigin T) → List (Option Terminal)
  key_terminals [] = []
  key_terminals ((pk, origin) ∷ rest) = terminal origin.derivation ∷ key_terminals rest

  tap_terminals : IndexMap T.XOnlyPk (TapDerivation T) → List (Option Terminal)
  tap_terminals [] = []
  tap_terminals ((pk, derivation) ∷ rest) =
      terminal derivation.origin.derivation ∷ tap_terminals rest

  -- `Output::terminal_derivation`
  unfoldable pub terminal_derivation : Output T → Option Terminal
  unfolding key_terminals tap_terminals
  terminal_derivation o =
      only_one (flatten (key_terminals o.bip32_derivation ++ tap_terminals o.tap_bip32_derivation))
