-- ===== src/Consensus.antt =====
-- What the crates of this repository take from bp-core (consensus types and keys), as a parameter:
-- the types that they only pass on, and the values and functions that they name.
use bp_std.Prelude.{ℕ, ◌+◌, ◌≤◌, ◌<◌, ◌-◌, ◌*◌, ◌^◌, ◌≡◌, Bytes, List, [], ◌∷◌, Option, some, none}
use bp_std.Prelude.Eq.{Eq}

pub record Types : Type 1 where
  pub Txid : Type 0
  pub Vout : Type 0
  pub TxVer : Type 0
  pub SeqNo : Type 0
  pub LockTime : Type 0
  pub LockTimestamp : Type 0
  pub LockHeight : Type 0
  pub SigScript : Type 0
  pub Witness : Type 0
  pub ScriptPubkey : Type 0
  pub RedeemScript : Type 0
  pub WitnessScript : Type 0
  pub SighashType : Type 0
  pub LegacyPk : Type 0
  pub LegacySig : Type 0
  pub CompressedPk : Type 0
  pub XOnlyPk : Type 0
  pub InternalPk : Type 0
  pub Bip340Sig : Type 0
  pub TapNodeHash : Type 0
  pub TapLeafHash : Type 0
  pub ControlBlock : Type 0
  pub LeafScript : Type 0
  pub Xpub : Type 0
  pub XpubFp : Type 0

-- `TxVer::V2`, `LockTime::ZERO` and the like
pub record Constants (T : Types) : Type 0 where
  pub tx_ver_v2 : T.TxVer
  pub lock_time_zero : T.LockTime
  pub seq_no_from_consensus_u32 : ℕ → T.SeqNo
  pub vout_from_u32 : ℕ → T.Vout
  pub coinbase_txid : T.Txid
  pub coinbase_vout : T.Vout
  pub empty_script_pubkey : T.ScriptPubkey
  pub empty_sig_script : T.SigScript
  pub empty_witness : T.Witness

-- The comparison of the keys of index maps.
pub record Equalities (T : Types) : Type 0 where
  pub legacy_pk : Eq T.LegacyPk
  pub compressed_pk : Eq T.CompressedPk
  pub xonly_pk : Eq T.XOnlyPk
  pub internal_pk : Eq T.InternalPk
  pub control_block : Eq T.ControlBlock
  pub xpub : Eq T.Xpub
  pub tap_script_sig_key : Eq (T.InternalPk × Bytes)

-- `Sats`, a word of 64 bits: `checked_sub`, `checked_add_assign`, the sum of an iterator, and the
-- quotient by a length.
pub record Sats : Type 0 where
  pub checked_add : ℕ → ℕ → Option ℕ
  pub checked_sub : ℕ → ℕ → Option ℕ
  pub sum : List ℕ → ℕ
  pub div : ℕ → ℕ → ℕ

abbrev pub total : List ℕ → ℕ
total [] = 0
total (n ∷ ns) = n + total ns

-- What is documented of them; nothing is said of a sum that does not fit.
pub record IsSats (s : Sats) : Type 0 where
  pub add_fits : (a b : ℕ) → a + b < 2 ^ 64 → s.checked_add a b ≡ some (a + b)
  pub add_overflows : (a b : ℕ) → 2 ^ 64 ≤ a + b → s.checked_add a b ≡ none
  pub sub_fits : (a b : ℕ) → b ≤ a → s.checked_sub a b ≡ some (a - b)
  pub sub_underflows : (a b : ℕ) → a < b → s.checked_sub a b ≡ none
  pub sum_fits : (ns : List ℕ) → total ns < 2 ^ 64 → s.sum ns ≡ total ns
  pub div_rounds_down : (a b : ℕ) → 1 ≤ b → (r : ℕ) × (a ≡ b * s.div a b + r) × (r < b)
