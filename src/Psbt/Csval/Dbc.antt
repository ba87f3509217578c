-- ===== src/Psbt/Csval/Dbc.antt =====
-- psbt/src/csval/dbc.rs: deterministic bitcoin commitments in the first output of a method.
pub mod Agrees
pub mod Whole
use bp_std.Prelude.{
  ℕ, List, [], ◌∷◌, Bool, true, false, ◌&&◌, ◌||◌, if◌then◌else◌, Option, none, some,
}
use bp_std.Prelude.Results.{Result, ok, err}
use bp_std.Consensus.{Types, Equalities}
use bp_std.Derive.TapTree.{Taproot}
use bp_std.Psbt.Data.Output.{Output}
use bp_std.Psbt.Data.Container.{Psbt, are_outputs_modifiable}
use bp_std.Psbt.KeyMap.{Fault, refused, panicked}
use bp_std.Psbt.KeyMap.Values.{Codecs}
use bp_std.Psbt.Csval.{Scripting}
use bp_std.Psbt.Csval.Opret.{OpretKeyError, is_opret_host, opret_commit}
use bp_std.Psbt.Csval.Tapret.{Tapret, TapretKeyError, is_tapret_host, tapret_commit}
use bp_std.Psbt.Csval.Mpc.{Protocols, MpcPsbtError}
use bp_std.Psbt.Csval.Mpc.Commit.{Merkle, mpc_commit}

-- `Method` of bp-core
pub data Method : Type 0 where
  opret_first tapret_first : Method

pub data DbcPsbtError : Type 0 where
  no_host_output : DbcPsbtError
  no_proper_output : Method → DbcPsbtError
  already_present tx_outputs_modifiable : DbcPsbtError
  mpc : MpcPsbtError → DbcPsbtError
  tapret : TapretKeyError → DbcPsbtError
  opret : OpretKeyError → DbcPsbtError

module _ {T : Types} (p : Protocols) (s : Scripting T) (m : Merkle p s.Commitment)
    (t : Tapret T s.Commitment) (r : Taproot T) (v : Codecs T) (e : Equalities T) where
  -- the trait `DbcPsbtProof`, for a type of proofs; a commitment changes the output that it is given
  pub record DbcPsbtProof (D : Type 0) : Type 0 where
    pub method : Method
    pub dbc_commit : Output T → Output T × Result (Fault DbcPsbtError) (m.MerkleBlock × D)

  abbrev pub from_mpc : Fault MpcPsbtError → Fault DbcPsbtError
  from_mpc (refused r) = refused (mpc r)
  from_mpc panicked = panicked

  abbrev pub proved_opret :
      m.MerkleBlock
      → Output T × Result OpretKeyError (Unit {0})
      → Output T × Result (Fault DbcPsbtError) (m.MerkleBlock × Unit {0})
  proved_opret block (o, ok _) = (o, ok (block, tt))
  proved_opret block (o, err e') = (o, err (refused (opret e')))

  abbrev pub proved_tapret :
      m.MerkleBlock
      → Output T × Result TapretKeyError t.TapretProof
      → Output T × Result (Fault DbcPsbtError) (m.MerkleBlock × t.TapretProof)
  proved_tapret block (o, ok proof) = (o, ok (block, proof))
  proved_tapret block (o, err e') = (o, err (refused (tapret e')))

  -- `?` and the rest of `dbc_commit`, on what `mpc_commit` leaves
  abbrev pub opret_after_mpc :
      Output T × Result (Fault MpcPsbtError) (s.Commitment × m.MerkleBlock)
      → Output T × Result (Fault DbcPsbtError) (m.MerkleBlock × Unit {0})
  opret_after_mpc (o, err f) = (o, err (from_mpc f))
  opret_after_mpc (o, ok (commitment, block)) =
      if is_opret_host s v e o
      then proved_opret block (opret_commit s v e o commitment)
      else (o, err (refused no_host_output))

  -- `DbcPsbtProof for OpretProof`, a type with one value: the multi-protocol commitment is made
  -- before the output is asked whether it is a host
  unfoldable pub opret_dbc_commit :
      Output T → Output T × Result (Fault DbcPsbtError) (m.MerkleBlock × Unit {0})
  opret_dbc_commit o = opret_after_mpc (mpc_commit p s m v e o)

  -- `?` and the rest of `dbc_commit`, on what `mpc_commit` leaves
  abbrev pub tapret_after_mpc :
      Output T × Result (Fault MpcPsbtError) (s.Commitment × m.MerkleBlock)
      → Output T × Result (Fault DbcPsbtError) (m.MerkleBlock × t.TapretProof)
  tapret_after_mpc (o, err f) = (o, err (from_mpc f))
  tapret_after_mpc (o, ok (commitment, block)) =
      if is_tapret_host t r v e o
      then proved_tapret block (tapret_commit t r v e o commitment)
      else (o, err (refused no_host_output))

  -- `DbcPsbtProof for TapretProof`
  unfoldable pub tapret_dbc_commit :
      Output T → Output T × Result (Fault DbcPsbtError) (m.MerkleBlock × t.TapretProof)
  tapret_dbc_commit o = tapret_after_mpc (mpc_commit p s m v e o)

  abbrev pub opret_proof : DbcPsbtProof (Unit {0})
  opret_proof = record { method = opret_first; dbc_commit = opret_dbc_commit }

  abbrev pub tapret_proof : DbcPsbtProof t.TapretProof
  tapret_proof = record { method = tapret_first; dbc_commit = tapret_dbc_commit }

  -- whether an output has the script of the method
  abbrev pub is_proper : Method → Output T → Bool
  is_proper tapret_first o = t.is_p2tr o.script
  is_proper opret_first o = s.is_op_return o.script

  module _ {D : Type 0} (proof : DbcPsbtProof D) where
    abbrev pub find_proper : List (Output T) → Option (Output T)
    find_proper [] = none
    find_proper (o ∷ os) =
        let rest = find_proper os in if is_proper proof.method o then some o else rest

    -- `dbc_output`
    unfoldable pub dbc_output : Psbt T → Option (Output T)
    dbc_output psbt = find_proper psbt.outputs

    -- the first proper output, changed in its place, and the result
    unfoldable pub commit_first :
        List (Output T) → List (Output T) × Result (Fault DbcPsbtError) (m.MerkleBlock × D)
    commit_first [] = ([], err (refused (no_proper_output proof.method)))
    commit_first (o ∷ os) =
        let (rest, later) = commit_first os in
        let (o', made) = proof.dbc_commit o in
        if is_proper proof.method o then (o' ∷ os, made) else (o ∷ rest, later)

    -- `Psbt::dbc_commit`, with `dbc_output_mut`
    unfoldable pub dbc_commit : Psbt T → Psbt T × Result (Fault DbcPsbtError) (m.MerkleBlock × D)
    unfolding commit_first
    dbc_commit psbt =
        if are_outputs_modifiable psbt
        then (psbt, err (refused tx_outputs_modifiable))
        else let (outputs, made) = commit_first psbt.outputs in
          (record psbt { outputs = outputs }, made)
