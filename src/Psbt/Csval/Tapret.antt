-- ===== src/Psbt/Csval/Tapret.antt =====
-- psbt/src/csval/tapret.rs: outputs whose taproot tree may host a commitment. A method on
-- `&mut self` returns the output as it leaves it beside its result.
pub mod Commit
use bp_std.Prelude.{
  ℕ, List, Bytes, [], ◌∷◌, length, Bool, true, false, ◌&&◌, leb, if◌then◌else◌, Option, none, some,
  is_some, codes, ◌≡◌,
}
use bp_std.Prelude.Results.{Result, ok, err, ◌>>=◌, ok_or}
use bp_std.Consensus.{Types, Equalities}
use bp_std.Derive.TapTree.{TapTree, Taproot, with_single_leaf, merkle_root}
use bp_std.Psbt.Errors.{PropKey}
use bp_std.Psbt.Data.Output.{Output}
use bp_std.Psbt.Data.Container.{Psbt}
use bp_std.Psbt.Keys.Output.{output_key_type}
use bp_std.Psbt.KeyMap.{proprietary, has_proprietary, push_proprietary}
use bp_std.Psbt.KeyMap.Values.{Codecs}
use bp_std.Psbt.KeyMap.OutputMap.{output_key_map}

-- What is taken from bp-core: taproot scripts, `TapretCommitment` with the leaf script that commits
-- to it, `TapretProof` of a root, and their strict serialization.
pub record Tapret (T : Types) (Commitment : Type 0) : Type 1 where
  pub is_p2tr : T.ScriptPubkey → Bool
  pub p2tr : T.InternalPk → Option T.TapNodeHash → T.ScriptPubkey
  pub TapretCommitment : Type 0
  pub commitment_with : Commitment → ℕ → TapretCommitment
  pub leaf_script : TapretCommitment → T.LeafScript
  pub TapretProof : Type 0
  pub root_proof : ℕ → T.InternalPk → TapretProof
  pub write_commitment : TapretCommitment → Bytes
  pub read_commitment : Bytes → Option TapretCommitment
  pub write_proof : TapretProof → Bytes
  pub read_proof : Bytes → Option TapretProof

-- What is documented of them; strict values of these types have at most 2^16 - 1 bytes.
pub record IsTapret {T : Types} {C : Type 0} (t : Tapret T C) : Type 0 where
  pub p2tr_is_p2tr :
      (pk : T.InternalPk) (root : Option T.TapNodeHash) → t.is_p2tr (t.p2tr pk root) ≡ true
  pub commitment_short :
      (c : t.TapretCommitment) → leb (length (t.write_commitment c)) 0xFFFF ≡ true
  pub commitment_back : (c : t.TapretCommitment) → t.read_commitment (t.write_commitment c) ≡ some c
  pub proof_short : (p : t.TapretProof) → leb (length (t.write_proof p)) 0xFFFF ≡ true
  pub proof_back : (p : t.TapretProof) → t.read_proof (t.write_proof p) ≡ some p

-- `PropKey::tapret_host`, `PropKey::tapret_commitment`, `PropKey::tapret_proof`
abbrev pub tapret_host_key : PropKey
tapret_host_key = record { identifier = codes "TAPRET"; subtype = 0; key_data = [] }

abbrev pub tapret_commitment_key : PropKey
tapret_commitment_key = record { identifier = codes "TAPRET"; subtype = 1; key_data = [] }

abbrev pub tapret_proof_key : PropKey
tapret_proof_key = record { identifier = codes "TAPRET"; subtype = 2; key_data = [] }

pub data TapretKeyError : Type 0 where
  output_already_has_commitment tapret_prohibited not_taproot_output : TapretKeyError
  no_commitment invalid_commitment tap_tree_non_empty no_internal_key : TapretKeyError

module _ {T : Types} {C : Type 0} (t : Tapret T C) (r : Taproot T) (v : Codecs T)
    (e : Equalities T) where
  unfoldable pub is_tapret_host : Output T → Bool
  is_tapret_host o = has_proprietary (output_key_map v e) o tapret_host_key && t.is_p2tr o.script

  abbrev pub hosts_among : List (Output T) → List (Output T)
  hosts_among [] = []
  hosts_among (o ∷ os) = let rest = hosts_among os in if is_tapret_host o then o ∷ rest else rest

  -- `Psbt::tapret_hosts`
  unfoldable pub tapret_hosts : Psbt T → List (Output T)
  tapret_hosts psbt = hosts_among psbt.outputs

  unfoldable pub set_tapret_host : Output T → Output T × Result TapretKeyError Bool
  set_tapret_host o =
      if t.is_p2tr o.script
      then elim (push_proprietary (output_key_map v e) o tapret_host_key []) [
        | ok marked ↦ (marked, ok false)
        | err _ ↦ (o, ok true)
      ]
      else (o, err not_taproot_output)

  unfoldable pub has_tapret_commitment : Output T → Result TapretKeyError Bool
  has_tapret_commitment o =
      if t.is_p2tr o.script
      then ok (has_proprietary (output_key_map v e) o tapret_commitment_key)
      else err not_taproot_output

  -- `Confined::try_from` of at most 2^16 - 1 bytes
  abbrev pub confined : Bytes → Option Bytes
  confined bytes = if leb (length bytes) 0xFFFF then some bytes else none

  abbrev pub stored_commitment : Option Bytes → Result TapretKeyError t.TapretCommitment
  stored_commitment found = do
    bytes ← ok_or no_commitment found
    short ← ok_or invalid_commitment (confined bytes)
    ok_or invalid_commitment (t.read_commitment short)

  unfoldable pub tapret_commitment : Output T → Result TapretKeyError t.TapretCommitment
  tapret_commitment o =
      if t.is_p2tr o.script
      then stored_commitment (proprietary (output_key_map v e) o tapret_commitment_key)
      else err not_taproot_output

  -- the commitment is pushed before the proof, and both before the script changes; a single leaf
  -- has a Merkle root
  abbrev pub commit_keys :
      Output T → T.InternalPk → t.TapretCommitment → Output T × Result TapretKeyError t.TapretProof
  commit_keys o internal_pk commitment =
      let tap_tree = with_single_leaf {T = T} (t.leaf_script commitment) in
      let proof = t.root_proof 0 internal_pk in
      elim (push_proprietary (output_key_map v e) o tapret_commitment_key
        (t.write_commitment commitment)) [
          | err _ ↦ (o, err output_already_has_commitment)
          | ok o1 ↦
              elim (push_proprietary (output_key_map v e) o1 tapret_proof_key
                (t.write_proof proof)) [
                  | err _ ↦ (o1, err output_already_has_commitment)
                  | ok o2 ↦ (
                    record o2 {
                      script = t.p2tr internal_pk (merkle_root r tap_tree);
                      tap_tree = some tap_tree;
                    },
                    ok proof,
                  )
                ]
        ]

  unfoldable pub tapret_commit : Output T → C → Output T × Result TapretKeyError t.TapretProof
  unfolding is_tapret_host merkle_root with_single_leaf
  tapret_commit o commitment =
      if t.is_p2tr o.script
      then (if is_tapret_host o
          then (if is_some o.tap_tree
              then (o, err tap_tree_non_empty)
              else elim o.tap_internal_key [
                | none ↦ (o, err no_internal_key)
                | some internal_pk ↦ commit_keys o internal_pk (t.commitment_with commitment 0)
              ])
          else (o, err tapret_prohibited))
      else (o, err not_taproot_output)

  abbrev pub read_proof_bytes : Option Bytes → Option t.TapretProof
  read_proof_bytes none = none
  read_proof_bytes (some bytes) = elim (confined bytes) [
    | none ↦ none
    | some short ↦ t.read_proof short
  ]

  unfoldable pub tapret_proof : Output T → Option t.TapretProof
  tapret_proof o = read_proof_bytes (proprietary (output_key_map v e) o tapret_proof_key)

  unfoldable pub has_tapret_proof : Output T → Bool
  unfolding tapret_proof
  has_tapret_proof o = is_some (tapret_proof o)
