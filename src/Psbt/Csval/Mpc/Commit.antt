-- ===== src/Psbt/Csval/Mpc/Commit.antt =====
-- `Output::mpc_message_map` and `Output::mpc_commit` of psbt/src/csval/mpc.rs. A serialized proof
-- is taken to fit, where the source calls `expect`. A call of `MerkleTree::try_commit` is one run of
-- it: where no entropy is given the library may draw it, and `try_commit` is a function that
-- stands for the draw that was made, whichever it was.
use bp_std.Prelude.{
  ℕ, Bytes, [], ◌∷◌, Bool, ◌&&◌, ◌==◌, if◌then◌else◌, List, Option, none, some, codes,
}
use bp_std.Prelude.Results.{Result, ok, err, ◌>>=◌, ok_or}
use bp_std.Prelude.Eq.{bytes_eq}
use bp_std.Prelude.BTreeMap
use bp_std.Prelude.BTreeMap.{BTreeMap, Ord}
use bp_std.Consensus.{Types, Equalities}
use bp_std.Psbt.Errors.{PropKey}
use bp_std.Psbt.Data.Output.{Output}
use bp_std.Psbt.Keys.Output.{output_key_type}
use bp_std.Psbt.KeyMap.{Fault, refused, panicked, returned, push_proprietary}
use bp_std.Psbt.KeyMap.Values.{Codecs}
use bp_std.Psbt.KeyMap.OutputMap.{output_key_map}
use bp_std.Psbt.Csval.{Scripting}
use bp_std.Psbt.Csval.Mpc.{
  Protocols, MpcPsbtError, invalid_key_value, message_map_too_large, output_already_has_commitment,
  mpc, mpc_key, mpc_commitment_key, mpc_entropy, mpc_min_tree_depth, set_mpc_entropy,
}

-- `mpc::MerkleTree` of commit_verify with its sources and proofs, and `u5::with`, which panics on
-- what it gives no value
pub record Merkle (p : Protocols) (Commitment : Type 0) : Type 1 where
  pub id_from_slice : Bytes → Option p.ProtocolId
  pub id_ord : Ord p.ProtocolId
  pub is_confined : BTreeMap p.ProtocolId p.Message → Bool
  pub Depth : Type 0
  pub minimal_depth : Depth
  pub u5_with : ℕ → Option Depth
  pub MerkleTree : Type 0
  pub try_commit : Depth → BTreeMap p.ProtocolId p.Message → Option ℕ → Option MerkleTree
  pub entropy : MerkleTree → ℕ
  pub commit_id : MerkleTree → Commitment
  pub MerkleBlock : Type 0
  pub merkle_block : MerkleTree → MerkleBlock
  pub to_strict_serialized : MerkleBlock → Bytes

-- `PropKey::mpc_proof`
abbrev pub mpc_proof_key : PropKey
mpc_proof_key = mpc_key 17 []

-- the entries of messages among the proprietary keys
abbrev pub is_message : PropKey → Bool
is_message key = bytes_eq key.identifier (codes "MPC") && key.subtype == 0

module _ {T : Types} (p : Protocols) (s : Scripting T) (t : Merkle p s.Commitment) (v : Codecs T)
    (e : Equalities T) where
  abbrev pub read_entry : PropKey → Bytes → Result MpcPsbtError (p.ProtocolId × p.Message)
  read_entry key val = do
    protocol_id ← ok_or invalid_key_value (t.id_from_slice key.key_data)
    message ← ok_or invalid_key_value (p.message_from_slice val)
    ok (protocol_id, message)

  abbrev pub messages_of : List (PropKey × Bytes) → List (PropKey × Bytes)
  messages_of [] = []
  messages_of ((key, val) ∷ rest) =
      let others = messages_of rest in if is_message key then (key, val) ∷ others else others

  -- `collect` into a map: the first error ends the reading
  abbrev pub collect :
      BTreeMap p.ProtocolId p.Message
      → List (PropKey × Bytes)
      → Result MpcPsbtError (BTreeMap p.ProtocolId p.Message)
  collect found [] = ok found
  collect found ((key, val) ∷ rest) = elim (read_entry key val) [
    | ok (protocol_id, message) ↦
        collect (BTreeMap.insert ⦃o = t.id_ord⦄ protocol_id message found) rest
    | err r ↦ err r
  ]

  unfoldable pub mpc_message_map : Output T → Result MpcPsbtError (BTreeMap p.ProtocolId p.Message)
  mpc_message_map o = do
    found ← collect [] (messages_of o.proprietary)
    if t.is_confined found then ok found else err message_map_too_large

  -- the depth that is there or the least one
  abbrev pub min_depth : Option ℕ → Result (Fault MpcPsbtError) t.Depth
  min_depth none = ok t.minimal_depth
  min_depth (some d) = ok_or panicked (t.u5_with d)

  unfoldable pub commit_source : Output T → Result (Fault MpcPsbtError) t.MerkleTree
  unfolding mpc_message_map
  commit_source o = do
    messages ← returned (mpc_message_map o)
    depth ← min_depth (mpc_min_tree_depth p v e o)
    ok_or (refused mpc) (t.try_commit depth messages (mpc_entropy p v e o))

  -- the commitment is pushed before the proof
  abbrev pub push_commitment :
      Output T
      → t.MerkleTree
      → Output T × Result (Fault MpcPsbtError) (s.Commitment × t.MerkleBlock)
  push_commitment o tree =
      let commitment = t.commit_id tree in
      let proof = t.merkle_block tree in
      elim (push_proprietary (output_key_map v e) o mpc_commitment_key
        (s.to_byte_array commitment)) [
          | err _ ↦ (o, err (refused output_already_has_commitment))
          | ok o1 ↦
              elim (push_proprietary (output_key_map v e) o1 mpc_proof_key
                (t.to_strict_serialized proof)) [
                  | err _ ↦ (o1, err (refused output_already_has_commitment))
                  | ok o2 ↦ (o2, ok (commitment, proof))
                ]
        ]

  abbrev pub commit_tree :
      Output T
      → t.MerkleTree
      → Output T × Result (Fault MpcPsbtError) (s.Commitment × t.MerkleBlock)
  commit_tree o tree =
      let with_entropy = set_mpc_entropy p v e o (t.entropy tree) in
      elim with_entropy.1 [
        | err r ↦ (with_entropy.0, err (refused r))
        | ok _ ↦ push_commitment with_entropy.0 tree
      ]

  unfoldable pub mpc_commit :
      Output T → Output T × Result (Fault MpcPsbtError) (s.Commitment × t.MerkleBlock)
  unfolding commit_source
  mpc_commit o = elim (commit_source o) [ err r ↦ (o, err r) | ok tree ↦ commit_tree o tree ]
