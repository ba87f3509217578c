-- ===== src/Psbt/Tests/Messages.antt =====
-- The theorems on psbt/src/csval/mpc.rs at concrete outputs.
use bp_std.Prelude.{
  ℕ, Bytes, [], ◌∷◌, Bool, true, false, none, some, ◌≡◌, ◌↔◌, ◌⊎◌, refl, arith, Option,
}
use Prim.Native.Nat.{compare}
use bp_std.Prelude.Results.{ok, err}
use bp_std.Prelude.IndexMap
use bp_std.Psbt.Coders.Values.{prop_key_eq}
use bp_std.Psbt.Data.Output.{Output, new}
use bp_std.Psbt.KeyMap.{proprietary, has_proprietary, push_proprietary}
use bp_std.Psbt.KeyMap.OutputMap.{output_key_map}
use bp_std.Psbt.Csval.Mpc.{
  Protocols, IsProtocols, finalized, mpc_commitment_key, message_key, mpc_message, mpc_entropy,
  mpc_min_tree_depth, set_mpc_message, set_mpc_entropy, set_mpc_min_tree_depth,
}
use bp_std.Psbt.Csval.Mpc.Commit.{Merkle, mpc_proof_key, commit_source, mpc_commit}
use bp_std.Psbt.Csval.Mpc.Accepts.{set_mpc_message-ok_iff}
use bp_std.Psbt.Csval.Mpc.Finalized.{mpc_commit-finalizes}
use bp_std.Psbt.Csval.Mpc.Messages.{set_mpc_message-mpc_message}
use bp_std.Psbt.Keys.Output.{output_key_type}
use bp_std.Psbt.Tests.Csval.{commitment_bytes, scripting}
use bp_std.Psbt.Tests.Sample.{types, constants, equalities, codecs}

abbrev get_first : Bytes → Option ℕ
get_first [] = none
get_first (b ∷ bs) = some b

-- protocols and messages that are one byte long
abbrev pub protocols : Protocols
protocols = record {
  ProtocolId = ℕ;
  id_to_vec = λ i. i ∷ [];
  Message = ℕ;
  message_to_vec = λ m. m ∷ [];
  message_from_slice = get_first;
}

protocols-IsProtocols : IsProtocols protocols
protocols-IsProtocols = record {
  id_to_vec_injective = λ i j h. ground (arith, h);
  message_round_trips = λ m. refl;
}

abbrev blank : Output types
blank = new constants 0

message_set : (set_mpc_message protocols codecs equalities blank 5 7).1 ≡ ok true
unfolding set_mpc_message has_proprietary push_proprietary IndexMap.get prop_key_eq
message_set = refl

set_mpc_message-mpc_message_example :
    let after : Output types = (set_mpc_message protocols codecs equalities blank 5 7).0 in
    (mpc_message protocols codecs equalities after 5 ≡ some 7)
    × (mpc_message protocols codecs equalities after 6
        ≡ mpc_message protocols codecs equalities blank 6)
    × (mpc_entropy protocols codecs equalities after
        ≡ mpc_entropy protocols codecs equalities blank)
    × ((true ≡ false) ↔ (
        proprietary
          (output_key_map codecs equalities)
          blank
          (message_key protocols codecs equalities 5)
        ≡ some (7 ∷ [])))
set_mpc_message-mpc_message_example =
    set_mpc_message-mpc_message protocols codecs equalities protocols-IsProtocols blank 5 6 7 true
      (λ h. omega (arith, h)) message_set

-- a tree is the entropy of its source, or 9 where there is none
abbrev tree_of : Option ℕ → ℕ
tree_of none = 9
tree_of (some n) = n

abbrev pub merkle : Merkle protocols Bool
merkle = record {
  id_from_slice = get_first;
  id_ord = record { cmp = compare };
  is_confined = λ found. true;
  Depth = ℕ;
  minimal_depth = 3;
  u5_with = λ d. some d;
  MerkleTree = ℕ;
  try_commit = λ depth found entropy. some (tree_of entropy);
  entropy = λ tree. tree;
  commit_id = λ tree. true;
  MerkleBlock = ℕ;
  merkle_block = λ tree. tree;
  to_strict_serialized = λ block. block ∷ [];
}

-- an output with a message
abbrev with_message : Output types
with_message = (set_mpc_message protocols codecs equalities blank 5 7).0

committed_once :
    (mpc_commit protocols scripting merkle codecs equalities with_message).1 ≡ ok (true, 9)
unfolding mpc_commit set_mpc_message set_mpc_entropy has_proprietary push_proprietary IndexMap.get
    IndexMap.insert prop_key_eq mpc_min_tree_depth mpc_entropy
committed_once = refl

mpc_commit-finalizes_example :
    let after : Output types =
      (mpc_commit protocols scripting merkle codecs equalities with_message).0 in
    ((tree : ℕ) × (commit_source protocols scripting merkle codecs equalities with_message
        ≡ ok tree)
      × (true ≡ true)
      × (9 ≡ tree))
    × (proprietary (output_key_map codecs equalities) after mpc_commitment_key
        ≡ some (commitment_bytes true))
    × (proprietary (output_key_map codecs equalities) after mpc_proof_key ≡ some (9 ∷ []))
    × (set_mpc_message protocols codecs equalities after 5 8 ≡ (after, err finalized))
    × (set_mpc_entropy protocols codecs equalities after 1 ≡ (after, err finalized))
    × (set_mpc_min_tree_depth protocols codecs equalities after 4 ≡ (after, err finalized))
mpc_commit-finalizes_example =
    mpc_commit-finalizes protocols scripting merkle codecs equalities with_message true 9 5 8 1 4
      committed_once

set_mpc_message-ok_iff_example :
    ((done : Bool) × ((set_mpc_message protocols codecs equalities blank 5 7).1 ≡ ok done)) ↔ (
      (has_proprietary (output_key_map codecs equalities) blank mpc_commitment_key ≡ false)
      × ((proprietary
              (output_key_map codecs equalities)
              blank
              (message_key protocols codecs equalities 5)
            ≡ none)
          ⊎ (proprietary
                (output_key_map codecs equalities)
                blank
                (message_key protocols codecs equalities 5)
              ≡ some (7 ∷ []))))
set_mpc_message-ok_iff_example = set_mpc_message-ok_iff protocols codecs equalities blank 5 7
