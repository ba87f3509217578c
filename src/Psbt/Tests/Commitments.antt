-- ===== src/Psbt/Tests/Commitments.antt =====
-- The theorems on psbt/src/csval/tapret.rs and psbt/src/csval/dbc.rs at concrete outputs.
use bp_std.Prelude.{
  ℕ, ◌+◌, List, Bytes, [], ◌∷◌, ◌++◌, Bool, true, false, if◌then◌else◌, Option, none, some, ◌≡◌,
  refl,
}
use bp_std.Prelude.Results.{ok, err}
use bp_std.Prelude.IndexMap
use bp_std.Derive.TapTree.{TapTree, Taproot, with_single_leaf, merkle_root}
use bp_std.Psbt.Coders.Values.{prop_key_eq}
use bp_std.Psbt.Data.Output.{Output, new}
use bp_std.Psbt.Ver.{v2}
use bp_std.Psbt.Data.Container.{create, Psbt, are_outputs_modifiable}
use bp_std.Psbt.KeyMap.{proprietary, has_proprietary, push_proprietary, remove_proprietary}
use bp_std.Psbt.KeyMap.OutputMap.{output_key_map}
use bp_std.Psbt.Keys.Output.{output_key_type}
use bp_std.Psbt.Csval.Opret.{host_key, is_opret_host, opret_commit}
use bp_std.Psbt.Csval.Tapret.{
  Tapret, IsTapret, tapret_host_key, tapret_commitment_key, tapret_proof_key, tap_tree_non_empty,
  is_tapret_host, tapret_commitment, tapret_commit, tapret_proof,
}
use bp_std.Psbt.Csval.Mpc.{message_key, mpc_entropy, mpc_min_tree_depth, set_mpc_entropy}
use bp_std.Psbt.Csval.Mpc.Commit.{mpc_commit}
use bp_std.Psbt.Csval.Dbc.{find_proper, commit_first, dbc_commit, opret_dbc_commit, opret_proof}
use bp_std.Psbt.Csval.Dbc.Agrees.{Agrees}
use bp_std.Psbt.Csval.Dbc.Whole.{dbc_commit-Agrees}
use bp_std.Psbt.Csval.Tapret.Commit.{tapret_commit-once}
use bp_std.Psbt.Tests.Csval.{scripting, scripting-IsScripting}
use bp_std.Psbt.Tests.Messages.{protocols, merkle}
use bp_std.Psbt.Tests.Sample.{types, constants, equalities, codecs}

abbrev first_byte : Bytes → Option ℕ
first_byte [] = none
first_byte (b ∷ bytes) = some b

-- a root is one more than the key or the hash, and a script the sum of a key and a root
abbrev root_value : Option ℕ → ℕ
root_value none = 0
root_value (some root) = root

abbrev taproot : Taproot types
taproot = record {
  leaf_hash = λ leaf. leaf + 1;
  OutputPk = ℕ;
  Parity = Bool;
  TapMerklePath = Bytes;
  to_output_pk = λ pk root. (pk + root_value root, true);
  empty_path = [];
  control_block = λ leaf pk parity path. leaf + pk;
}

abbrev tapret : Tapret types Bool
tapret = record {
  is_p2tr = λ script. true;
  p2tr = λ pk root. pk + root_value root;
  TapretCommitment = ℕ;
  commitment_with = λ c nonce. if c then nonce + 1 else nonce;
  leaf_script = λ c. c + 100;
  TapretProof = ℕ;
  root_proof = λ nonce pk. pk;
  write_commitment = λ c. c ∷ [];
  read_commitment = first_byte;
  write_proof = λ proof. proof ∷ [];
  read_proof = first_byte;
}

tapret-IsTapret : IsTapret tapret
tapret-IsTapret = record {
  p2tr_is_p2tr = λ pk root. refl;
  commitment_short = λ c. refl;
  commitment_back = λ c. refl;
  proof_short = λ proof. refl;
  proof_back = λ proof. refl;
}

abbrev tapret_host : Output types
tapret_host = record (new constants 0) {
  tap_internal_key = some 40;
  proprietary = (tapret_host_key, []) ∷ [];
}

tapret_host_hosts : is_tapret_host tapret taproot codecs equalities tapret_host ≡ true
unfolding is_tapret_host has_proprietary IndexMap.get prop_key_eq
tapret_host_hosts = refl

no_commitment_yet :
    proprietary (output_key_map codecs equalities) tapret_host tapret_commitment_key ≡ none
unfolding proprietary IndexMap.get prop_key_eq
no_commitment_yet = refl

no_proof_yet : proprietary (output_key_map codecs equalities) tapret_host tapret_proof_key ≡ none
unfolding proprietary IndexMap.get prop_key_eq
no_proof_yet = refl

tapret_commit-once_example :
    let after : Output types =
      (tapret_commit tapret taproot codecs equalities tapret_host true).0 in
    let tree : TapTree types = with_single_leaf 101 in
    ((tapret_commit tapret taproot codecs equalities tapret_host true).1 ≡ ok 40)
    × (tapret_commitment tapret taproot codecs equalities after ≡ ok 1)
    × (tapret_proof tapret taproot codecs equalities after ≡ some 40)
    × (after.tap_tree ≡ some tree)
    × (after.script ≡ 40 + root_value (merkle_root taproot tree))
    × (tapret_commit tapret taproot codecs equalities after false ≡ (after, err tap_tree_non_empty))
tapret_commit-once_example =
    tapret_commit-once tapret taproot codecs equalities tapret-IsTapret tapret_host 40 true false
      tapret_host_hosts refl refl no_commitment_yet no_proof_yet

-- a PSBT whose second output holds a message and hosts a commitment after OP_RETURN
abbrev opret_output : Output types
opret_output = record (new constants 1) {
  script = 3;
  proprietary = (host_key, []) ∷ (message_key protocols codecs equalities 5, 7 ∷ []) ∷ [];
}

abbrev committing : Psbt types
committing = record (create constants v2) {
  outputs = new constants 0 ∷ opret_output ∷ [];
  tx_modifiable = none;
}

opret_committed :
    (dbc_commit protocols scripting merkle tapret taproot codecs equalities
      (opret_proof protocols scripting merkle tapret taproot codecs equalities)
      committing).1
    ≡ ok (9, tt)
unfolding dbc_commit commit_first opret_dbc_commit mpc_commit set_mpc_entropy has_proprietary
    push_proprietary remove_proprietary IndexMap.get IndexMap.insert prop_key_eq mpc_min_tree_depth
    mpc_entropy is_opret_host opret_commit are_outputs_modifiable
opret_committed = refl

dbc_commit-Agrees_example :
    (are_outputs_modifiable committing ≡ false)
    × (before : List (Output types)) × (o : Output types) × (rest : List (Output types))
    × (after : Output types) × (c : Bool) × (committing.outputs ≡ before ++ o ∷ rest)
    × (find_proper protocols scripting merkle tapret taproot codecs equalities
          (opret_proof protocols scripting merkle tapret taproot codecs equalities)
          before
        ≡ none)
    × (scripting.is_op_return o.script ≡ true)
    × ((dbc_commit protocols scripting merkle tapret taproot codecs equalities
          (opret_proof protocols scripting merkle tapret taproot codecs equalities)
          committing).0
        ≡ record committing { outputs = before ++ after ∷ rest })
    × Agrees protocols scripting merkle codecs equalities after c
dbc_commit-Agrees_example =
    dbc_commit-Agrees protocols scripting merkle tapret taproot codecs equalities
      scripting-IsScripting committing 9 opret_committed
