-- ===== src/Psbt/Csval/Opret.antt =====
-- psbt/src/csval/opret.rs: outputs that may host a commitment after OP_RETURN. A method on
-- `&mut self` returns the output as it leaves it beside its result.

pub mod Commit
use bp_std.Prelude.{
  ℕ, List, Bytes, [], ◌∷◌, length, Bool, true, false, ◌&&◌, ◌||◌, ◌==◌, if◌then◌else◌, none, some,
  codes,
}
use bp_std.Prelude.Results.{Result, ok, err, ◌>>=◌, ok_or}
use bp_std.Prelude.Eq.{bytes_eq}
use bp_std.Consensus.{Types, Equalities}
use bp_std.Psbt.Errors.{PropKey}
use bp_std.Psbt.Data.Output.{Output}
use bp_std.Psbt.Data.Container.{Psbt}
use bp_std.Psbt.Keys.Output.{output_key_type}
use bp_std.Psbt.KeyMap.{proprietary, has_proprietary, push_proprietary, remove_proprietary}
use bp_std.Psbt.KeyMap.Values.{Codecs}
use bp_std.Psbt.KeyMap.OutputMap.{output_key_map}
use bp_std.Psbt.Csval.{Scripting}

-- `PropKey::opret_host`, `PropKey::opret_commitment`
abbrev pub host_key : PropKey
host_key = record { identifier = codes "OPRET"; subtype = 0; key_data = [] }

abbrev pub commitment_key : PropKey
commitment_key = record { identifier = codes "OPRET"; subtype = 1; key_data = [] }

pub data OpretKeyError : Type 0 where
  output_already_has_commitment non_op_return_output opret_prohibited : OpretKeyError
  no_commitment invalid_commitment invalid_op_return_script : OpretKeyError

module _ {T : Types} (s : Scripting T) where
  abbrev pub opret_host_bytes : Bytes → Bool
  opret_host_bytes [] = true
  opret_host_bytes (a ∷ []) = a == s.op_return_code
  opret_host_bytes (a ∷ b ∷ []) = a == s.op_return_code && b == s.op_pushbytes_0
  opret_host_bytes (a ∷ b ∷ c ∷ rest) = false

  -- `is_valid_opret_script`
  unfoldable pub is_valid_opret_script : Output T → Bool
  is_valid_opret_script o = opret_host_bytes (s.as_slice o.script)

  abbrev pub final_bytes : Bytes → Bytes → Bool
  final_bytes (a ∷ b ∷ rest) data_bytes =
      length (a ∷ b ∷ rest) == 34
      && a == s.op_return_code
      && b == s.op_pushbytes_32
      && bytes_eq rest data_bytes
  final_bytes (a ∷ []) data_bytes = false
  final_bytes [] data_bytes = false

  -- `has_final_opret_script`
  unfoldable pub has_final_opret_script : Output T → Bytes → Bool
  has_final_opret_script o data_bytes = final_bytes (s.as_slice o.script) data_bytes

  module _ (v : Codecs T) (e : Equalities T) where
    unfoldable pub is_opret_host : Output T → Bool
    unfolding is_valid_opret_script
    is_opret_host o = has_proprietary (output_key_map v e) o host_key && is_valid_opret_script o

    abbrev pub hosts_among : List (Output T) → List (Output T)
    hosts_among [] = []
    hosts_among (o ∷ os) = let rest = hosts_among os in if is_opret_host o then o ∷ rest else rest

    -- `Psbt::opret_hosts`
    unfoldable pub opret_hosts : Psbt T → List (Output T)
    opret_hosts psbt = hosts_among psbt.outputs

    unfoldable pub set_opret_host : Output T → Output T × Result OpretKeyError Bool
    unfolding is_valid_opret_script
    set_opret_host o =
        if is_valid_opret_script o
        then elim (push_proprietary (output_key_map v e) o host_key []) [
          | ok marked ↦ (marked, ok false)
          | err _ ↦ (o, ok true)
        ]
        else (o, err non_op_return_output)

    unfoldable pub has_opret_commitment : Output T → Result OpretKeyError Bool
    unfolding has_final_opret_script
    has_opret_commitment o =
        if s.is_op_return o.script
        then elim (proprietary (output_key_map v e) o commitment_key) [
          | some bytes ↦
              if has_final_opret_script o bytes then ok true else err invalid_op_return_script
          | none ↦ ok false
        ]
        else err non_op_return_output

    unfoldable pub opret_commitment : Output T → Result OpretKeyError s.Commitment
    unfolding has_opret_commitment
    opret_commitment o = do
      has ← has_opret_commitment o
      if has
          then (do
            bytes ← ok_or no_commitment (proprietary (output_key_map v e) o commitment_key)
            ok_or invalid_commitment (s.copy_from_slice bytes))
          else err non_op_return_output

    -- the script is set before the key is pushed, which may fail
    abbrev pub commit_key : Output T → Bytes → Output T × Result OpretKeyError (Unit {0})
    commit_key o bytes = elim (push_proprietary (output_key_map v e) o commitment_key bytes) [
      | ok pushed ↦ ((remove_proprietary (output_key_map v e) pushed host_key).0, ok tt)
      | err _ ↦ (o, err output_already_has_commitment)
    ]

    unfoldable pub opret_commit :
        Output T → s.Commitment → Output T × Result OpretKeyError (Unit {0})
    unfolding is_opret_host
    opret_commit o commitment =
        if is_opret_host o
        then commit_key (record o { script = s.op_return (s.to_byte_array commitment) })
            (s.to_byte_array commitment)
        else (o, err opret_prohibited)
