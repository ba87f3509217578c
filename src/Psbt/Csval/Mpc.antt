-- ===== src/Psbt/Csval/Mpc.antt =====
-- psbt/src/csval/mpc.rs: the messages of a multi-protocol commitment in an output, until it is
-- finalized. A method on `&mut self` returns the output as it leaves it beside its result.
pub mod Messages
pub mod Commit
pub mod Finalized
pub mod Accepts
use bp_std.Prelude.{
  ℕ, Bytes, [], ◌∷◌, length, Bool, true, false, ◌==◌, if◌then◌else◌, Option, none, some, codes, ◌≡◌,
}
use bp_std.Prelude.Results.{Result, ok, err}
use bp_std.Prelude.Eq.{bytes_eq}
use bp_std.Prelude.Little.{to_le_bytes, from_le_bytes}
use bp_std.Consensus.{Types, Equalities}
use bp_std.Psbt.Errors.{PropKey}
use bp_std.Psbt.Data.Output.{Output}
use bp_std.Psbt.Keys.Output.{output_key_type}
use bp_std.Psbt.KeyMap.{proprietary, has_proprietary, push_proprietary}
use bp_std.Psbt.KeyMap.Values.{Codecs}
use bp_std.Psbt.KeyMap.OutputMap.{output_key_map}

-- `ProtocolId` and `Message` of commit_verify, arrays of 32 bytes
pub record Protocols : Type 1 where
  pub ProtocolId : Type 0
  pub id_to_vec : ProtocolId → Bytes
  pub Message : Type 0
  pub message_to_vec : Message → Bytes
  pub message_from_slice : Bytes → Option Message

-- What is documented of them.
pub record IsProtocols (p : Protocols) : Type 0 where
  pub id_to_vec_injective : (i j : p.ProtocolId) → p.id_to_vec i ≡ p.id_to_vec j → i ≡ j
  pub message_round_trips : (m : p.Message) → p.message_from_slice (p.message_to_vec m) ≡ some m

-- `PropKey::mpc_message`, `mpc_entropy`, `mpc_min_tree_depth`, `mpc_commitment`
abbrev pub mpc_key : ℕ → Bytes → PropKey
mpc_key subtype key_data = record {
  identifier = codes "MPC";
  subtype = subtype;
  key_data = key_data;
}

abbrev pub entropy_key : PropKey
entropy_key = mpc_key 1 []

abbrev pub min_tree_depth_key : PropKey
min_tree_depth_key = mpc_key 4 []

abbrev pub mpc_commitment_key : PropKey
mpc_commitment_key = mpc_key 16 []

pub data MpcPsbtError : Type 0 where
  invalid_key_value message_map_too_large key_already_present : MpcPsbtError
  output_already_has_commitment mpc finalized : MpcPsbtError

-- `data.len() != 8`, `data.len() != 1`
abbrev pub read_entropy : Option Bytes → Option ℕ
read_entropy none = none
read_entropy (some bytes) = if length bytes == 8 then some (from_le_bytes bytes) else none

abbrev pub read_depth : Option Bytes → Option ℕ
read_depth none = none
read_depth (some []) = none
read_depth (some (b ∷ [])) = some b
read_depth (some (b ∷ c ∷ rest)) = none

module _ {T : Types} (p : Protocols) (v : Codecs T) (e : Equalities T) where
  abbrev pub message_key : p.ProtocolId → PropKey
  message_key protocol_id = mpc_key 0 (p.id_to_vec protocol_id)

  abbrev pub read_message : Option Bytes → Option p.Message
  read_message none = none
  read_message (some bytes) = p.message_from_slice bytes

  unfoldable pub mpc_message : Output T → p.ProtocolId → Option p.Message
  mpc_message o protocol_id =
      read_message (proprietary (output_key_map v e) o (message_key protocol_id))

  unfoldable pub mpc_entropy : Output T → Option ℕ
  mpc_entropy o = read_entropy (proprietary (output_key_map v e) o entropy_key)

  unfoldable pub mpc_min_tree_depth : Output T → Option ℕ
  mpc_min_tree_depth o = read_depth (proprietary (output_key_map v e) o min_tree_depth_key)

  -- `self.push_proprietary(key, val)?; Ok(done)`
  abbrev pub push_value :
      {A : Type 0} → Output T → PropKey → Bytes → A → Output T × Result MpcPsbtError A
  push_value o key val done = elim (push_proprietary (output_key_map v e) o key val) [
    | ok pushed ↦ (pushed, ok done)
    | err _ ↦ (o, err key_already_present)
  ]

  -- what `set_mpc_message` and `set_mpc_entropy` do with their key and value
  unfoldable pub set_value : Output T → PropKey → Bytes → Output T × Result MpcPsbtError Bool
  set_value o key val =
      if has_proprietary (output_key_map v e) o mpc_commitment_key
      then (o, err finalized)
      else elim (proprietary (output_key_map v e) o key) [
        | some present ↦ if bytes_eq present val then (o, ok false) else (o, err invalid_key_value)
        | none ↦ push_value o key val true
      ]

  unfoldable pub set_mpc_message :
      Output T → p.ProtocolId → p.Message → Output T × Result MpcPsbtError Bool
  unfolding set_value
  set_mpc_message o protocol_id message =
      set_value o (message_key protocol_id) (p.message_to_vec message)

  unfoldable pub set_mpc_entropy : Output T → ℕ → Output T × Result MpcPsbtError Bool
  unfolding set_value
  set_mpc_entropy o entropy = set_value o entropy_key (to_le_bytes 8 entropy)

  unfoldable pub set_mpc_min_tree_depth : Output T → ℕ → Output T × Result MpcPsbtError (Option ℕ)
  unfolding mpc_min_tree_depth
  set_mpc_min_tree_depth o min_depth =
      if has_proprietary (output_key_map v e) o mpc_commitment_key
      then (o, err finalized)
      else push_value o min_tree_depth_key (min_depth ∷ []) (mpc_min_tree_depth o)
