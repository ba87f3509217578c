-- ===== src/Psbt/Csval.antt =====
-- psbt/src/csval: commitments of client-side validation in the proprietary keys of an output.
pub mod Stored
pub mod Opret
pub mod Mpc
pub mod Tapret
pub mod Dbc
use bp_std.Prelude.{ℕ, ◌∷◌, Bytes, Bool, true, Option, some, ◌≡◌, length}
use bp_std.Consensus.{Types}

-- What is taken from bp-core and commit_verify: scripts as bytes, three opcodes, and `Commitment`,
-- an array of 32 bytes, with `copy_from_slice` and `to_byte_array`.
pub record Scripting (T : Types) : Type 1 where
  pub as_slice : T.ScriptPubkey → Bytes
  pub is_op_return : T.ScriptPubkey → Bool
  pub op_return : Bytes → T.ScriptPubkey
  pub op_return_code : ℕ
  pub op_pushbytes_0 : ℕ
  pub op_pushbytes_32 : ℕ
  pub Commitment : Type 0
  pub to_byte_array : Commitment → Bytes
  pub copy_from_slice : Bytes → Option Commitment

-- What is documented of them.
pub record IsScripting {T : Types} (s : Scripting T) : Type 0 where
  pub commitment_length : (c : s.Commitment) → length (s.to_byte_array c) ≡ 32
  pub commitment_round_trips : (c : s.Commitment) → s.copy_from_slice (s.to_byte_array c) ≡ some c
  pub op_return_bytes :
      (c : s.Commitment)
      → s.as_slice (s.op_return (s.to_byte_array c))
        ≡ s.op_return_code ∷ s.op_pushbytes_32 ∷ s.to_byte_array c
  pub is_op_return_op_return :
      (c : s.Commitment) → s.is_op_return (s.op_return (s.to_byte_array c)) ≡ true
