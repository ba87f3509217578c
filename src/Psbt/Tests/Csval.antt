-- ===== src/Psbt/Tests/Csval.antt =====
-- The theorem on psbt/src/csval/opret.rs at concrete outputs.
use bp_std.Prelude.{
  ℕ, zero, suc, Bytes, [], ◌∷◌, Bool, true, false, length, ◌==◌, not, if◌then◌else◌, some, ◌≡◌,
  refl, ap,
}
use bp_std.Prelude.Results.{ok, err}
use bp_std.Prelude.IndexMap
use bp_std.Psbt.Coders.Values.{prop_key_eq}
use bp_std.Psbt.Data.Output.{Output, new}
use bp_std.Psbt.KeyMap.{has_proprietary}
use bp_std.Psbt.KeyMap.OutputMap.{output_key_map}
use bp_std.Psbt.Csval.{Scripting, IsScripting}
use bp_std.Psbt.Csval.Opret.{
  host_key, commitment_key, opret_prohibited, is_opret_host, opret_commitment, opret_commit,
}
use bp_std.Psbt.Csval.Opret.Commit.{opret_commit-once}
use bp_std.Psbt.Keys.Output.{output_key_type}
use bp_std.Psbt.Tests.Sample.{types, constants, equalities, codecs}

-- two commitments, and the scripts that hold them
abbrev repeat : ℕ → ℕ → Bytes
repeat zero b = []
repeat (suc n) b = b ∷ repeat n b

abbrev pub commitment_bytes : Bool → Bytes
commitment_bytes false = repeat 32 0
commitment_bytes true = repeat 32 1

abbrev pub first_is_one : Bytes → Bool
first_is_one [] = false
first_is_one (b ∷ bs) = b == 1

abbrev script_bytes : ℕ → Bytes
script_bytes n =
    if n == 0
    then []
    else if n == 3
    then 106 ∷ []
    else if n == 1
    then 106 ∷ 32 ∷ commitment_bytes true
    else 106 ∷ 32 ∷ commitment_bytes false

abbrev pub scripting : Scripting types
scripting = record {
  as_slice = script_bytes;
  is_op_return = λ n. not (n == 0);
  op_return = λ bytes. if first_is_one bytes then 1 else 2;
  op_return_code = 106;
  op_pushbytes_0 = 0;
  op_pushbytes_32 = 32;
  Commitment = Bool;
  to_byte_array = commitment_bytes;
  copy_from_slice = λ bytes. some (first_is_one bytes);
}

length-commitment_bytes : (c : Bool) → length (commitment_bytes c) ≡ 32
length-commitment_bytes true = refl
length-commitment_bytes false = refl

script_bytes-op_return :
    (c : Bool)
    → script_bytes (scripting.op_return (commitment_bytes c)) ≡ 106 ∷ 32 ∷ commitment_bytes c
script_bytes-op_return true = refl
script_bytes-op_return false = refl

first_is_one-commitment_bytes : (c : Bool) → first_is_one (commitment_bytes c) ≡ c
first_is_one-commitment_bytes true = refl
first_is_one-commitment_bytes false = refl

is_op_return-op_return :
    (c : Bool) → scripting.is_op_return (scripting.op_return (commitment_bytes c)) ≡ true
is_op_return-op_return true = refl
is_op_return-op_return false = refl

pub scripting-IsScripting : IsScripting scripting
scripting-IsScripting = record {
  commitment_length = length-commitment_bytes;
  commitment_round_trips = λ c. ap some (first_is_one-commitment_bytes c);
  op_return_bytes = script_bytes-op_return;
  is_op_return_op_return = is_op_return-op_return;
}

abbrev host : Output types
host = record (new constants 0) { proprietary = (host_key, []) ∷ [] }

host_hosts : is_opret_host scripting codecs equalities host ≡ true
unfolding is_opret_host has_proprietary IndexMap.get prop_key_eq
host_hosts = refl

host_free : has_proprietary (output_key_map codecs equalities) host commitment_key ≡ false
unfolding has_proprietary IndexMap.get prop_key_eq
host_free = refl

opret_commit-once_example :
    let after : Output types = (opret_commit scripting codecs equalities host true).0 in
    ((opret_commit scripting codecs equalities host true).1 ≡ ok tt)
    × (opret_commitment scripting codecs equalities after ≡ ok true)
    × (is_opret_host scripting codecs equalities after ≡ false)
    × (opret_commit scripting codecs equalities after false ≡ (after, err opret_prohibited))
opret_commit-once_example =
    opret_commit-once scripting scripting-IsScripting codecs equalities host true false host_hosts
      host_free
