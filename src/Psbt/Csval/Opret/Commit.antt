-- ===== src/Psbt/Csval/Opret/Commit.antt =====
-- The life of an opret host in psbt/src/csval/opret.rs.
use bp_std.Prelude.{true, false, some, ◌≡◌, refl, arith}
use bp_std.Prelude.Results.{ok, err}
use bp_std.Prelude.Eq.{bytes_eq_iff}
use bp_std.Prelude.IndexMap
use bp_std.Consensus.{Types, Equalities}
use bp_std.Psbt.Coders.Values.{prop_key_eq, prop_key_instance}
use bp_std.Psbt.Data.Output.{Output}
use bp_std.Psbt.Keys.Output.{output_key_type}
use bp_std.Psbt.KeyMap.{proprietary, has_proprietary, push_proprietary, remove_proprietary}
use bp_std.Psbt.KeyMap.Values.{Codecs}
use bp_std.Psbt.KeyMap.OutputMap.{output_key_map}
use bp_std.Psbt.Csval.{Scripting, IsScripting}
use bp_std.Psbt.Csval.Opret.{
  host_key, commitment_key, opret_prohibited, has_final_opret_script, is_opret_host,
  opret_commitment, opret_commit,
}

module _ {T : Types} (s : Scripting T) (lawful : IsScripting s) (v : Codecs T)
    (e : Equalities T) where
  -- the output after a commitment was set
  abbrev pub committed : Output T → s.Commitment → Output T
  committed o c = record o {
    script = s.op_return (s.to_byte_array c);
    proprietary =
        IndexMap.shift_remove host_key
          (IndexMap.insert commitment_key (s.to_byte_array c) o.proprietary);
  }

  pub opret_commit-committed :
      (o : Output T) (c : s.Commitment)
      → is_opret_host s v e o ≡ true
      → has_proprietary (output_key_map v e) o commitment_key ≡ false
      → opret_commit s v e o c ≡ (committed o c, ok tt)
  unfolding opret_commit push_proprietary remove_proprietary has_proprietary proprietary
      IndexMap.get IndexMap.shift_remove
  opret_commit-committed o c host free = rw (host, free) refl

  proprietary-committed :
      (o : Output T) (c : s.Commitment)
      → proprietary (output_key_map v e) (committed o c) commitment_key ≡ some (s.to_byte_array c)
  unfolding proprietary prop_key_eq
  proprietary-committed o c =
      rw
        (
          IndexMap.get-shift_remove host_key commitment_key
              (IndexMap.insert commitment_key (s.to_byte_array c) o.proprietary),
          IndexMap.get-insert commitment_key commitment_key (s.to_byte_array c) o.proprietary,
        )
        refl

  has_final-committed :
      (o : Output T) (c : s.Commitment)
      → has_final_opret_script s (committed o c) (s.to_byte_array c) ≡ true
  unfolding has_final_opret_script
  has_final-committed o c =
      let same = (bytes_eq_iff (s.to_byte_array c) (s.to_byte_array c)).1 refl in
      let len = lawful.commitment_length c in
      rw (lawful.op_return_bytes c) (ground (arith, len, same))

  pub opret_commitment-committed :
      (o : Output T) (c : s.Commitment) → opret_commitment s v e (committed o c) ≡ ok c
  unfolding opret_commitment
  opret_commitment-committed o c =
      rw
        (
          lawful.is_op_return_op_return c,
          proprietary-committed o c,
          has_final-committed o c,
          lawful.commitment_round_trips c,
        )
        refl

  pub not-host-committed :
      (o : Output T) (c : s.Commitment) → is_opret_host s v e (committed o c) ≡ false
  unfolding is_opret_host has_proprietary proprietary prop_key_eq
  not-host-committed o c =
      rw
        (IndexMap.get-shift_remove host_key host_key
          (IndexMap.insert commitment_key (s.to_byte_array c) o.proprietary))
        refl

  opret_commit-prohibited :
      (o : Output T) (c : s.Commitment)
      → is_opret_host s v e o ≡ false
      → opret_commit s v e o c ≡ (o, err opret_prohibited)
  unfolding opret_commit
  opret_commit-prohibited o c host = rw host refl

  -- Committing to an output that hosts and has no commitment succeeds; then its commitment is found,
  -- it hosts no longer, and it refuses any other commitment as one that is prohibited, not as one
  -- that is already there, and stays as it is.
  pub opret_commit-once :
      (o : Output T) (c d : s.Commitment)
      → is_opret_host s v e o ≡ true
      → has_proprietary (output_key_map v e) o commitment_key ≡ false
      → let after : Output T = (opret_commit s v e o c).0 in
        ((opret_commit s v e o c).1 ≡ ok tt)
        × (opret_commitment s v e after ≡ ok c)
        × (is_opret_host s v e after ≡ false)
        × (opret_commit s v e after d ≡ (after, err opret_prohibited))
  opret_commit-once o c d host free = rw (opret_commit-committed o c host free) (
    refl,
    opret_commitment-committed o c,
    not-host-committed o c,
    opret_commit-prohibited (committed o c) d (not-host-committed o c),
  )
