-- ===== src/Psbt/Csval/Stored.antt =====
-- Values that are stored under proprietary keys of an output, by psbt/src/csval.
use bp_std.Prelude.{Bytes, Option, none, some, ◌≡◌, refl, if◌then◌else◌}
use bp_std.Prelude.Results.{ok, err}
use bp_std.Prelude.IndexMap
use bp_std.Consensus.{Types, Equalities}
use bp_std.Psbt.Errors.{PropKey}
use bp_std.Psbt.Coders.Values.{prop_key_eq, prop_key_instance}
use bp_std.Psbt.Data.Output.{Output}
use bp_std.Psbt.Keys.Output.{output_key_type}
use bp_std.Psbt.KeyMap.{proprietary, push_proprietary}
use bp_std.Psbt.KeyMap.Values.{Codecs}
use bp_std.Psbt.KeyMap.OutputMap.{output_key_map}

module _ {T : Types} (v : Codecs T) (e : Equalities T) where
  abbrev pub get : Output T → PropKey → Option Bytes
  get o key = proprietary (output_key_map v e) o key

  abbrev pub stored : Output T → PropKey → Bytes → Output T
  stored o key val = record o { proprietary = IndexMap.insert key val o.proprietary }

  pub push-free :
      (o : Output T) (key : PropKey) (val : Bytes)
      → get o key ≡ none
      → push_proprietary (output_key_map v e) o key val ≡ ok (stored o key val)
  unfolding push_proprietary
  push-free o key val free = rw free refl

  pub push-taken :
      (o : Output T) (key : PropKey) (val present : Bytes)
      → get o key ≡ some present
      → push_proprietary (output_key_map v e) o key val ≡ err (record { key = key })
  unfolding push_proprietary
  push-taken o key val present found = rw found refl

  pub get-stored :
      (o : Output T) (key j : PropKey) (val : Bytes)
      → get (stored o key val) j ≡ (if prop_key_eq key j then some val else get o j)
  unfolding proprietary
  get-stored o key j val = IndexMap.get-insert key j val o.proprietary
