-- ===== src/Psbt/Data/Descriptor.antt =====
-- What psbt/src asks of a wallet descriptor: the methods of the trait `Descriptor` of
-- descriptors/src/descriptor.rs, and those of the `DerivedScript` of derive/src/derive.rs that it
-- derives.
use bp_std.Prelude.{ℕ, List, Option}
use bp_std.Prelude.IndexMap.{IndexMap}
use bp_std.Consensus.{Types}
use bp_std.Derive.Index.Normal.{NormalIndex}
use bp_std.Derive.Terminal.{Keychain, Terminal}
use bp_std.Derive.TapTree.{TapTree}
use bp_std.Derive.Origins.{XpubOrigin, KeyOrigin, TapDerivation}

-- the results of the `to_…` methods of one derived script
pub record Scripts (T : Types) : Type 0 where
  pub script_pubkey : T.ScriptPubkey
  pub redeem_script : Option T.RedeemScript
  pub witness_script : Option T.WitnessScript
  pub internal_pk : Option T.InternalPk
  pub tap_tree : Option (TapTree T)
  pub leaf_scripts : IndexMap T.ControlBlock T.LeafScript
  pub tap_root : Option T.TapNodeHash

pub record Descriptor (T : Types) : Type 0 where
  pub derive : Keychain → NormalIndex → Scripts T
  pub compr_keyset : Terminal → IndexMap T.CompressedPk (KeyOrigin T)
  pub xonly_keyset : Terminal → IndexMap T.XOnlyPk (TapDerivation T)
  pub xpubs : List (T.Xpub × XpubOrigin T)
  pub dust_limit : ℕ
