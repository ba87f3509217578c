-- ===== src/Derive/Origins.antt =====
-- Key origins: `XpubOrigin` and `KeyOrigin` of derive/src/xpub.rs, `TapDerivation` of
-- derive/src/taptree.rs.
use bp_std.Prelude.{List, map, ◌++◌, [], ◌∷◌}
use bp_std.Consensus.{Types}
use bp_std.Derive.Index.Hardened.{HardenedIndex}
use bp_std.Derive.Index.Derivation.{DerivationIndex, normal, hardened}
use bp_std.Derive.Terminal.{DerivationPath, Terminal}

pub record XpubOrigin (T : Types) : Type 0 where
  pub master_fp : T.XpubFp
  pub derivation : DerivationPath HardenedIndex

pub record KeyOrigin (T : Types) : Type 0 where
  pub master_fp : T.XpubFp
  pub derivation : DerivationPath DerivationIndex

pub record TapDerivation (T : Types) : Type 0 where
  pub leaf_hashes : List T.TapLeafHash
  pub origin : KeyOrigin T

module _ {T : Types} where
  -- `KeyOrigin::with`
  unfoldable pub with_terminal : XpubOrigin T → Terminal → KeyOrigin T
  with_terminal origin t = record {
    master_fp = origin.master_fp;
    derivation =
        map hardened origin.derivation
        ++ (normal (record { value = t.keychain.value }) ∷ normal t.index ∷ []);
  }
