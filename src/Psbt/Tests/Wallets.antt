-- ===== src/Psbt/Tests/Wallets.antt =====
-- The theorem on psbt/src/constructor.rs at a concrete wallet.
use bp_std.Prelude.{ℕ, ◌+◌, ◌≤◌, ◌<◌, [], ◌∷◌, some, none, ◌≡◌, ◌⊎◌, refl}
use bp_std.Prelude.Results.{ok}
use bp_std.Derive.Terminal.{Terminal, outer, inner}
use bp_std.Psbt.Ver.{v2}
use bp_std.Psbt.Data.Tx.{Outpoint, prevout_new}
use bp_std.Psbt.Data.Descriptor.{Descriptor}
use bp_std.Psbt.Data.Container.{
  Psbt, create, input_sum, are_inputs_modifiable, are_outputs_modifiable,
}
use bp_std.Psbt.Data.Construct.{
  input_for, output_for, change_for, construct_input, construct_output, construct_change,
}
use bp_std.Psbt.Constructor.{
  Beneficiary, fixed, TxParams, with_fee, Wallet, add_xpubs, add_inputs, add_outputs,
  construct_psbt,
}
use bp_std.Psbt.Constructor.Outputs.{value_of}
use bp_std.Psbt.Constructor.Conservation.{construct_psbt-conserves}
use bp_std.Psbt.Tests.Sample.{types, constants, equalities, sats, sats-IsSats}

abbrev descriptor : Descriptor types
descriptor = record {
  derive = λ keychain index. record {
    script_pubkey = 100 + index.value;
    redeem_script = none;
    witness_script = some 7;
    internal_pk = none;
    tap_tree = none;
    leaf_scripts = [];
    tap_root = none;
  };
  compr_keyset = λ terminal. [];
  xonly_keyset = λ terminal. [];
  xpubs = [];
  dust_limit = 546;
}

-- the state is the next index
abbrev wallet : Wallet types ℕ
wallet = record {
  descriptor = λ _. descriptor;
  utxo = λ _ o. some (record {
    outpoint = o;
    value = 10000;
    terminal = record { keychain = outer; index = record { value = 0 } };
  });
  next_derivation_index = λ w _ shift. (w + 1, record { value = w });
}

abbrev coin : Outpoint types
coin = record { txid = 5; vout = 1 }

abbrev fixed_payment : Beneficiary types
fixed_payment = record { script_pubkey = 33; amount = fixed 3000 }

abbrev params : TxParams types
params = with_fee constants 500

abbrev change_terminal : Terminal
change_terminal = record { keychain = inner; index = record { value = 8 } }

abbrev constructed : Psbt types
constructed = record (create constants v2) {
  inputs =
      input_for constants 0 (prevout_new coin 10000) descriptor
        (record { keychain = outer; index = record { value = 0 } }) 0
      ∷ [];
  outputs =
      output_for constants 0 33 3000 ∷ change_for constants 1 descriptor change_terminal 6500 ∷ [];
}

construct_psbt_test :
    construct_psbt constants equalities sats wallet 8 (coin ∷ []) (fixed_payment ∷ []) params
    ≡ ok (9, constructed, record { change_vout = some 1; change_terminal = some change_terminal })
unfolding construct_psbt construct_input construct_output construct_change add_inputs add_outputs
    add_xpubs are_inputs_modifiable are_outputs_modifiable input_sum prevout_new
construct_psbt_test = refl

construct_psbt-conserves_example :
    (value excess : ℕ) × (input_sum sats constructed ≡ some value)
    × (value ≡ value_of constructed.outputs + 500 + excess)
    × ((excess ≤ 546) ⊎ (excess < 0))
construct_psbt-conserves_example =
    construct_psbt-conserves constants equalities sats wallet sats-IsSats 8 9 (coin ∷ [])
      (fixed_payment ∷ []) params constructed
      (record { change_vout = some 1; change_terminal = some change_terminal }) construct_psbt_test
