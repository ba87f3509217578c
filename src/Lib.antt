-- ===== src/Lib.antt =====
-- bp-std: the standard library of the Bitcoin protocol, in Rust. This development models its
-- crates psbt, derive and, in part, invoice: partially signed transactions (BIP 174, 370 and 371)
-- and the indexes by which keys are derived (BIP 32).
--
-- The program. A PSBT (psbt/src/data.rs) has global fields, inputs and outputs. It is created for
-- a version, changed by its own methods or built by a wallet (psbt/src/constructor.rs), and
-- exchanged as bytes: five magic bytes, then one map for the global fields, one for each input and
-- one for each output, each closed by the byte zero. psbt/src/keys.rs names the keys of the maps
-- and tells, for each, in which versions it is allowed and whether it carries key data;
-- psbt/src/maps.rs reads a map, checks it and moves its values into the fields; psbt/src/coders.rs
-- writes and reads the pairs and their values. Key origins inside a PSBT are derivation paths,
-- made of the indexes of derive/src/index.rs; a wallet addresses its own outputs by a terminal
-- (derive/src/derive.rs), the last two indexes of a path (derive/src/path.rs).
--
-- The files.
--   Prelude         what the modules share: the native numbers and Boolean tests (Tests), lists and
--                   bytes (Lists), `Result` and `?` (Results), `Eq`, `IndexMap`, `BTreeMap`,
--                   words in either order of bytes (Little, Big), `u32::from_str` and `Display` of numbers
--                   (Decimal), and what is used of `str` (Text).
--   Consensus       what the crates take from bp-core: types, values, and the arithmetic of `Sats`.
--   Psbt.Ver        psbt/src/lib.rs, `PsbtVer`.
--   Psbt.Errors     psbt/src/coders.rs, `DecodeError` and `PsbtError`. An error is a value of the
--                   result; the `unreachable!` of the key maps are an error of its own (`panicked` of
--                   Psbt.KeyMap), so that a theorem can say that they are not reached; a method of
--                   other modules that may panic has an option for it.
--   Psbt.Keys       psbt/src/keys.rs: `KeyType` with the three key enumerations as instances of one
--                   record; Laws holds what the other modules rely on.
--   Psbt.Coders     psbt/src/coders.rs, one child for each family of codecs. A reader is the list of
--                   the bytes that are left; a writer returns the bytes it wrote and, apart from
--                   them, the count it reports, because some callers frame by that count.
--   Psbt.Maps       psbt/src/maps.rs, `Map`: `parse`, `check`, and the maps it fills.
--   Psbt.KeyMap     psbt/src/maps.rs, the trait `KeyMap` with its macros and three implementations.
--   Psbt.Serial     psbt/src/coders.rs, `Psbt::encode`, `decode` and `deserialize`. Its child Buffers is
--                   the reading of a map in which a buffer that cannot be allocated is a panic.
--   Psbt.Data       psbt/src/data.rs: `Psbt`, `Input`, `Output`, `ModifiableFlags`, the unsigned
--                   transaction; a method on `&mut self` returns the new state.
--   Psbt.Constructor  psbt/src/constructor.rs, `construct_psbt`.
--   Psbt.Csval      psbt/src/csval: commitments of client-side validation, kept under proprietary
--                   keys of an output. Opret, Tapret and Mpc are the files of those names; Dbc is
--                   dbc.rs, which makes a multi-protocol commitment and then one of the others in
--                   the first output that is fit for it. A method that fails also returns the
--                   output as it leaves it, since the source may have changed it by then.
--   Derive.Index    derive/src/index.rs: `Idx`, `NormalIndex`, `HardenedIndex`, `DerivationIndex`.
--                   Its child Text has `Display` and `FromStr`.
--   Derive.Path     derive/src/path.rs, the text of `DerivationPath`, over that of an index; Segment
--                   is `DerivationSeg`, the set of the alternatives at one place of a path.
--   Derive.Terminal   derive/src/derive.rs and derive/src/path.rs: keychains and terminals.
--   Derive.TapTree  derive/src/taptree.rs: `TapTreeBuilder`, `TapTree`, `ControlBlockFactory`.
--                   Psbt.Coders.TapTrees is the codec of trees in psbt/src/coders.rs.
--   Derive.Origins  derive/src/xpub.rs and derive/src/taptree.rs: what a PSBT stores of a key.
--   Derive.Xpub     derive/src/xpub.rs: `Xpub` in 78 bytes and its children; Origin and Text are the
--                   texts of origins, keys and `XpubSpec`, and Derivable is `XpubDerivable`, which a
--                   wallet keeps: a specification, a variant and the keychains. A PSBT only stores
--                   extended keys, and takes their type as a parameter.
--   Invoice.Address  invoice/src/address.rs: payloads and addresses, and the scripts they stand for.
--   The children of these named after a property (Parse, Extends, Indexes, Conservation, Ranges and
--   the like) hold lemmas and theorems; the modules named Tests hold concrete instances.
--
-- Numbers. All are natural numbers. Where the source wraps around, the remainder is written out:
-- 32 bits for derivation indexes, 16 bits for the parts of a terminal, 8 bits for the depth of a
-- key. Amounts have 64 bits; where a theorem needs that a sum fits, it says so. Bytes are natural
-- numbers below 256 where a theorem needs the bound. Indexes are the numbers of their words, so a
-- hypothesis may say in which range an index lies.
--
-- Text is the list of its bytes.
--
-- Fuel. The loops of `Map::parse` and of `TapTree::decode` do not recur on a structure. They run on
-- the length of the stream plus one, as every round but the last consumes at least one byte.
--
-- Parameters, each standing for code that is not in this repository.
--   Consensus.Types, Constants, Equalities   consensus and key types of bp-core, some of their
--                   values, and the comparison of those that are keys of maps.
--   Consensus.Sats  amounts, with IsSats for what is documented of sums, differences and quotients.
--   Coders.Wire     compact size integers, bytes and words of 32 bits, with IsWire. Tests.CompactSize
--                   is an instance.
--   KeyMap.Codecs, Coders.Unsigned.TxCodecs   the consensus codecs of single values. A codec of this
--                   repository that Coders models can be passed for a field of these.
--   Csval.Scripting, Csval.Mpc.Protocols, Csval.Mpc.Commit.Merkle   scripts as bytes, and the
--                   arrays and trees of commit_verify; IsScripting and IsProtocols for what is
--                   documented of them. `try_commit` stands for one run of the library: the entropy
--                   that it draws where none is given is fixed by the instance.
--   Csval.Tapret.Tapret   taproot scripts, tapret commitments and proofs of bp-core and their strict
--                   serialization, with IsTapret for what is documented of them.
--   Derive.TapTree.MerkleBuoy, Taproot   how far leafs fill a tree (commit_verify), and hashes, keys
--                   and control blocks of taproot; Coders.TapTrees.Leafs is a leaf script as bytes.
--   Derive.Xpub.Bip32   fingerprints as bytes and in hexadecimal, compressed keys, hashes, the addition
--                   of a tweak, and Base58 with a checksum, with IsBip32 for what is documented.
--   Invoice.Address.Scripts   templates of scripts and the output keys of taproot, with IsScripts.
--   Data.Descriptor, Constructor.Wallet   the traits by which psbt asks a wallet for descriptors,
--                   coins and addresses; they are interfaces of the source, implemented by its users.
--
-- Not modelled. Base64, hexadecimal and the text of PSBTs and payments, because they are printing
-- and parsing by foreign crates; hashing and the arithmetic of secp256k1, on which the derivation
-- of keys, scripts and addresses rests, beyond its parameters; the derived scripts of
-- derive/src/derive.rs; the text of addresses and the networks of the crate invoice; and the crate
-- descriptors with src/rbf.rs, on which nothing here depends. invoice/src/base58.rs is a copy of
-- another project's module. Of psbt/src/coders.rs the codecs of keys, signatures, scripts and lock
-- times are passed as parameters. Borrowing and `serde` have no counterpart. Memory is taken to
-- suffice, except in Psbt.Serial.Buffers, which reads a map with the panic of its buffers: the
-- source makes buffers and lists of lengths that it reads unchecked (of keys, values, identifiers
-- and scripts, the counts of inputs, outputs and leaf hashes), and panics with a capacity overflow
-- on lengths from 2^63 on, or aborts on smaller ones that do not fit; here such a length is one
-- that the stream cannot fill, and the reading fails with the error of `read_exact` or of the first
-- element that is missing. No theorem says that a reader never panics. `from_child_number` and
-- `try_from_child_number` of `DerivationIndex` panic on every input and are left out.
pub mod Prelude
pub mod Consensus
pub mod Psbt
pub mod Derive
pub mod Invoice
