-- ===== src/Lib.antt =====
-- guillotine: probabilistic micropayments on a Substrate chain.
--
-- A payer signs a lottery voucher of 192 bytes for a payee. The chain draws randomness for every
-- block; the hash of the signed part of a voucher and of the randomness of its oracle block is its
-- ticket, and the payee redeems the voucher by the call `claim` if the ticket wins.
--
-- Base: shared names, tests and lists over the native numbers, results that may be a panic
--   (`Base/Outcome`), slices and little-endian words (`Base/Words`), hexadecimal digits
--   (`Base/Hex`).
--
-- Pallet: blockchain/pallets/probabilistic-payments/src/lib.rs.
--   `Pallet/Config` has the constants, the errors and the event, and what the pallet takes from
--   other crates: `Config` for the account ids, signatures, origins, hashing, `U256`, the
--   randomness pallet, the events and block number of `frame_system`, and `StorageMap` for
--   `RandomnessHistory`. `IsLawful` states what their documentation says, and `Pallet/Mock` is a
--   configuration that meets it. Collisions of the map's hashed keys are left out.
--   `Pallet/Voucher` is `Voucher::parse`: a slice out of range or an array of the wrong length is
--   a `panic`. `Pallet/Voucher/Reading` covers every input, `Pallet/Voucher/Layout` the layout of
--   README.md, with `Codec` for the SCALE encoding of account ids and signatures.
--   `Pallet/Voucher/Canonical` describes the results of the parser apart from the code, and
--   `Pallet/Voucher/Source` goes back from a voucher to its bytes.
--   `Pallet/History` is the hook `on_initialize`, `Pallet/History/Window` what it keeps.
--   `Pallet/Claim` is the call: `check_claim` holds its tests in their order, `finish` the event.
--   A `panic` is returned with the state before it, since the chain keeps nothing of such a call.
--   `Pallet/Claim/Rules` describes admissible and refused claims apart from the code,
--   `Pallet/Claim/Cases`, `Outcome`, `Complete`, `Frame`, `Replay`, `Signed` and `Odds` prove the
--   call against it, and `Batch` is about the claims of one block.
--   `Pallet/Chain` is the life of a chain: blocks, claims, and steps of other pallets;
--   `Pallet/Chain/Reach` and `Redeem` are about what it reaches, `Decided` about how it goes on.
--   Block numbers are natural numbers; the `u32` of the chain does not wrap in its life time.
--
--   `Pallet/Ledger` is the abstract specification: a ledger that forgets no draw and no payment,
--   with `IsPayable` for what it pays; `Pallet/Ledger/Refinement` relates it to the code.
--   `Pallet/Dispatch` is the bound on the call's argument, `Pallet/Benchmarking` and
--   `Pallet/Weights` are benchmarking.rs and weights.rs beside lib.rs; `Pallet/Weights/Writes`
--   counts the writes to the storage map. `Pallet/TestRuntime` is mock.rs, and
--   `Pallet/TestRuntime/Order` the order of its hooks.
--
-- Client: vouchers of the local node, guillotine-local-node/express/src. `Client` has the block
--   numbers of payments/payPaymentRequest.js, and `Client/Payment` the rest of it, over the record
--   `Surroundings` for its constants and library calls; the number of the head block is a text of
--   decimal digits, as the sidecar's JSON has it. `Client/Packing` is helpers/packAndSignVoucher.js
--   over the record `Toolkit` for `hexToU8a` and the key pair. `Client/Packing/Layout` and `Signs`
--   and both files `Refused` follow the vouchers into the pallet. Numbers have at most 14
--   hexadecimal digits, since a safe integer is below 2 ^ 53.
--
-- Runtime: blockchain/runtime/src/lib.rs.
--   `Runtime/Constants` has the constants that the other parts read, and the period of a mortal
--   transaction. The next power of two is found by doubling 1 at most 32 times, since a `u32`
--   holds 32 powers of two. `Runtime/Transaction` is `create_transaction`, over the record
--   `Signing` for payloads, eras and the signer; `Births` of `Runtime/Transaction/Mortality` states
--   what is documented of eras. `Runtime/Pallets` has the pallets in the order of
--   `construct_runtime!` and their hooks. `Runtime/Api` has every request of the runtime's APIs,
--   over the record `Frame` for `Executive` and the pallets. `Runtime/Version` is the version,
--   `Runtime/TryRuntime` the API for try-runtime. `Runtime/Configs` has the configurations of
--   the pallets: numbers, flags and functions, with types of numbers as their bits; the types
--   that the macros generate are left out. `IsClock` of `Runtime/Configs/Clock` states what the
--   timestamp pallet and Aura document of the times and slots of blocks, and
--   `Runtime/Configs/Redemption` follows a voucher of README.md from its bytes to its payment.
--   `Runtime/Benches` is the API for benchmarks, with the rows of `define_benchmarks!`.
--
-- Node: blockchain/node/src.
--   `Node/Benchmarking` is benchmarking.rs, over a record `Bench` for the client and the key ring.
--   `Node/ChainSpec` is chain_spec.rs, over a record `Keyring` that derives keys from seeds.
--   `Node/Trace` has programs as the sequence of the calls that they make, each of which may fail
--   or panic; a program stops at the first that does. `Node/Command` is cli.rs and `run` and
--   `load_spec` of command.rs; the arguments of a command are left open. `Node/Service` is
--   service.rs: what is called in which order, and for which configuration. `Node/Rpc` is
--   rpc.rs, over the record `Extensions`. `Node/Executor` is the native executor of service.rs and
--   what the command line says of the node. `Node/Service/Inherents` has the slot and timestamp of
--   a block. `Node/Main` is main.rs: the command line over the service. The other objects that the
--   calls pass on are not modelled.
--
-- Not modelled: the build scripts, which only call Substrate's build tools; the express servers of
--   guillotine-node and guillotine-local-node, whose handlers are glue around HTTP, keys and the
--   console and end in undeclared names; the objects that the node's service hands from call to
--   call, and the parsing of command lines, which are libraries'; the types and the hooks that
--   FRAME's macros and pallets bring, where they are not parameters.
pub mod Base
pub mod Pallet
pub mod Client
pub mod Runtime
pub mod Node
pub mod Tests
