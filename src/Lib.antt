-- ===== src/Lib.antt =====
-- Stellar Private Payments: the contracts that keep the shielded pool, and the planner of the
-- client that spends from it.
--
-- A user deposits a token into the pool contract and receives notes: commitments, the leaves of a
-- Merkle tree. A transaction spends two notes by their nullifiers and adds two commitments, under
-- a zero-knowledge proof that the verifier contract checks; the proof also names the roots of two
-- lists, of approved members and of blocked keys, that two more contracts keep. The client holds
-- an index of its notes, chooses which of them to spend, and cuts the spending into transactions.
--
-- Prelude, Machine: outcomes of contract calls, tests and lists on native numbers, integers, and
--   the checked operations of machine integers, with the width written out.
-- Soroban: contracts/soroban-utils/src/utils.rs and the host's 256-bit numbers. An address is a
--   number, and who has signed is a test on addresses.
-- Poseidon: contracts/soroban-utils/src/poseidon2.rs, with the zero hashes. The host's permutation
--   is a parameter; that its results are field elements is the hypothesis IsCanonical. Constants2
--   and Constants3 are the round constants of constants.rs. Permutation is the Poseidon2 permutation
--   that the host documents, and a host built of it and of these constants; IsPoseidon2 is the
--   hypothesis that a host computes it.
-- Merkle: the mathematics of append-only Merkle trees. Levels and Root define the root of a list
--   of leaves by levels of pairs, with zero hashes on the right; Frontier says what the stored
--   subtrees are; Climb is the loop over the levels that the pool and the membership contract
--   share.
-- Pool.Tree: contracts/pool/src/merkle_with_history.rs (init, insert_two_leaves, is_known_root,
--   get_last_root). The store is a record with a field for each key of MerkleDataKey. Ring and
--   Represents relate it to the list of leaves and the list of all roots, the newest first. Built
--   is about trees from init on.
-- Pool.State, Pool.Amounts, Pool.Contract: contracts/pool/src/pool.rs. transact is deposit and
--   then internal_transact, which is cut at its blank lines into check_transaction, mark_all,
--   withdraw and insert_commitments. The state also lists the events published and the token
--   transfers made. The record Env has what a call reads of its surroundings: the signatures, the
--   digest of the external data, the answers of the verifier and of the two list contracts, and
--   whether the token accepts a transfer. History is a sequence of calls, failed ones included,
--   which leave the state as it was. Checks and Payments say what a success has passed.
-- AspMembership: contracts/asp-membership/src/lib.rs, with all of its operations.
-- AspNonMembership: contracts/asp-non-membership/src/lib.rs, with all of its operations on the
--   store of nodes: the searches and the settings in the parent, the operations on keys in
--   Insertion, Deletion and Proof. Tree is the tree that the nodes spell, Represents relates the
--   two, Find and Verify are about searches and proofs. For insertion, Grow, NewKey and Kept are
--   about the tree, Shape about entries of the store, Siblings, Rounds, Added, Around, Rebuilt and
--   Rebuild about the rebuilding along the path, Insert about the whole; NoCollision says that the
--   hash tells apart the parts of the old and the new tree. Refusals is about the errors.
-- ClientAmounts: app/crates/core/types/src/amounts.rs, the arithmetic and the conversions of note
--   amounts, external amounts and field elements.
-- ClientMerkle: app/crates/core/prover/src/merkle.rs (MerklePrefixTree, its built form and its proofs)
--   and circuits/src/core/merkle.rs (merkle_root, a loop on as much fuel as there are leaves, which
--   is enough). The permutation of the reference implementation is the host's. Root relates the
--   client's roots to the pool's, Proofs is about proofs, Circuit about full lists of leaves.
-- TxPlanner: app/crates/core/tx-planner/src/plan. Combination is combination.rs (find_combination
--   and its scans), Plan is mod.rs (plan and resolve). Selection says what choosing notes means.
--   The sorting of the standard library is a parameter, with the hypothesis that it permutes the
--   list, and where the order matters that its amounts ascend. Runs tells what a run of the
--   planner may end in.
-- TxPlanner.Session: app/crates/core/tx-planner/src/execute. Reaches is a sequence of completed
--   steps; Progress is about how far a session has come, Balance about its transactions.
-- Registry: contracts/public-key-registry/src/lib.rs. Replay relates the entries to the events.
-- Verifier: contracts/circom-groth16-verifier/src/lib.rs, with the host's curve operations and the
--   verification key as parameters. Combination is about the loop over the inputs. In Equation the
--   record PairingGroups has what the host documents of the operations on points.
-- Examples: hosts, wallets and runs at which the theorems are applied.
--
-- Loops are structural recursion: over the levels, the ring's slots (search_roots takes 90 rounds,
-- the ring's size, after which every slot has been seen), the distance of the two pointers, the
-- candidates that are left. The one loop on fuel, that
-- of merkle_root, is proved to end on every list of 2^d leaves with d below 64.
--
-- Not modelled: the proof system, the circuits and the host's curve arithmetic (the pool takes the
-- verifier's answer as a parameter), the token contract, the encoding of external data under its
-- hash, time to live of storage entries, the tree after a deletion of a blocked key (the operation
-- is a definition), and of the client the sparse tree, the storage, the network, the prover
-- and the web front end.
pub mod Prelude
pub mod Machine
pub mod Poseidon
pub mod Merkle
pub mod Soroban
pub mod Pool
pub mod AspMembership
pub mod AspNonMembership
pub mod ClientAmounts
pub mod ClientMerkle
pub mod TxPlanner
pub mod Registry
pub mod Verifier
mod Examples
