-- ===== src/Lib.antt =====
-- MetaCoSign: a node-side service that co-signs and pays for the transactions of registered
-- accounts. This library models the parts of it that keep state with rules of their own.
--
-- Parts and files:
-- - pkg/storage/contract_free_gas_storage.go: Registry (the generic helpers `genericAdd`,
--   `genericRemove`, `genericScan`, `paginateRange`, …) and FreeGas (contracts, wallets, paying
--   wallets and administrators as four families of a registry, and the configuration values).
--   FreeGas/Commands gives the eight calls that change a list as `Command`, with the lists
--   themselves as their specification.
-- - pkg/account_handler/account_handler.go: Permissions, the handlers of the calls that change
--   authorized wallets and administrators, and that list them and the paying wallets;
--   Permissions/HelpPay, those that change the paying wallets, with `syncHelpPayWorkers`; and
--   Permissions/Dispatch, `HandleAccountTransaction` for the six calls that change lists. They call
--   FreeGas.
-- - pkg/storage/bls_account_storage.go: BlsAccounts, the confirmed and unconfirmed accounts of a BLS
--   public key, and pending transactions.
-- - pkg/network/circuit_breaker.go: CircuitBreaker, each method as a function of the state and of
--   the time of the call.
-- - pkg/state/account_state.go, pkg/state/smart_contract_state.go, pkg/common/common.go:
--   AccountState, with its contract (AccountState/Contract), the methods (AccountState/Account),
--   and the messages (AccountState/Codec).
-- - pkg/storage/memorydb.go: MemoryDb, with its iterator (MemoryDb/Iterator) and `GetSnapShot`, which
--   take the order of the loop over a map as an argument.
-- - pkg/trie: Trie. Trie/Nibbles is node/encoding.go, Trie/Node the rest of node, Trie/Tracer is
--   tracer.go, Trie/Operations and Trie/Deletion are the recursive `get`, `insert` and `delete` of
--   trie.go, and Trie/Map is `MerklePatriciaTrie` with `New`, `Get` and `Update`. Trie/Denotes says
--   which map from paths to values a node stands for; Trie/Walks is `Count`, `GetAll` and
--   `GetKeyValue`. Trie/Marshal is how nodes are written, Trie/Hasher is hasher.go with `Hash`,
--   Trie/NodeSet is node/node_set.go, and Trie/Committer is committer.go with `Commit`.
--   Trie/Canonical is the form that a trie has whose keys are of one length, as hashed keys are, and
--   which the hasher and the committer rely on; Trie/Canonical/Sessions gives the life of a trie over
--   a database that is saved to, as `Session`.
-- - Base, Bytes and Result hold what these share: lists and tests over native numbers, the byte
--   strings of Go with decimal and big-endian numbers, and results with errors and panics.
--
-- What stands outside the modelled code is a parameter, with what the code relies on as laws: LevelDB
-- (`LevelDb` of Store: a batch is written as a whole or not at all), go-ethereum's addresses, hashes
-- and hexadecimal text, the store of private keys of cmd/rpc-client/store (`PrivateKeys`
-- of Permissions/HelpPay), and the protobuf encoding of each message (`Codec`: what was marshalled is
-- unmarshalled as it was). `Put` and `Delete` are batches of one entry. The commit of a trie relies on
-- `Laws` of Trie/Canonical: a Keccak hash has 32 bytes and is not zero, `BytesToHash` keeps 32
-- bytes as they are, and a message with contents is encoded in some bytes. Examples meets every law by
-- concrete functions and applies the theorems to concrete inputs.
--
-- Bounds: a `uint64` or `int` is given by its 64 bits, and sums wrap. `format_uint` writes at most 20
-- digits, which every `uint64` has; the loops of the page reads recurse on the identifiers that are
-- left; the bytes of a `big.Int` are produced in as many rounds as the number, of which each divides
-- by 256. Amounts of accounts are integers, `ℤ`. The recursive operations of the trie run on fuel,
-- one unit for a node on the way, and `GetSnapShot` with one for each key and one more; the theorems
-- say that some fuel is enough, and any greater.
--
-- Not modelled: mutexes (each operation of a storage or a breaker is one step, as its lock makes it),
-- sockets, logging, the clock (times are arguments), the workers that send payments (goroutines) and
-- the JSON forms. The other handlers decode
-- calls by the ABI library, check signatures in the BLS library and send transactions; transactions
-- and receipts are accessors over protobuf messages; the network transport and the remote clients
-- are goroutines around libraries; the other stores call database libraries. Of the trie, its export,
-- import and storage keys are left out. pkg/bls has a copy of the blst library, and pkg/proto is
-- generated.
pub mod Base
pub mod Bytes
pub mod Result
pub mod Store
pub mod Registry
pub mod FreeGas
pub mod Permissions
pub mod CircuitBreaker
pub mod AccountState
pub mod BlsAccounts
pub mod MemoryDb
pub mod Trie
mod Examples
