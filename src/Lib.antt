-- ===== src/Lib.antt =====
-- Verification of the core of holochain-rust: the memory that zomes and the core share, the data
-- types and stores of the core, its state with the reducers of all slices, the in-memory network, and
-- the configuration of a conductor. A name below is a module of this library; a path is from the root
-- of the repository.
--
-- WasmMemory (core_types/src/bits_n_pieces.rs, core_types/src/error/ribosome_error.rs,
-- wasm_utils/src/memory): a wasm function returns one word of 64 bits, which is a success, an error
-- code, or the offset and length of an allocation. Bits has the halves of words, Allocation and Stack
-- the allocator, a stack whose only state is its top, Codes and Encoding the words, and Text the
-- strings in memory. Bytes and words are natural numbers with their wrap-around written out; the
-- memory is a function from addresses to bytes. A read that finds no zero byte stops at the end of
-- memory, which is the fuel of read_str_raw.
--
-- CoreTypes (core_types/src): EntryType, Entry, Link, Header and Errors. JSON and the hash are the
-- record Codec, an argument of what uses them. An address is its text.
--
-- Eav (core_types/src/eav, core_types/src/crud_status.rs, cas_implementations/src/eav/memory.rs):
-- the store of entity-attribute-value items that holds links and the status of entries. A BTreeSet is
-- the list of its items by ascending index. An index, a signed 64 bit integer, is its distance from
-- the least one. The search for a free index is on fuel, as long as the number of items and one more:
-- each step passes an item. The regular expression that validates a link's name is an argument.
--
-- Cas (cas_implementations/src/cas/memory.rs): the content store, an association list, with the lock
-- as a flag.
--
-- Chain (core/src/agent): Store has the iterators of the source chain, which follow the links of
-- headers in the content store, Query the pages of headers that a zome asks for, and Agent the state
-- of the agent and the reducer that commits an entry. The iterators are on fuel; one step more than
-- the length of the chain is enough. The content store is shared by all slices of the state, so it is
-- passed along beside the agent's own. The signature of the conductor, the clock and the compiled glob
-- set are arguments.
--
-- Dht (core/src/dht): the queries of the agent's shard and its reducers. The clock, the regular
-- expression and the debug text of errors are arguments. Both storages are shared by all copies of a
-- state, so a change stays when a later step fails or the copy is dropped. Entries and Headers have
-- the inner reducers, Reduce the state of the slice with its reducers, Grows and Holds what an action
-- leaves in the storages, and Lookup (core/src/nucleus/actions/get_entry.rs) how an entry is found with
-- its status.
--
-- Actions (core/src/action.rs): the actions that change the state of an instance, with payloads.
--
-- Nucleus (core/src/nucleus/state.rs, core/src/nucleus/reducers): the initialization of an instance,
-- the results of zome calls and validations, and the entries whose validation is pending. Lifecycle
-- has the diagram of the status as a relation, Pending the keys of pending validations.
--
-- Network (core/src/network/state.rs, core/src/network/reducers): the connection of an instance, its
-- requests with their results and timeouts, direct messages and the publication of entries. The
-- connection is a record of the messages it has taken; whether it opens and the outcome of a send are
-- arguments, as are JSON texts and fresh ids. Requests, Messages, Publish and Reduce have the
-- reducers; Exchange is the step relation of requests alone, which Refines connects to the reducers.
-- Finding the header of an entry to publish is on fuel, as in Chain.
--
-- State (core/src/state.rs): all slices under one action, in the order of the code, the restart from
-- snapshots, and the headers of an entry. The builder of a context gives the source chain and the shard one content store, so
-- the state has one, in the slice of the DHT.
--
-- Net (net/src/connection/json_protocol.rs, net/src/in_memory): the messages between a node and the
-- network, the books of what each cell holds, and the in-memory server: its state, a record of every
-- message sent on each channel, the connections of cells, the sends, and serve, which handles each
-- message of a node. A method is a function on the state whose outcome is a value, an error or a
-- panic; what it did before an error stays done. The order of a list stands for the unspecified order
-- in which a HashMap is iterated. Logging is left out. A channel is open or closed throughout.
--
-- Conductor (conductor_api/src/config.rs): the configuration of a conductor, the check that its parts
-- refer to each other consistently, and the removal of an instance.
--
-- Prelude has Boolean tests, lists, results and hash maps; Examples has concrete runs.
--
-- Not modelled: the threads, channels and observers of an instance, the handlers of network messages
-- and the workflows, which run beside the reducers; the ribosome (which runs a third-party
-- interpreter), the DNA format, file storage, network transports, the conductor
-- apart from its configuration, the sorting of instances by their bridges (which a graph package
-- does), cryptography,
-- bindings and command line tools.
mod Prelude
pub mod WasmMemory
pub mod CoreTypes
pub mod Eav
pub mod Cas
pub mod Net
pub mod Actions
pub mod Chain
pub mod Dht
pub mod Nucleus
pub mod Network
pub mod State
pub mod Conductor
mod Examples
