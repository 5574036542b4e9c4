-- ===== src/Lib.antt =====
-- Verification of fork-observer, a server that watches the chain tips of Bitcoin nodes.
--
-- The program polls its nodes. For each network there is a header tree and a cache. A poll of a
-- node asks for its chain tips; if they changed, it loads the headers that the tree does not have,
-- inserts them into the tree and the database, and updates the cache, from which the web page and
-- the feeds are served. A second task identifies the miners of new blocks.
--
-- The parts, and the files that model them:
-- - Prelude: lists, hash maps and B-tree maps as association lists, stable sorting, signed 64-bit
--   numbers, options and results, decimal texts.
-- - Bitcoin, Petgraph, Errors: what the program takes from other crates, as parameters. Bitcoin is
--   the record of the hashes and headers of the crate bitcoin, Petgraph the record of the
--   operations of petgraph's DiGraph with their documented laws (Petgraph/Walk: filtering and
--   walking, Petgraph/Weights: assignment to a node), Crates the types of the errors that
--   src/error.rs wraps. Samples has instances of them.
-- - Errors (src/error.rs): the error types; Errors/Texts their texts, Errors/Sources their sources.
-- - Types (src/types.rs): ChainTip, HeaderInfo, NodeDataJson, Cache and their functions, and
--   NodeInfo of src/node.rs; Types/Status: ChainTipStatus; Types/Equality: the comparison of tips.
-- - Cache (src/main.rs: update_cache, is_node_reachable, tip_heights, populate_cache): a function
--   from the caches to the caches for each critical section; Cache/Steps has the relation of their
--   interleavings, Cache/Texts the texts of the updates. The order in which a HashMap is iterated is
--   an argument, Order, as is the clock.
-- - Tree (src/main.rs: insert_new_headers_into_tree; src/db.rs: load_treeinfos): the graph with the
--   index of its nodes by block hash. Tree/Parents has the invariant of a forest, Tree/View the
--   abstract view of a tree, a map from block hashes to headers.
-- - Headertree (src/headertree.rs: sorted_interesting_heights), Headertree/Strip
--   (strip_tree) and Headertree/Forks (recent_forks), over the operations that filter and walk a
--   graph, of which Samples/Walking has an instance. Headertree/Strip/Near says which headers are
--   kept, Headertree/Strip/Connects how their chains are connected, both apart from the code.
-- - Node (src/node.rs: new_headers, new_active_headers, new_nonactive_headers): a node is a record
--   of its answers. The tree is not changed while one call loads headers. Node/Rest has
--   active_chain_headers_rest, Node/Clients the implementations for Bitcoin Core and btcd.
-- - Jsonrpc (src/jsonrpc.rs): the requests to btcd and the checks of the responses, over the record
--   Web of what the HTTP client, the JSON parser and the decoders do.
-- - Config (src/config.rs: parse_config, parse_toml_network, parse_toml_node, parse_rpc_auth): the
--   TOML parser, the file system, to_lowercase and the parser of addresses are the record Host.
-- - Db (src/db.rs: write_to_db, update_miner, load_header_infos): the SQL statements and the
--   encodings of headers are the record Sqlite; Samples/Table is a table that satisfies its laws. The
--   columns of a row have the types of the table, so that reading one does not fail.
-- - Rss (src/rss.rs): Rss/Items has the texts, Rss/Responses the four responses, Rss what they list.
-- - Api (src/api.rs): the JSON responses and the events of the event stream, as values.
-- - Version (src/main.rs: load_node_version).
-- - Poll (src/main.rs: the task that main spawns for each node): the states of the task, Phase, are
--   the places between two critical sections, and advance is the step from one to the next, over
--   World, what the tasks of a network share. new_headers and strip_tree are one step each, though
--   they lock the tree more than once.
-- - Identify (src/main.rs: the tasks that identify miners), in the same way; the one-shot request is
--   one step. The identification of a pool from a coinbase is a parameter. The blocks that the nodes
--   return have a transaction.
-- - Tasks (src/main.rs): the tasks of one network, interleaved in any order as the relation Step. The
--   steps of the tasks of other networks are the step `elsewhere`, which leaves this network's cache
--   alone and removes no primary key from the table. A task that waits is one that takes no step.
-- - Startup (src/main.rs: startup, populate_cache, main; src/db.rs: setup_db): up to the state in
--   which the tasks of a network begin.
--
-- Panics of unwrap and expect are `none`, or `panicked` in Node. Unsigned subtraction wraps as in a
-- release build. The loop of new_active_headers has as fuel the height of the active tip plus one,
-- one round for each height down to 0. The split of a response into chunks has as fuel its length.
--
-- Not modelled: the routes of main, which compose warp filters, and the filters of src/api.rs that
-- pass arguments to handlers; the serialisation to JSON, which serde derives; the text of MainError
-- and those of log messages; timers and intervals; the logging setup; the web page.
pub mod Prelude
pub mod Bitcoin
pub mod Types
pub mod Cache
pub mod Config
pub mod Petgraph
pub mod Tree
pub mod Headertree
pub mod Db
pub mod Errors
pub mod Node
pub mod Rss
pub mod Samples
pub mod Version
pub mod Poll
pub mod Identify
pub mod Tasks
pub mod Startup
pub mod Jsonrpc
pub mod Api
