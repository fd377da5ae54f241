-- ===== src/Lib.antt =====
-- coremio is a C library of containers, parsers, network and neural network helpers. Each
-- structure that can stand in a container embeds the container's node as its first field: the
-- memory tracker (src/memory.c) keeps its chunks on the doubly linked list (src/list.c), the
-- growing array (src/array.c) takes its blocks from the tracker, and the dictionary
-- (src/dictionary.c) keeps its entries in the red-black tree (src/red_black_tree.c) in the
-- order of a hash of their keys. A runner (src/runner.c) is a thread with a status that a
-- client starts, stops and joins.
--
-- The parts and their models:
--
--   - Prelude: what the modules share; Prelude/Tests has the Boolean tests and the arithmetic
--     of a `size_t`, Prelude/Lists the lists over the native numbers.
--   - LinkedList: src/list.c and include/coremio/list.h. Nodes and list headers live at
--     addresses in a store (LinkedList/Heap); an operation is a command that returns, faults
--     on a null or dangling pointer, or aborts on a failed `d_assert`. LinkedList/Chain says
--     which list of addresses a header stands for. `f_list_append` is append, `f_list_insert`
--     insert, `f_list_remove` remove, `f_list_remove_from_owner` remove_from_owner.
--     LinkedList/Sort is the merge sort: `f_list_sort` is sort, with split_walk, hard_split,
--     hard_merge, merge_sort and walk_tail for its loops and recursions.
--   - RedBlackTree: src/red_black_tree.c. A node with its children is a tree; a node pointer
--     with its `parent` links is a subtree with the path of frames above it.
--     `f_red_black_tree_insert` is insert, the loop of `p_red_black_tree_fix` is fix with a
--     round fix_round, `f_red_black_tree_free` is free.
--   - Dictionary: src/dictionary.c. Keys are lists of bytes, the evaluation is computed on 64
--     bits, and the flags of get_or_create_informed say which allocations succeed.
--   - Memory: src/memory.c. `f_memory_malloc`, `f_memory_realloc` and `f_memory_free` are
--     malloc, realloc and free, on the store of the list with the bytes of each chunk; what
--     the C library's `malloc` answers is an argument.
--   - GrowingArray: src/array.c. `f_array_malloc` is malloc and `f_array_validate_access`
--     validate_access, with sizes that wrap at 2 ^ 64; a division by zero and a write behind
--     a block are results.
--   - Runner: src/runner.c. A step relation on the status, the thread in
--     `p_runner_run_callback` (worker_step) and the client in `f_runner_run`, `f_runner_join`
--     and `f_runner_stop` (owner_step).
--   - Strings: `f_string_trim` of src/local.string.c is trim, on the bytes without the final
--     zero; the use of the byte before the string is a result.
--   - HttpPayload: src/http_payload.c. HttpPayload/Unserialize is the parser,
--     `f_http_payload_unserialize`, with a function for each of its steps; Serialize is
--     `f_http_payload_serialize` with the growth of its buffer; Build the calls that fill a
--     message; Transfer is `f_http_payload_read` on a buffer of bytes, and
--     `f_http_payload_write`. A text is the list of its bytes; a header is an entry of the
--     dictionary. The parser runs on the region of the memory that starts with the buffer:
--     where no zero follows the buffer, its searches may run on behind it, which is a result
--     of its own, `unended`.
--   - Server: src/server.c. Server/Sockets makes sockets and logs the calls on descriptors,
--     Transmission has the loops of `f_socket_read` and `f_socket_write`, Addresses the lists
--     of addresses, Queue the server with its thread `p_server_run_callback`. What the system
--     answers is an argument, call by call. Queue/Interleave puts calls of
--     `f_server_get_connection_node` between the rounds of the thread; calls that add
--     addresses meanwhile are left out. Server/Messages is `f_http_payload_read_from_socket`
--     and `f_http_payload_write_to_socket`.
--   - FeedForward: src/neural_networks/feedforward_neural_network.c. FeedForward/Creation is
--     `f_fnn_new`, FeedForward/Forward is `f_fnn_run`, FeedForward/Stream is
--     `f_fnn_dump_model` and `f_fnn_load_model`, on a stream of what the formats write and
--     read; the white space between the numbers is left out, and the arrays whose sizes are
--     read fit in a word.
--
-- Each loop and recursion of the sort runs on fuel, and a fuel greater than the number of nodes
-- is enough. The rounds of the parser of messages run on fuel: eight for each byte of the
-- buffer, and seven more, are enough. The repair of a tree goes up a path that shortens in each
-- round. The count of a list and the hash of a key wrap at 2 ^ 64.
--
-- Not modelled: the calls of OpenSSL (src/tls.c) and SQLite (src/database.c), the timed join
-- and the release of a runner, and for now the parsers (src/tokens.c, src/json.c),
-- src/boxed_nan.c, the formatter of src/local.string.c, the training of the feedforward
-- network, and the recurrent one (src/neural_networks).
pub mod Prelude
pub mod LinkedList
pub mod RedBlackTree
pub mod Dictionary
pub mod Memory
pub mod GrowingArray
pub mod Strings
pub mod Runner
pub mod FeedForward
pub mod HttpPayload
pub mod Server
