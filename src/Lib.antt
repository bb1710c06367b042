-- ===== src/Lib.antt =====
-- onyxnet: a C library for games' UDP networking, in two parts. lib/onyxutil has the tools:
-- checksums, a vector of plain items, and a hash table. lib/onyxudp has the networking: payloads
-- with reference counts, a server instance with groups of peers, and a client with its connections.
-- The networking keeps its peers, groups and queues in vectors and hash tables, and guards its
-- packets with the checksums.
--
-- Files:
-- - Prelude, Bits: names, lists and numbers, and exclusive or as arithmetic, for all the others.
-- - Crc: update_crc32 and update_crc16 of lib/onyxutil/crc.cpp, with their tables copied. A byte is
--   a number and a message is a list of them. Crc/Reference is the bitwise checksum that they
--   implement.
-- - Memory: blocks of bytes with an address, what malloc may return, and reads and writes that
--   fault outside their block; size_t arithmetic wraps at 2 ^ 64.
-- - Vector: lib/onyxutil/vector.cpp. A vector_t is a record with its block; vector_item_insert,
--   vector_item_append, vector_item_remove and vector_item_get are insert, append, remove and get,
--   and vector_init and vector_deinit are init and deinit. A result pairs what the function returns
--   with the new vector, and is none if memory is used out of bounds. Vector/Valid has the
--   invariant, Vector/Items the sequence of items that a user of a vector sees.
-- - Hash: hash_pod of lib/onyxutil/hashtable.cpp. HashTable: the table of that file, with
--   hash_table_ dropped from the names. HashTable/Chain has the loops over one chain,
--   HashTable/Valid the invariant and what a table holds under a key, HashTable/Iterate the
--   iteration, and in Iterate/Live that over a table that changes. HashTable/Full is about an
--   assignment that gets no memory, HashTable/Search compares finding with a search that knows of
--   no codes and no slots, HashTable/Life is about the first and the last call, HashTable/Ideal is
--   the map that a user of a table sees.
-- - Api, Payload: the error codes of lib/onyxudp/udpbase.h, and lib/onyxudp/payload.cpp. The heap
--   maps addresses to payloads; a use of a freed one is a fault, and calls of on_error are
--   recorded. Payload/Life is what the holders of a payload may rely on.
-- - Server: udp_initialize, udp_terminate and udp_run of lib/onyxudp/udpbase.cpp. The answers of
--   getaddrinfo, malloc, socket, fcntl, bind and pthread_create are arguments; what is obtained,
--   given back and reported is a list of events, and so are the thread and the flag that it reads.
--   Server/Held counts what is held, Server/Stages follows an instance through its life,
--   Server/Loop is about udp_run_func, which calls an empty udp_poll.
-- - Group: udp_group_create of lib/onyxudp/udpbase.cpp. Group/Members has udp_group_peer_add and
--   udp_group_peer_remove with what they call, Group/Chain udp_group_destroy and the list of groups
--   of an instance. A Roster is an instance with its groups and peers by their addresses. Join and
--   Leave are about the peers, Unlink and Destroy about the list.
-- - Protocol: the control packet of lib/onyxudp/protocol.h as bytes; Protocol/Fields is what a
--   receiver reads from one.
-- - Client: lib/onyxudp/udpclient.cpp, with udp_client_ dropped from the names. A Net is a client
--   with its table of connections, the connections by their pointers, the addresses in memory, the
--   payloads and what it has told the application and the network. Client/Sound is what holds
--   between two calls: the table has the connections of the client under their addresses, and no
--   others. Opened and Connect are about udp_client_connect, Greeting about the packet that it
--   makes, Gone and Disconnect about udp_client_disconnect, RoundTrip about the two in turn, Steps
--   and Reach about any sequence of calls, Terminate about udp_client_terminate. Setup has
--   udp_client_initialize, with the answers and events of Server, and udp_client_address_resolve;
--   Poll has the handlers of udp_client_poll for one connection, Thread udp_client_run and the loop
--   of its thread.
-- - Tests: the theorems at concrete inputs, and runs.
--
-- Bounds: size_t has 64 bits. A loop over a vector or over chains of nodes follows a list or a
-- count. A caller's loop over a hash table is given a number of rounds, for which the table's count
-- is enough; where it removes items, and in udp_client_terminate, it needs one more to see the end.
-- The loop of udp_group_destroy over the list of groups needs one more than the groups it passes
-- by. The loops of the two threads are given what they read of the flag that stops them. The items
-- of a vector are bytes, at most 0x100000 items of a size below 2 ^ 43 for the sizes not to wrap.
-- The item behind a key pointer of the hash table is a value of any type, and HashTable/Frame says
-- which of them may change while the table is in use. The functions that hash and compare it are
-- parameters, of which the theorems assume what hashtable.h asks: that comparing is an equivalence
-- and equal items have equal codes.
--
-- Not modelled: of the client, udpcns_connected, udp_client_connection_destroy and udp_client_poll,
-- which are not C++ as they stand: they use names that are not declared and calls with too few
-- arguments. Connections have no queued payloads where a theorem says that the client is sound,
-- since nothing else that is C++ queues any. An address with a length byte over 30 is cut at its
-- end, where sendto would read on behind it, and the free of a resolved address list is recorded
-- for the two initialisations only. The test programs and the build files are left out. malloc is a
-- parameter; the bytes of a new block are what it says they are.
pub mod Prelude
pub mod Bits
pub mod Crc
pub mod Memory
pub mod Vector
pub mod Api
pub mod Payload
pub mod Protocol
pub mod Hash
pub mod HashTable
pub mod Group
pub mod Server
pub mod Client
mod Tests
