-- ===== src/Lib.antt =====
-- A model of bfc-tunnel, a node of an encrypted overlay network over UDP, and what is proved of it.
--
-- Nodes exchange frames. A frame is a byte buffer with a packed header (src/bfc_tunnel/protocol/frame.hpp);
-- its payload is enciphered and the whole is authenticated (src/bfc_tunnel/security/key_utils.cpp) under
-- keys that two peers agree on (src/bfc_tunnel/security/dh.cpp) or that the network shares
-- (src/bfc_tunnel/node.cpp).
--
-- Base holds the shared names, lists over the native numbers, runs of bytes inside a list, counts of
-- elements and facts on bitwise operations. The other files, by the part of the program:
--   Frame: the class basic_frame_t, its setters, getters and validation. Frame/Algorithms has the
--     sizes of keys and MACs; Frame/Fields, Words, Header, Setters and Readings relate the packed bytes
--     to a record of fields; Frame/Validity is about validate_frame.
--   Security: key_utils.cpp. Security/Xor and Counter are about ctr_xor_inplace, Mac and Cipher about
--     the two halves of protect_frame, Protect about the whole.
--   Dh: dh.cpp, dh.hpp and x25519_dh.cpp. Dh/Agreement is about the keys of both sides.
--   Network: the network keys of node.cpp. Network/Preference, CreationId, Install, Convergence and
--     Expire are about installing and expiring keys, Select about network_select_sec_ctx, Replay about
--     network_accept_rx, Keyed about lists.
--   Peer: the security contexts of a peer in node.cpp. Peer/Ids is about the numbers of new contexts,
--     Select about peer_select_sec_ctx, Replay about peer_accept_rx.
--   Routes: route_manager.hpp and route_manager.cpp. Routes/Table is about best_per_target, Update about
--     update_route.
--   Topology: the ports, static peers and beacons of node.cpp, and is_equal of
--     transport/transport_types.cpp. Topology/Plan has the calls and what the beacons are derived from,
--     Wanted is about which beacons there are, Armed, Reconfigured and Due about their timers, Sent about
--     where they are sent, Counting about counts of elements.
--   Query: how the node asks the network for its keys, in node.cpp. Query/Acquisition has the choice of
--     a peer and what follows it; Query/Choice is about the loop that chooses, Progress and Run about
--     the timers and that candidates are not left alone.
--   Renewal: making, renewing and expiring the security contexts of a peer with their timers, in
--     node.cpp. Renewal/Lookup is about finding a context, Timers about lists of timers, Ends about the
--     end of a context, Held about which timers are pending.
--   Procedure: the transactions of a peer, the procedure that agrees on a security context and the one
--     that acquires network keys, in node.cpp. Procedure/Sending has the messages and the start of a
--     procedure, Transactions the queue, Handlers the messages that come in, the timers and the end of
--     a peer. Settled and Progress are about the queue, Kept, Handshake and Establish about the contexts
--     of both sides, Cleanup about the end of a peer, Pages about the keys that a peer sends.
--   Links: the links of a peer in node.cpp, with Links/Totals on their counters.
--   Identities: the identities and keys of node.cpp. Identities/Selection is about the selected one,
--     Synced about the private keys, Known about public keys.
--   Console: console/codec.hpp, parser.hpp and table.hpp. Console/Text has characters and numbers
--     (with utils/string_utils.hpp), Base64, Names, Address and Tokens the formats, each with a child
--     for what is read back; Table and Table/Reply are about replies.
--   Pdu: node.cpp's handle_pdu. Pdu/Bounds is about its first checks, Dispatch has its way to the
--     handlers, Checked is about which messages reach them.
--   Message: utils/msg_utils and the header that peer_send_message writes.
-- Functions keep the names of the source in each file; the files called Examples hold tests.
--
-- A buffer is a list of numbers below 256; a read past its end gives 0 and a write past it is lost,
-- where the source has undefined behaviour. Integers are natural numbers with their wrap-around
-- written out. A thrown exception, and the answer false of a function that changes a frame, is none.
-- The Botan, bfc and cum libraries are parameters: records of functions, with records of documented
-- behaviour as hypotheses. The clock, random keys and the numbers of new timers are arguments.
-- The loop over blocks in ctr_xor has the length of the data as its fuel, the search of a creation id
-- the number of contexts, and the loop that chooses a peer to ask the number of candidates; the last
-- two are proved to be enough. The loop over a peer's pending transactions has a weight of them, which
-- is enough too, as a transaction adds one of less weight than its own.
--
-- Not modelled: sockets and transports, the console's commands and its server, start-up, logging, the generated message
-- codec, handle_beacon, and the seeding and refresh of network keys.
pub mod Base
pub mod Frame
pub mod Security
pub mod Dh
pub mod Network
pub mod Pdu
pub mod Message
pub mod Peer
pub mod Routes
pub mod Topology
pub mod Identities
pub mod Console
pub mod Query
pub mod Links
pub mod Renewal
pub mod Procedure
