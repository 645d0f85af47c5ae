-- ===== src/Lib.antt =====
-- A storage ring: nodes connected in a ring elect the node with the largest id as their index. The
-- index cuts a file that a client creates into fragments, sends each fragment to two nodes, and
-- has them delivered to the node that a client asks for the file. A node that loses its backward
-- peer sends a notice of the death round the ring, and a new index rebuilds what the old one knew
-- from the reports of the others. The model is of the node's C code; the parts and their files are
-- these.
--
--     FileServer  lib/fileserver/fs.c, fs.h: the containers of the files that a node knows, with
--                 the two fragments it keeps of each (xfileserver_*).
--     NetIndex    lib/fileserver/fni.c: the index's linked list of files and of the nodes that have
--                 their fragments (xfilenetindex_*), over a heap whose positions are the pointers.
--     Address     lib/nettypes.c, nettypes.h: addresses, and their text.
--     Args        lib/args.c: the command line (parse_args).
--     Start       main.c up to its loop, and server_init with the text of the command line.
--     Packets     lib/server/server.h, server.c: the packets (xPacket, xpacket_*).
--     Dialogue    lib/machine/procedures.c, xprocedure_send_*: what a node says on a connection that
--                 it opens, and how it goes on from the answers.
--     Server      lib/server/server.c, server.h: the record of a node, server_init and the
--                 operations on it (server_set_state, server_is_valid_node and others).
--     NewFile     main.c, SERVER_INDEX_HANDLE_NEW_FILE: cutting a file and choosing nodes; it adds
--                 the file to FileServer and NetIndex.
--     Transfer    lib/tcplib.c, tcp_send; lib/server/server.c, server_send_large_buffer_to and
--                 server_wait_large_buffer_from.
--     FanOut      main.c, SERVER_INDEX_FANOUT_FRAGMENTS: the entries of NewFile become deliveries,
--                 each cut by Transfer.
--     Store       main.c, TYPE_STORE_FRAGMENT, SERVER_WAITING_RAW_PACKETS, SERVER_RECEIVED_FRAGMENT:
--                 what a node does with a delivery, and how a new file reaches the index.
--     Request     main.c, SERVER_INDEX_REQUEST_FRAGMENTS and TYPE_REQUEST_FRAG: the index picks a
--                 node for each fragment and has it delivered, by Dialogue.
--     Reassembly  main.c, SERVER_WAIT_REQUEST_FRAGMENTS: the fragments of a file become its buffer,
--                 from the connections that Dialogue opens to the answer to the client.
--     Rebuild     main.c, the reports of SERVER_BEGIN_OPERATION and SERVER_REPORT_KNOWLEDGE_TO_INDEX,
--                 and xprocedure_save_file_to_index of lib/machine/procedures.c.
--     Ring        lib/machine/procedures.c, server_healthcheck and xprocedure_check_peer_b.
--     Gossip      main.c, the states from SERVER_BOOTING to SERVER_WAIT_INDEX_GOSSIP: how the nodes
--                 connect and learn who is the index.
--     Machine     main.c, SERVER_IDLE, SERVER_RECEIVED_PACKET, SERVER_REPORT_KNOWLEDGE_TO_INDEX and
--                 SERVER_INDEX_WAITING_PEERS_KNOWLEDGE: what a node does with what comes in, and
--                 what the states pass on in the union machine_state. Machine/Step: the loop of
--                 main, with the handlers of all parts as the steps of a node.
--     Text        what the code uses of string.h, and of atoi, sscanf and snprintf.
--     Prelude     shared names, Boolean tests, lists and blocks of memory.
--     Examples    each theorem at a concrete input.
--
-- A null pointer, an access outside an array, a division by 0 and an int that overflows are `none`
-- (in Transfer `fault`). An unsigned integer of w bits is a natural number, with the remainder
-- modulo 2 ^ w written where the code can leave the range. Allocation succeeds but where a
-- definition takes the answer as an argument. What a system call returns is an argument too: the
-- results of send, the packets that recv gives, the descriptor of tcp_open, the time.
--
-- Loops are by recursion on the number of rounds that the code computes before the loop. The
-- search of NetIndex has as fuel the number of nodes on the heap, which is enough on a well-formed
-- list; the loop over dead addresses in NewFile has known_peers + 1 rounds, which is enough
-- because it stops at known_peers.
--
-- A packet is its fields, and its content the member of the union that the sender writes; a read
-- of a member that does not go with the type is a fault of the model. A connection is the list of
-- what comes in on it. Where a theorem says that the network keeps the packets apart, each call of
-- recv gives the bytes of one call of send.
--
-- The union machine_state is the member that was written last, which is what a round starts from.
-- The rounds of TYPE_CREATE_FILE and TYPE_STORE_FRAGMENT read from_fd of StateReceivedPacket again
-- behind their writes of StateRawPackets: the model compares the offsets of the two
-- (Machine/Taken, from_fd_left).
--
-- Not modelled: printing and logging, the layout of the packets in bytes, closing of sockets where
-- nothing depends on it, and the client.
pub mod Prelude
pub mod Text
pub mod Address
pub mod Args
pub mod Server
pub mod Start
pub mod Packets
pub mod Dialogue
pub mod FileServer
pub mod NetIndex
pub mod NewFile
pub mod Transfer
pub mod FanOut
pub mod Store
pub mod Request
pub mod Reassembly
pub mod Rebuild
pub mod Ring
pub mod Gossip
pub mod Machine
pub mod Examples
