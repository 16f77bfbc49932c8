-- ===== src/Lib.antt =====
-- A TCP/IP node over an emulated network, as tcp_branch/ has it: IP with distance-vector routing, TCP
-- with sliding windows over it, and the socket calls on top. Paths are from the repository's root.
--
-- The parts, from the bottom, and the files that model them:
-- - Prelude and its children: numbers and their tests, lists, a signed integer, machine words, code
--   that may end the process (`none`: a failed assert, a null pointer, a read out of bounds).
-- - External: what the code uses and does not define, as records of operations with the laws that it
--   relies on: hash tables (htable.h), blocking queues (bqueue.h), checksums (checksum.h), the
--   network (van.h), the contents of allocated memory. External/Concrete has instances,
--   External/Queues what follows from the laws of the queues, Node/Sample a node for the tests.
-- - Cbuffer: tcp_branch/cbuffer.c and cbuffer.h. Each cell of the ring has a type (data, flag, end
--   mark) and a byte.
-- - Packet: the headers of tcp_branch/ippacket.h and tcppacket.h, `buildPacket` of van_driver.c and
--   `build_tcp_packet` of tcp.c. Multi-byte fields are little-endian, as on the hosts.
-- - Machine: tcp_branch/state.c. A state is a position in an arena, a function pointer is a name with
--   what a call does, and a client gives the context.
-- - Rtable, Socktable: tcp_branch/rtable.c and socktable.c over the hash tables, with the route
--   functions of van_driver.c. A pointer to an entry is its key, to a socket its number.
-- - Socket: `tcp_socket_t` of tcp_branch/tcp.h, notify.c. Node: `ip_node_t` of van_driver.h.
-- - Seq: tcp_branch/seq.c, the pointers of the two windows and the data between them.
-- - Tcpm, Tcp, Statefunc: tcp_branch/tcpstate.c, the sends of tcp.c, and statefunc.c: the states of a
--   connection, their transitions and the functions that these call, as a client of Machine.
-- - Driver, Router: the threads of tcp_branch/van_driver.c, each as a function for one round: TCP
--   input, watchdog and output; listener, sender, routing and link state.
-- - Api: the socket calls of tcp_branch/tcp.c. A call that waits is split at the wait.
-- - Older: cbuffer.c and seq.c of the root, which came before those of tcp_branch, and `v_read` and
--   `v_write` of tcp.c on top of them. Their indices and pointers are signed.
-- - System: `van_driver_init` and `v_tcp_init`, and every thread and call as a step of a running node.
-- - Stream: `v_write`, the threads of two nodes and `v_read`, composed.
-- - Text, Display, Menu: tcp_branch/fancy_display.c without its drawing, the numbers that it prints and
--   reads, and the keys of tcp_branch/ip_driver.c.
--
-- Below a part stand its proofs, in files named for what they are about: Keeps and Follows for what
-- functions leave alone, Sound for the table of sockets, Machine/Respects for any client of the state
-- machine; Router/Deliver, Forward and Segments for packets on their way between nodes;
-- Driver/Receive and Api/Transfer for data on its way to the user.
--
-- How they interact: a socket call or a TCP thread takes a socket from the node's table (Api, Driver),
-- runs seq.c on its pointers and `tcpm_event` on its machine, whose functions send through `tcp_sendto`
-- and `van_driver_sendto` into the node's queues, and stores it again. Router moves packets between the
-- queues and the network.
--
-- Unsigned arithmetic is written with its wrap-around. The fuel of `getDataFromBuffer` bounds its calls
-- of itself; more than the bytes that wait to be read is enough, and `v_read` gives one more than the
-- cells of the buffer. The fuel of `rtable_unserialize` is the length of the bytes, of which each round
-- takes 20.
--
-- Not modelled: drawing on the terminal, stopping threads, freeing memory, debugging output, and
-- the locks: each operation is one step. Of the files at the repository's root that
-- tcp_branch/ has newer copies of, only those named under Older are modelled.
pub mod Prelude
pub mod Cbuffer
pub mod External
pub mod Packet
pub mod Machine
pub mod Rtable
pub mod Socktable
pub mod Socket
pub mod Seq
pub mod Node
pub mod Older
pub mod Tcpm
pub mod Tcp
pub mod Statefunc
pub mod Driver
pub mod Router
pub mod Api
pub mod Text
pub mod Display
pub mod Stream
pub mod System
pub mod Menu
