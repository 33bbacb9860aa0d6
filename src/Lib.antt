-- ===== src/Lib.antt =====
-- A software router: it receives Ethernet frames from a virtual network server, answers ARP and
-- ICMP echo requests, forwards IPv4 datagrams by the longest prefix, and keeps a cache of
-- hardware addresses with a queue of the datagrams that wait for one.
--
-- Parts, and the files that model them (paths from the repository's root):
--   Memory, Protocol    buffers and the packed structs of sr_protocol.h
--   Checksum            cksum of sr_utils.c, and its uses
--   Text                the string functions the code uses
--   Instance, Outcomes  the structs of the state (sr_router.h, sr_if.h, sr_rt.h, sr_arpcache.h)
--                       and how a run ends
--   Interfaces          sr_if.c, with its printing in Interfaces/Print
--   Routing             sr_add_rt_entry of sr_rt.c, sr_findLPMentry of sr_router.c,
--                       sr_verify_routing_table of sr_main.c
--   Routing/Load        sr_load_rt of sr_rt.c; Routing/Print, sr_print_routing_table
--   ArpCache            the table and the queue of sr_arpcache.c, and its dump
--   Send                sr_send_packet and its checks in sr_vns_comm.c
--   Icmp                the ICMP error messages of sr_router.c and sr_arpcache.c
--   ArpRequest          sr_arpcache_handle_arpreq, sr_arpcache_sweepreqs and
--                       sr_arpcache_timeout of sr_arpcache.c
--   Blacklist           ip_black_list of sr_router.c
--   Handler             sr_handlepacket of sr_router.c
--   Hardware            sr_handle_hwinfo of sr_vns_comm.c
--   Server              what sr_read_from_server_expect of sr_vns_comm.c does with a message, and
--                       the loop of sr_main.c over messages
--   Server/Receive      its receive loops; Server/Read, the function as a whole, with
--                       sr_handle_rtable, and the loop of sr_main.c over a socket
--   Vns                 the messages of vnscommand.h as sequences of bytes
--   Auth                sr_handle_auth_request and sr_handle_auth_status of sr_vns_comm.c
--   Connect             sr_connect_to_server of sr_vns_comm.c
--   Log                 sr_dumper.c and sr_log_packet of sr_vns_comm.c
--   Print               the functions of sr_utils.c that print headers
--   Main                main and its helpers in sr_main.c, and sr_init of sr_router.c
--   Run                 runs of the router: frames and rounds of the timeout thread in any order
--   Tests               a router with three interfaces, frames for it, and the theorems there
-- A function of the code has its name here; the branches of sr_handlepacket are functions of
-- their own (handle_ip, handle_local, handle_transit, handle_arp, deliver, ...).
--
-- State. `Sr` holds the interface list, the routing table, the cache, and the messages written
-- to the server. A packet is its buffer, a function from offsets to bytes, and its length. A
-- multi-byte field is loaded and stored little-endian, as the host does, and htons and htonl
-- swap. The nodes of the request queue carry their addresses, so that an access to a node that
-- was freed is a fault. The operations return the new state, or a fault: a null pointer, a freed
-- node, a failed assertion.
--
-- Bounds and fuel. Bytes, 16-bit and 32-bit words wrap as in the code. The checksum theorems are
-- for at most 65536 bytes, as its 32-bit sum cannot overflow there; a frame of the server is not
-- longer. The recursion of sr_arpcache_handle_arpreq has no bound in the code, so it takes fuel;
-- a call that does not give a request up needs one unit, and the theorems on it are for every
-- fuel above. A call that gives one up needs no more if the sources of the waiting packets are
-- known (ArpRequest/GiveUp), and more than any fuel if one of them is the address asked for
-- (ArpRequest/Endless).
--
-- Faults. A run ends in a fault at a null pointer, a freed node, a failed assertion, a write past a
-- block, and where a message shorter than its header makes the code read past it. The 28 bytes that
-- an ICMP error quotes are no fault where a frame of 34 to 41 bytes holds fewer; the theorems on
-- whole sessions ask for frames of 42.
--
-- The outside. The socket is the list of what the calls of recv and read meet: bytes that arrive
-- together, signals, failures. A file is its content. SHA-1 (sha1.c, a copy of another project's
-- library), inet_aton, inet_ntoa, inet_ntop, ctime and atoi are parameters, and so is what the
-- operating system answers: the clock, malloc, getpwuid, the name service, the socket calls.
--
-- Not modelled. The messages on the terminal other than the headers and the tables, sha1.c, and
-- the closing of the log. The lock is held by each cache operation from start to end, so each is
-- one step; a call of sr_handlepacket and a round of the timeout thread are not interleaved, and a
-- run of main is that of its own thread. The clock is read once in a call. What `malloc` returns
-- in sr_handlepacket is a parameter, the same for each call, and an allocation succeeds there; the
-- receive loop and the authentication have its failure. A text that fills its array without a zero
-- ends with the array. The log has no place in the router's state: the calls that write it only
-- read the packet.
pub mod Base
pub mod Memory
pub mod Protocol
pub mod Checksum
pub mod Text
pub mod Instance
pub mod Outcomes
pub mod Interfaces
pub mod Routing
pub mod ArpCache
pub mod Send
pub mod Hardware
pub mod Icmp
pub mod ArpRequest
pub mod Blacklist
pub mod Handler
pub mod Run
pub mod Log
pub mod Connect
pub mod Main
pub mod Vns
pub mod Auth
pub mod Server
pub mod Print
mod Tests
