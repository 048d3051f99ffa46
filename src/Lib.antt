-- ===== src/Lib.antt =====
-- The packet-steering daemon of this repository: it takes frames from a network card, asks its
-- rules what to do with each, forwards some of them to a guest under a rewritten destination
-- address, counts the flows it sees, and takes messages with rules from a management platform.
--
-- The parts and their files. A thread receives frames and calls `packet_intercept`
-- (userspace/daemon/packet.c: Packet/Handle.antt on the buffers of Packet/Buffer.antt), which
-- asks the list of converted addresses, the duplicate rule and the forwarding rules in this
-- order (userspace/daemon/vsecplat_policy.c). The rules are C strings (Policy/Text.antt) in JSON
-- objects (userspace/daemon/rte_json.c: Json.antt, with Access for members, Parse for reading a
-- text and Persist for writing one below it) that are read into lists of address and number
-- entries (Policy/Objects.antt with Parse and Match below it, Policy/Rules.antt), kept in a list
-- with the addresses that they convert to (Policy/Store.antt), and asked for a verdict
-- (Policy/Forward.antt). Policy/Duplicates.antt is the rule against duplicate packets, and
-- Policy/Dispatch.antt one message of the platform (`vsecplat_parse_policy`); Policy/Load.antt
-- is its text, the answer, and the files that are read back when the daemon starts. A packet
-- that is not discarded is counted in a table of flows (userspace/daemon/vsecplat_record.c:
-- Record/Table.antt) by the hash of userspace/lib/nm_jhash.c (Record/Jhash.antt), and reported
-- from there in items (Record/Report.antt). Messages are encrypted by
-- userspace/daemon/tea_crypt.c (Crypt.antt), and come and go by userspace/daemon/msg_comm.c
-- (Connection.antt); userspace/daemon/vsecplat_config.c reads what the daemon is set to
-- (Configuration.antt). Frames come from and go to the rings of netmap (userspace/lib/nm_skb.c:
-- Rings.antt, Rings/Receive.antt, Rings/Send.antt). The handlers are called by the scheduler of
-- userspace/daemon/thread.c: Threads.antt on its linked lists, and Threads/Master.antt and
-- Threads/Master/Rounds.antt on what moves between them, with its specification in
-- Threads/Master/Plan.antt. Common.antt passes on the library's names and holds the lists, the
-- integers of fixed width and their bit operations. The other files hold lemmas about the file
-- that they stand below, but for Packet/Handle/Frame.antt, which says by the bytes of a frame
-- alone when it is to be sent, and Tests.antt runs at samples.
--
-- Correspondence. A C function is the function of its name; its loops and the arms of its switches
-- are the functions beside it. Structs are records and their lists are lists; global variables are
-- the state that an operation takes and returns (`Policies`, `Duplicates`, `Engine`, `Buckets`,
-- `Records`). Integers are natural numbers with the wrap-around of their width written out. `Run`
-- is the result of code that can leave its memory: `fault` stands for an access that C leaves
-- undefined. Pointers appear where a property depends on them: `handle` is the address of a node of
-- the list of converted addresses, and `TextPtr` tells whether the text of the duplicate rule was
-- freed. A loop is a recursion over a list or a counter, but for two. The calls of
-- `json_parse_value` and the functions that it shares its recursion with take fuel, `out_of_fuel`
-- where it ends: `rte_parse_json` gives three units for each byte and one more, since each of at
-- most three nested calls passes over a byte. The jumps of `nm_recv` back to its label take fuel,
-- `spent` where it ends: one unit for each descriptor and one more, since each jump clears the
-- event of a descriptor. The loops over a list of threads take the count of the list as fuel, which
-- is its length, and `thread_fetch` runs over a list of rounds and waits where it ends.
--
-- Parameters are what the C library does: `inet_aton`, the value that its output has before the
-- first call (`addr`), the printing of floats (`show_float`) and of addresses (`inet_ntoa`), the
-- clock (`now`), and the address of the output device; the arithmetic of `float` (`FloatOps`), with
-- what single precision keeps exact (`ExactBelow`); the functions of netmap's header (`RingOps`),
-- the effect of `NIOCTXSYNC` (`txsync`) and the result of `poll` (`Polled`); what `gettimeofday`
-- and `select` give (`Round`), what `read` gives (`Incoming`), and the address of a new thread
-- (`fresh`); and what lies in memory behind the text of a file (`beyond`).
--
-- Left out. Memory is always allocated, and files are always opened and written in full. An
-- operation holds its mutex over all it does and is one step. `atoi` keeps numbers beyond the range
-- of int, and the parser the exponent of a number. The union of a thread is two fields, a
-- descriptor and a time; `exceptfd`, which nothing sets, is left out, and so are descriptors from
-- `FD_SETSIZE` on. Times are counted from 1970 and do not leave their type. The set-up of sockets,
-- the sending of reports, and the set-up of the network devices are not modelled, nor are the
-- drivers, which are copies of other projects.
pub mod Common
pub mod Crypt
pub mod Json
pub mod Policy
pub mod Packet
pub mod Record
pub mod Rings
pub mod Threads
pub mod Connection
pub mod Configuration
mod Tests
