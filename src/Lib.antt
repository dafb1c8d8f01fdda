-- ===== src/Lib.antt =====
-- Verification of UESIM, a 5G user equipment simulator in C. The repository holds one directory per
-- layer under src/: the radio protocol (src/protocol), the session layer above it (src/nas), shared
-- utilities (src/utils), and the application, its peers and its tools. What is modelled here are the
-- parts that carry user data and signalling through the UE.
--
-- - RingBuffer: src/utils/ring_buffer.c, the byte ring between two threads. A record for
--   `ring_buffer_t`, one function per C function; one round of the write or read loop is `write_chunk`
--   or `read_chunk`. Threads interleaves rounds of writers, which hold `head_lock`, and readers, which
--   hold `tail_lock`: locking with the look at the indices is one event, the copy with the index's
--   update another. Waiting for a condition is trying again.
-- - Per: src/protocol/asn1_per.c, the bit buffer, its primitive encoders and decoders, and the RRC
--   messages made of bit fields alone. An encoder takes and gives a buffer, a decoder takes the bytes
--   and the offset; a read past the bytes, which the C code does not test for, is the result `overrun`.
-- - QosFlow: src/nas/qos_flow.c, the flows of a session, an array of at most eight as a list.
-- - PduSession: src/nas/pdu_session.c, the sessions of a UE, each with a QosFlow manager and its data
--   radio bearers. A pointer to a session of the array is the session in the list; the operations that
--   take such a pointer (PduSession/Operations) take and give the session.
-- - Rlc: src/protocol/rlc.c, the entity's life cycle, its segmentation and reassembly, its queues, and
--   the two windows of the acknowledged mode. The member of the C union that an entity's mode selects is
--   a constructor of `Buffers`; the use of another member is `none`.
-- - Sdap: src/protocol/sdap.c, the table that maps a session's flows to its bearers (Sdap/Table), data
--   PDUs (Sdap/Data) and control PDUs (Sdap/Control). Refine states the table's contract as a finite
--   map, Refinement that the code keeps it.
-- - Pdcp: src/protocol/pdcp.c, the entity that numbers, protects and ciphers the packets of a bearer
--   (Pdcp/Data), its counts, its header, and packets sent in a row (Pdcp/Sending). The algorithms are
--   the fields of the record `Crypto`; what a theorem relies on of them, it takes as a hypothesis.
-- - Rrc: src/protocol/rrc.c, the states of the connection, the handlers of the network's messages, and
--   the procedures (Rrc/Procedures) with their retries and waits. An attempt of a procedure is a record
--   of what the transport and the network do in it; the messages that the receiving thread handles while
--   the procedure waits are part of it. Execution and Runs follow the state through procedures and runs
--   of them, Attempts what the attempts of a registration do to a UE.
-- - Rlf: src/protocol/rlf_recovery.c, on top of Rrc: the counting of indications (Rlf/Sync), the timers
--   (Rlf/Timers) and the recovery. In Rlf/Sync a call knows whether its thread holds the context's
--   mutex, and a lock of a mutex that is held is `blocked`.
-- - Memory: src/core/memory.c, the pool that the program allocates from. Rows of calls and the blocks
--   they take are in Memory/Blocks. The other parts do not depend on it: what their allocations answer
--   is an argument of theirs.
-- - Resources: src/core/resource_tracker.c, the table of what the program has allocated. Operations has
--   its functions, Runs rows of their calls, Full the table's end. What the system is asked to close or
--   to free is a result of the operation.
-- - Common: Boolean tests, lists indexed by native numbers, searches in arrays, bits, and the return
--   codes of src/uesim.h.
--
-- Integers are natural numbers with the width's remainder written out wherever the C type can wrap.
-- Pointers are values that are there: the branches that answer a NULL argument with `invalid_param`
-- before anything else happens are left out, except where NULL is an ordinary input (an optional
-- argument, an empty PDU list). What `malloc`, `pthread_mutex_init`, `pthread_mutex_lock` and `time`
-- answer are arguments. Log lines are left out. Offsets of the bit buffer assume that its capacity is
-- below 2^61, so that `bit_offset` does not wrap.
--
-- Fuel: `bit_width` has 64 rounds for a value of at most 64 bits. The loop that advances VR(R) takes
-- its fuel as an argument, and Rlc/RxWindow shows when it ends and when it does not. The loop of
-- attempts in Rrc/Procedures has the four rounds of the source. Every other loop is a structural
-- recursion.
--
-- Not modelled: the messages of asn1_per.c with octet strings; the receive function of the
-- acknowledged mode with its status PDUs, polling and dequeueing in rlc.c; the message coding of
-- rrc.c, measurements and system information (rrc_meas.c, rrc_si.c); the derivation of keys in pdcp.c;
-- MAC and the physical layer; the interface messages and ciphers of src/protocol; mobility and slicing
-- of src/nas; and everything that is sockets, files, terminals or test peers (src/core, of which only
-- the pool, the resource tracker and the switch of the serving gNB are modelled, src/cli, src/config,
-- src/transport, src/mock_core, src/mock_gnb, src/mock_integration, src/benchmark).
pub mod Common
pub mod Resources
pub mod RingBuffer
pub mod Per
pub mod QosFlow
pub mod PduSession
pub mod Rlc
pub mod Sdap
pub mod Rrc
pub mod Rlf
pub mod Pdcp
pub mod Memory
