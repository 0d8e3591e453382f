-- ===== src/Lib.antt =====
-- Frisbee distributes disk images by multicast: a server sends the blocks of an image, chunk by
-- chunk, to clients that ask for what they miss; imagezip makes images of the allocated sectors
-- of a disk; libndz reads and changes them. A small daemon beside them lets programs wait for
-- each other at barriers. This library models the parts that decide what is sent, what is stored
-- and what is allocated. A block map says which of the 1024 blocks of a chunk a client lacks or
-- the server has to send. The server checks a request packet, adds its map to the work queue,
-- and takes one run of blocks after another from the queue to send. The sizes of chunks and
-- blocks and the arithmetic on times are shared by server and client. A client keeps the blocks
-- of a chunk in a buffer until it has all of them; then its main thread writes the chunk and
-- frees the buffer. The range lists of imagezip turn free sectors into the ranges to save; the
-- range map of libndz holds the allocated address ranges of an image.
--
-- The files, and the code that each is about:
--
-- - Base: shared names, Boolean tests, lists, bits of a byte, 64-bit words, signed numbers.
-- - BlockMap, BlockMap/Scan: src/frisbee.redux/utils.c, one function for each of `BlockMapInit`
--   to `BlockMapApply` under the name without its prefix; loops are functions named after the
--   operation with _loop or _byte. BlockMap/Bits reads a map as a set of blocks; BlockMap/Update
--   and the children of Scan are the proofs, Scan/Runs the reference for `BlockMapApply`.
-- - WorkQueue: src/frisbee.redux/server.c, `WorkQueueEnqueueJoin`, `WorkQueueEnqueueChunk`,
--   `WorkQueueDequeue`, `ClientEnqueueMap`, `ClientRequest`, `ClientPartialRequest`.
--   WorkQueue/Valid has the invariant and the set of blocks asked for; WorkQueue/Enqueue,
--   WorkQueue/Dequeue and WorkQueue/Request are the proofs.
-- - Clients: src/frisbee.redux/server.c, `ClientJoin`, `ClientLeave`, `ClientLeave2`,
--   `findclient`; Clients/Report: `ClientReport`; Clients/Laws has the proofs.
-- - Client: src/frisbee.redux/client.c, `RequestStamp`, `RequestRedoTime`, `RequestMissing`,
--   `RequestRange`, `RequestChunk`; Client/Receive: `GotBlock` and the write of a chunk;
--   Client/Threads: `ChunkerStartup` and what `ClientRecvThread` does with a message, as steps
--   of two threads; Client/Loop: the counters of `ClientRecvThread`. Client/Valid has the
--   invariant, Client/Outcome what a block does; Client/Requests, Client/Rounds, Client/Insert,
--   Client/Turns, Client/Kept, Client/Search, Client/Got, Client/Slots, Client/Write,
--   Client/Steps, Client/Begin, Client/Reach, Client/Finish, Client/Asks and Client/Pace are the
--   proofs.
-- - Barriers: src/syncd/emulab-syncd.c, `handle_request`, `remove_tcpclient`, `remove_barrier`,
--   `release_client`, `clear_barriers`; Barriers/Laws, Barriers/Leave and Barriers/Cross are the
--   proofs.
-- - Burst: src/frisbee.redux/server.c, `calcburst`.
-- - Packet: src/frisbee.redux/network.c, `PacketValid`.
-- - Sizes: src/frisbee.redux/utils.c, `InitSizes`, `ChunkSize`, `ChunkBytes`, `BlockSize`.
-- - Clock: src/frisbee.redux/utils.h, `pasttime`, `addtime`, `subtime`, `addusec`.
-- - Rangemap, Rangemap/Update, Rangemap/Query, Rangemap/Iterate: src/imagezip/libndz/rangemap.c,
--   the operations under the names without `ndz_rangemap_`. Rangemap/Chain and Rangemap/Search
--   have what lists of ranges satisfy and the search; Rangemap/Place, Rangemap/Alloc and
--   Rangemap/Dealloc with their children are the proofs.
-- - Ranges: src/imagezip/imagezip.c, `addskip`, `addvalid`, `sortrange`, `mergeranges`,
--   `mergeskips`, `makeranges`, `sectinranges`; Ranges/Sort, Ranges/Merge, Ranges/Skips and
--   Ranges/Make are the proofs.
-- - Tests, Tests/Client, Tests/Daemons, Tests/Iteration: the theorems at concrete inputs.
--
-- Bounds and fuel. The loops over a map run over its 128 bytes and the 8 bits of each.
-- `add_loop`, `clear_loop` and `is_alloc_loop` take as fuel the count of blocks, of which each
-- round takes at least one. `carry_loop` takes as fuel the microseconds, of which each round
-- takes a million. `sort_loop` takes `passes`, more than the pairs of ranges in the wrong order,
-- of which each pass but the last removes one. The loops of the client are over its buffers and
-- its list of requests. The steps of its two threads do not overlap. The search and the updates
-- of a range map are by recursion on its list; the iteration over it takes as fuel two rounds
-- more than its highest address. 64-bit arithmetic wraps around where the code's does; `int`
-- variables that the code keeps small are numbers, among them the counts of blocks and chunks of
-- an image, which `InitSizes` keeps in `int`s that hold them for images of less than 2^41 bytes.
--
-- The multiplication in floating point of `calcburst` is a parameter, of which the theorems
-- assume that it does not increase.
--
-- Not modelled: sockets, threads, files, compression and logs; statistics; the client's option
-- parsing, its join and leave handshake and its progress reports, the fixups of imagezip, the
-- file system scanners, the master server and the other tools of the repository.
pub mod Base
pub mod BlockMap
pub mod WorkQueue
pub mod Clients
pub mod Packet
pub mod Sizes
pub mod Clock
pub mod Rangemap
pub mod Ranges
pub mod Client
pub mod Barriers
pub mod Burst
pub mod Tests
