-- ===== src/Lib.antt =====
-- flua-ck: Concurrency Kit for Lua. Lua states on several threads share containers, and the values
-- in them are serialized, because no Lua value can belong to two states.
--
-- The parts, and how they work together. A container is a C struct with a reference count
-- (refcount.h); each Lua state holds it through a userdata whose cookie is the struct's address
-- (common.h). To put a value in, a container writes it into a buffer (serdebuf.c, with the types
-- of serde.h), cuts the buffer to its size and passes the block's address to a container of
-- Concurrency Kit (ring.c, fifo.c). To take a value out, it gets an address, loads the value
-- (`loadshared` of serde.c) and frees the block.
--
--   Base        names of the libraries, tests on numbers, lists, little-endian words
--   Memory      malloc, rallocx and free; which requests are granted is left open
--   Serdebuf    serdebuf.c, serdebuf.h: the growing buffer. Bounds: its sizes. Append, Compose: what
--               a step that writes may do, and how steps add up
--   Value       serde.h: values, types and type codes
--   Serialize   serdebuf.c: serdebuf_init, serdebuf_serialize. Format: the bytes of a value, said
--               without a buffer. Refine: the code against the format. Custom: methods that write
--               to a stream
--   Load        serde.c: loadshared. Slots: the loop over upvalues. Inverse, RoundTrip: the code
--               against the format. Faithful: which functions come back as they were
--   Marshal     the part of the enqueue functions that makes a block of a value. Cases: all of its
--               outcomes. Total: that it succeeds
--   Handle      common.h, refcount.h: userdata, cookies and counts. Counted: the invariant. Twice:
--               __gc called twice. Methods: a method on a checked userdata.
--               Other: a userdata of another metatable. Makes: what new and retain give
--   Transport   the end of the dequeue functions. Encoded: what they answer for the bytes of a value
--   Ring        ring.c. Kinds: the registered functions, under their C names. Contents: what a ring
--               holds. Enqueue, Dequeue, RoundTrip, Lifetime: theorems
--   Fifo        fifo.c. Spsc, Mpmc: the registered functions, under their C names. RoundTrip,
--               Blocks: theorems
--   Struct      sequence.c, ec.c: new and __gc of a container with no other block. Made: what new makes
--   Sequence    sequence.c, under the C names. Versions: when a reader has to retry
--   Ec          ec.c, under the C names. Counting: add and value
--   Atomic      pr.h: operations, classes, types, lists. Macros: which macros exist. Tables: the lists
--               against the macros. Pr128, Pr128.Tables: the same for the 128-bit operations
--   Cell        shared.c: shared.pr. Laws: what ck_pr and liblua promise. Effect: what each method is to
--               do, said without the classes of the macros. Performs: the bodies do it. Outcome, Pairs,
--               RoundTrip, New: theorems
--   Shared      shared.c: shared.const, and what shared.mut shares with it. Made: a serialized value.
--               Loads, Lifetime: theorems
--   Hazard      shared.c: load, store and __gc of shared.mut as steps of many threads, a relation.
--               Invariant, Kept: what every step keeps. Safety, Progress, Unordered,
--               Nested: theorems
--   Cache       serde.c: cache_serde. Pairs: the serialized methods. Entries: hash table, array and
--               registry together. Insert, Types: theorems. Custom: the case of a
--               custom type in loadsharedimpl. Custom.Reload: a theorem. Lifetime: how the table's
--               memory is freed, and the destructor
--   Wide        shared.c: shared.pr128, and elements of its views. New: new. Whole: all
--               elements of a view. Bounds, Initial, Swap: theorems
--   Custom      serdebuf.c, serde.c: an object with methods, through serdebuf_serialize with the cache, and
--               through loadshared. Sent, RoundTrip: theorems
--   Records     shared.c, serde.c: the records of Concurrency Kit that a Lua state keeps in its registry.
--               Apart: the invariant of the records. Twice: theorems on the epoch records
--   Methods     the tables of methods and functions that the modules register, and how Lua finds a method
--               of a userdata. Open, Functions: the tables. Refuse, Kinds: theorems. Views: the
--               metatables of 128-bit cells. Views.Reached, Views.Drawing:
--               theorems
--   Examples    concrete machines, values, rings and queues, and the theorems applied to them
--
-- State is passed explicitly: a step of the serializer takes and returns the `struct serdebuf`
-- with the allocator (Serdebuf.State), a method of a container takes and returns a Handle.World,
-- which is the allocator, the structs by address and the userdata. Errors are values: Status for
-- an `int` result, Handle.Answer for what Lua sees. An access to a freed struct, or a write behind
-- the end of Lua's stack, is the answer `fault`. Pointers are block numbers that are never used
-- twice. Sizes are 64-bit words, and their wrap-around is written out. The code is read for a
-- 64-bit machine with little-endian words.
--
-- Parameters stand for code that is not in the repository: the sizes of a cache line and a page
-- (Md), liblua's dump and load of prototypes (Lua), ck_ring, ck_fifo, ck_sequence, ck_ec, ck_pr,
-- ck_ht, ck_hp and ck_epoch. Ring.Contents has the laws of ck_ring that are used: it is a queue,
-- as long as one thread uses it at a time. Those of the others are in Fifo.RoundTrip,
-- Sequence.Versions, Ec.Counting, Cell.Laws, Wide.Whole.Swap, Cache.Entries and Records;
-- Cell.Effect has those of the conversions of liblua.
--
-- Fuel: loadsharedimpl calls itself on the values inside a closure. `loadshared` gives it fuel for
-- one level more than the block has bytes, which is enough, since a closure has at least five
-- bytes before the values inside it.
--
-- Serialize and Load take the cases of objects with a custom serde as parameters; Custom is these
-- cases, with the cache.
--
-- Not modelled: the errors of serialize in the store of shared.mut, and its row in the tables of
-- methods, the tables that luaopen functions give to Lua, but for ck.ring, luaopen_ck_serde,
-- init_serde_cache, whose steps are calls of Concurrency Kit, l_ck_ec_deadline and the system
-- calls behind ck_ec_ops, pr.c (fences, which have no state), lua_ck.c, Lua's own errors when it
-- runs out of memory, and the interleaving of threads inside a container of Concurrency Kit. In
-- Hazard, memory is sequentially consistent but for the store of a hazard pointer, which may
-- become visible late. An assertion that fails is an outcome of its own in Cache and Custom;
-- elsewhere the assertions are of types that the code before them has made sure of.

pub mod Base
pub mod Memory
pub mod Serdebuf
pub mod Value
pub mod Serialize
pub mod Load
pub mod Marshal
pub mod Handle
pub mod Transport
pub mod Ring
pub mod Fifo
pub mod Struct
pub mod Sequence
pub mod Ec
pub mod Atomic
pub mod Cache
pub mod Custom
pub mod Records
pub mod Methods
pub mod Shared
pub mod Cell
pub mod Hazard
pub mod Wide
mod Examples
