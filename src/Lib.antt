-- ===== src/Lib.antt =====
-- Verification of parts of typeberry, a TypeScript implementation of the JAM protocol: its binary
-- codec, the PVM interpreter's control flow and arithmetic, sorted arrays, the blob dictionary,
-- Merkle mountain ranges, the shuffle, the recent history, the assurances, the accumulation queue,
-- the disputes, Safrole, the authorization pools and the dummy finalizer.
--
-- How the parts meet. Blocks and state are written and read by the codec. Importing a block runs
-- the state transitions of packages/jam/transition, which keep their hashes in hash sets, shuffle
-- the validators and append to a mountain range; work reports are executed by the PVM. The importer
-- hands the hash of each imported block to the finalizer, which says whose state can be pruned.
--
-- Base: lists measured by native numbers, Boolean tests, bitwise lemmas, signed integers, powers.
--
-- Codec: packages/core/codec/encoder.ts and decoder.ts. `Encoder` holds what was written in place
-- of a buffer and an offset; `Decoder` is the source and the offset. A method is a function from
-- the state to an `Outcome`, with a thrown error as `err`. `put_*` are the methods of the encoder,
-- `get_*` those of the decoder. Codec/Stream says what it is to write and to read some bytes, the
-- files beside it that the methods do, Codec/Natural for `varU32` and `varU64`. Contexts and views
-- are not modelled, nor the descriptors built on top.
--
-- Pvm: packages/core/pvm-interpreter. Mask and JumpTable (program-decoder/), BasicBlocks
-- (basic-blocks/), Jumps (ops/branch-ops.ts, ops/dynamic-jump-ops.ts), Gas (gas.ts), Registers
-- (registers.ts, as a list of words), MathUtils and Ops (ops/math-utils.ts, math-ops.ts,
-- boolean-ops.ts, move-ops.ts), Alu (ops-dispatchers/three-regs-dispatcher.ts) and Branches (the
-- comparisons of ops/branch-ops.ts with their dispatchers). 32-bit and 64-bit
-- words are numbers with the wrap-around written out, and a signed 32-bit number is given by its
-- bit pattern where the code shifts it. Memory has the pages of memory/: a map from page numbers to
-- pages, each a row of bytes with the right to write, and the ranges of pages; Memory/Heap is
-- `sbrk`, with its exceptions as values. The loop over a range of pages is on fuel for all the pages that there can be. Signed
-- division, 32-bit multiplication, shifts, rotations, immediates, the memory builder and the main
-- loop are not modelled.
--
-- Collections: packages/core/collections/sorted-array.ts, over a comparator that orders by a rank,
-- sorted-set.ts, whose merge has its fuel from the lengths of both arrays and whose removal of
-- duplicates in place counts its rounds down, and blob-dictionary.ts: BlobKeys has the keys, their chunks and the numbers of chunks,
-- BlobDictionary the nodes, whose children are a list or a map, and the loops over the chunks of a
-- key. What a method changes in place is returned. The map from key objects to leaves that serves
-- `size` and the iterators is left out, as the identity of key objects is.
--
-- Transition: packages/jam/transition/accumulate/accumulate-queue.ts and authorization.ts, with the
-- sets of packages/core/collections/hash-set.ts as lists in the order of insertion. A hash is a
-- number. The loop of `enqueueReports` is on fuel; one turn more than there are reports is enough,
-- since a turn that finds a report ready takes it off the queue. The loop over the cores counts
-- down the cores; a read past the end of an array is `none`. RecentHistory is recent-history.ts,
-- with the aliasing of the block that the partial transition writes to, and the two calls of
-- chain-stf.ts. Its fuel is that of `getPeaks`. Assurances is assurances.ts, with an `Outcome` that
-- is a value, an error of the transition or an exception; Blake2b and the verification of signatures
-- are parameters, and the promise of the verification is a value, as nothing changes while it is
-- pending. Disputes is disputes/: its file has the data, the checks of the order and what is signed,
-- Disputes/Checks the loops that verify and prepare, Disputes/Updates the vote split, the new
-- records, the cleared cores and the transition. It has an `Outcome` as Assurances has, and the same
-- parameters; a work report is given by its encoding, a hash dictionary is the list of its entries,
-- and reading a verification result that is not there throws. Preimages is preimages.ts, with the services of the state and Blake2b as parameters.
--
-- Mmr: packages/core/mmr/index.ts. The array of mountains is a list from its end on; the hash
-- functions are parameters. The loop of `getPeaks` is on fuel: 32 turns, one for each bit of its
-- 32-bit counter and one to see the end, are enough for mountains of fewer than 2 ^ 31 hashes.
--
-- Finality: packages/workers/importer/finality.ts; the header database is the function
-- `parent_of`. The copies of a chain are values, as the code copies it too.
--
-- Shuffling: packages/core/shuffling/shuffling.ts; the hash function is a parameter.
--
-- Trie: packages/core/trie/nodes.ts and masks.ts. A node is the list of its 64 bytes; the hash of a
-- long value is a parameter.
--
-- Safrole: packages/jam/safrole/safrole.ts. Its file has the epochs, the entropies and the
-- validators, Safrole/Seals the seal keys, Safrole/Transition the tickets, the markers and the transition. Blake2b and the
-- Bandersnatch library behind bandersnatch-vrf.ts are parameters, and so are the encodings of the
-- markers, which are compared as bytes; the identifier of a ticket is a number, as a hash is. The
-- loops count down the slots of an epoch, or half of the tickets.
--
-- Tests: runs at concrete inputs.
--
-- Not modelled: networking, the database, RPC, the workers but for the finalizer, the host calls,
-- insertion into the trie and its root, erasure coding, the ticket pool, the reports, the accumulation
-- and the statistics, and the cryptography, which is native code that the repository only calls.
pub mod Base
pub mod Codec
pub mod Pvm
pub mod Collections
pub mod Transition
pub mod Mmr
pub mod Finality
pub mod Shuffling
pub mod Trie
pub mod Safrole
pub mod Tests
