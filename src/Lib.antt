-- ===== src/Lib.antt =====
-- A verification library for go-merklelog: the Merkle Mountain Range (MMR) of the mmr package, the
-- trie of the urkle package, the filters of the bloom package, and, of the massifs package, the
-- pieces of a log with their index, and the generator of ids.
--
-- The program. A log is a list of nodes in post order: the leaves, and behind every two trees of
-- one height the interior node that joins them. The mmr package computes with the indices of the
-- nodes (heights, siblings, peaks), appends leaves through an interface to a store, builds proofs
-- that a node is in a log or that a log extends another, and verifies these proofs against the
-- values of the peaks, the nodes that have no sibling yet. The massifs package stores a log in
-- pieces behind that interface, and keeps beside it an index from keys to leaves: the trie
-- of the urkle package, in a table of leaf records and a store of node records, and the four Bloom
-- filters of the bloom package in one region of bytes, behind a header.
--
-- Numbers. A uint64 is a native ℕ, and each operation that can wrap around is written with its
-- `% 2 ^ 64` (Base/Words: add64, sub64, shl64, shr64). A byte is a number, a []byte a list of
-- them. A (value, error) pair is a `Result` (Base/Results) whose other ends are the run-time panic
-- of an index out of range and the end of the model's fuel.
--
-- A slice is as long as its backing array (Base/Buffers). A call that writes a region returns
-- the new region beside its result.
--
-- Outside the repository. The parsers of the net package are parameters (a record of functions
-- in Massifs/Snowflake/Worker), and the clock is an argument of each step that reads it.
-- SHA-256 in the bloom and massifs packages and the hasher of the urkle package are parameters.
-- The hash of the mmr package is a parameter: a function from the bytes written since the last
-- reset to the digest (Mmr/Hasher); where a theorem needs a digest of one size it says so. The
-- store is a parameter: Mmr/Store has the interface with the documented laws of Get and Append.
-- The object store behind the massifs is a parameter of Massifs/Reader, and Massifs/Reader/Committed
-- names what its theorem takes of one.
--
-- Files and code.
--   Mmr/IndexHeight: mmr/indexheight.go, mmr/bits.go, mmr/size.go. IndexHeight, PosHeight,
--     JumpLeftPerfect, SiblingOffset and the others; Shape, Steps and Children have their laws.
--   Mmr/Tree: the perfect tree that the indices number, independent of the code.
--   Mmr/Mountains: the division of a log into perfect trees, independent of the code.
--   Mmr/Errors, Mmr/Hasher, Mmr/Store: errors, mmr/hashpospair.go, mmr/hashwritevalue.go, the
--     interfaces of mmr/storegetter.go and mmr/add.go, and the well-formed logs.
--   Mmr/Add: AddHashedLeaf of mmr/add.go.
--   Mmr/Peaks: mmr/peaks.go, mmr/leafcount.go, mmr/firstmmrsize.go.
--   Mmr/Proof: InclusionProof and InclusionProofPath of mmr/proof.go, IncludedRoot of
--     mmr/includedroot.go.
--   Mmr/Verify: mmr/verify.go and the peak selection of mmr/proof.go.
--   Mmr/Consistency: mmr/proofofconsistency.go, mmr/consistentroots.go,
--     mmr/verifyconsistency.go.
--   Bloom/Sizing: bloom/types.go, bloom/sizing.go. Bloom/Header: bloom/header.go; Roundtrip and
--     Decoded have its laws. Bloom/Filter: bloom/bloom4.go; Bits, Places, Insertion, Members and
--     Overflow have its laws.
--   Urkle/Errors: urkle/types.go and the error of urkle/ordinal.go. Urkle/Hash: urkle/hash.go,
--     urkle/bit.go.
--   Urkle/Records: urkle/leafrecord.go, urkle/noderecord.go. Urkle/Proof: the verifiers of
--     urkle/proof.go; Paths, Accepted and Exclusive have their laws. Urkle/Prove: its provers;
--     Rounds, Complete and Verified have theirs.
--   Urkle/Frontier: urkle/frontier.go; Frames, Roundtrip and Decoded have its laws.
--   Urkle/Builder: urkle/builder.go; Insert has its methods, Keeps and Recorded their laws.
--   Mmr/Leaves: mmr/mmrindex.go, mmr/spurs.go, mmr/ancestors.go, mmr/powof2.go; Numbering, Spurs,
--     Sizes, Carry, Stack and Growth have their laws.
--   Massifs/Snowflake: massifs/snowflakeid. The file itself has NextID as the steps of threads on
--     one shared word; Worker has privateip.go, Create has NewIDState, Time has idtime.go and
--     massifs/idtimestamp.go; Words, Unique, Generator, Safety, Alone and Encoded have their laws.
--   Urkle/Sizing: urkle/sizing.go, urkle/massifheight.go, urkle/mmrindex.go.
--   Urkle/Views: urkle/indexview.go, urkle/key_api.go, urkle/ordinal.go, urkle/keyfields.go; Lookup
--     has the law of the key lookup.
--   Massifs/Errors: massifs/errors.go. Massifs/Layout: massifs/logformat.go,
--     massifs/indexformat_v2.go, massifs/heightindex.go, massifs/massifindex.go. Massifs/Start:
--     massifs/massifstart.go; Roundtrip and Front have its laws.
--   Massifs/Context: massifs/massifcontext.go, massifs/peakstack.go. A method on a pointer is a
--     function that returns the context behind the call. Append has AddIndexedEntry, the next
--     massif, the first massif of massifs/massifappendcontext.go, and massifs/indexinit_v2.go;
--     Index, Update and NextId have massifs/indexops_v2.go; PeakMap, Stored, Reads, Grow,
--     Regions, Init, First and Fill have their laws. Reads makes a context a store of the mmr
--     package, where the values of the earlier massifs are a parameter; Fill has the first
--     massif from its creation on.
--   Massifs/Reader: massifs/massifreader.go, massifs/objectstore.go, and the other functions of
--     massifs/massifappendcontext.go; Committed has the laws of both.
--   Mmr/Tests, Bloom/Tests, Urkle/Tests, Urkle/BuilderTests,
--     Massifs/Snowflake/Tests, Massifs/Context/Tests, Massifs/Reader/Tests: runs, and the
--     theorems at concrete inputs.
--
-- Fuel. PosHeight shortens its position in every round, so 64 rounds are enough, and the loop
-- is proved to end within them. A climb in a log below 2 ^ 64 nodes has at most 63 levels, so
-- 64 rounds are enough for the proofs and for the back fill of AddHashedLeaf; that they end is
-- part of their theorems. Peaks has at most 64 rounds with a mountain and PeaksBitmap 64 with a
-- mask. The provers and the key lookup of the urkle package go down to smaller refs, so one
-- round more than the root's ref is enough; that they end is part of their theorems. The
-- builder closes frames while the depth, which each round lowers, is positive: one round more
-- than the depth is enough. NextIDTimestamp tries until there is a new id, and its fuel is an
-- argument.
--
-- Not modelled. The bagged and superseded proof forms of the mmr package, printing, and, of the
-- massifs package, the paths of stored objects, the replication, and the checkpoints and
-- receipts, whose CBOR and COSE codecs are third-party. A slice of a context's data that is
-- longer than its length, up to its capacity, is out of range here.
mod Base
pub mod Mmr
pub mod Bloom
pub mod Urkle
pub mod Massifs
