-- ===== src/Lib.antt =====
-- A model of go-car: reading and writing content-addressable archives (CAR files), version 1 and 2,
-- and the indexes over them. A CARv1 is a header section, which names the root CIDs, and one
-- section for each block: the length as a varint, the CID, the data. A CARv2 is a pragma, a header
-- of 40 bytes, a CARv1 as its data payload, and an index behind it, with padding between them.
--
-- The parts and their files, each with its proofs in the folder of the same name:
--   Prelude      names of the libraries, tests on numbers, lists, 64-bit integers, bits, and Go maps
--                as association lists (Prelude/Assoc)
--   Bytes        encoding/binary in little-endian order, bytes.Equal and bytes.Compare
--   Stream       io.Reader as the bytes still to come, io.Writer as a state with `write`, io.ReadFull,
--                and the errors of the repository as values
--   Header       v2/car.go: `read_header` is Header.ReadFrom, `write_header` Header.WriteTo,
--                `new_header` NewHeader, and so on by name
--   Varint, Cids the packages go-varint, go-cid and go-multihash as records of functions, with what
--                they document as records of laws
--   Section      v2/internal/carv1/util/util.go: LdWrite, LdSize, LdRead, ReadNode
--   Carv1        v2/internal/carv1/car.go: ReadHeader is `read_car_header`, CarReader.Next `next`,
--                LoadCar `load_car`, CarHeader.Matches `matches`; go-ipld-cbor is the record `Cbor`
--   Search       v2/internal/errsort/search.go
--   Index        v2/index: Index/Single is singleWidthIndex and Index/Multi multiWidthIndex, both of
--                indexsorted.go; Index/Multihash is mhindexsorted.go; Index/Codec is index.go
--   Options      v2/options.go
--   OffsetIo     v2/internal/io: offset_read_seeker.go and offset_write_seeker.go; OffsetIo/Writer is
--                OffsetWriteSeeker as an io.Writer over a file
--   File         os.File as a record of functions, with what is documented of them as laws
--   BlockReader  v2/block_reader.go
--   IndexGen     v2/index_gen.go: `load_index` is LoadIndex; `read_records` is its loop and
--                `read_section` one round of it
--   Blockstore   v2/blockstore: Blockstore/InsertionIndex is insertionindex.go, over package llrb as a
--                record of functions; Blockstore/ReadOnly is readonly.go: `has`, `get`, `get_size` and
--                `all_keys_chan` are the methods, and `has_fn` and the like their callbacks,
--                Blockstore/ReadOnly/Open is NewReadOnly; Blockstore/ReadWrite is
--                readwrite.go: `put_block` is one round of PutMany, and
--                Blockstore/ReadWrite/Resume is OpenReadWrite with resumeWithRoots; Reach is the
--                relation of the states that calls lead to
--   Reader       v2/reader.go: `new_reader` is NewReader, and so on by name; Reader/Inspect is
--                Reader.Inspect, with `inspect_sections` for its loop
--   Writer       v2/writer.go: `wrap_v1` is WrapV1, `extract_v1_file` ExtractV1File, and so on by name
--   Tests        concrete runs, with a small LEB128 codec, CIDs of two bytes and a small header codec
--
-- They use each other as in the code: Section reads frames from a Stream; Carv1 and BlockReader read
-- headers and blocks by Section; BlockReader and IndexGen read the 40 bytes by Header; IndexGen
-- loads its records into an index of Index/Codec, which dispatches on the kind of the index; the
-- sorted index searches by Search. The ReadWrite blockstore writes sections by Section through a
-- writer of OffsetIo on its File, puts their records into its InsertionIndex, and reads as the
-- ReadOnly that it embeds; Finalize writes an index of Index/Codec and the header of Header.
--
-- Integers. A number is a natural number, and the wrap-around of uint64 and uint32 is written out
-- (`% u64`, `% u32`). The int64 values of the code appear where their sign is tested: `signed64` in
-- Header, the tests against 2 ^ 63 in Index and IndexGen, and the integers of OffsetIo.
--
-- Loops. The loops of LoadCar, LoadIndex, AllKeysChan, Inspect and of a resumption run on fuel, one
-- round more than the stream has bytes. Each round takes a byte at least, so that the fuel is never
-- used up. The binary search has as many rounds as its range is long. The other loops are by
-- recursion on what they run over.
--
-- Files. A File is what os.File shows of its content. Reads do not fail; a write may fail after a part
-- of its bytes, and leaves an error behind a state that the theorems on success do not reach.
--
-- Streams. A reader is a stream in memory and fails only by ending; the reader of IndexGen and of
-- the index formats can seek, and the one of BlockReader may or may not. A writer may fail at any
-- write. `sort.Sort` is a parameter where it is used.
--
-- Not modelled: the flags and the opening of files, locks and goroutines (a call is one step, and the
-- keys of AllKeysChan are those that a consumer of the whole channel gets), the text of errors, and
-- what is left for go-merkledag, go-ipld-prime and the command line: WriteCar, the selective writers,
-- cmd/car. Of the repository's own logic, the functions that only open and close files are not
-- modelled (OpenReader, OpenReadOnly, WrapV1File), nor ExtractV1File onto its own source. The v0 module in the root repeats v2/internal/carv1.
pub mod Prelude
pub mod Bytes
pub mod Stream
pub mod Header
pub mod Varint
pub mod Cids
pub mod Section
pub mod Carv1
pub mod Search
pub mod Index
mod Tests
pub mod Options
pub mod BlockReader
pub mod IndexGen
pub mod Blockstore
pub mod OffsetIo
pub mod File
pub mod Writer
pub mod Reader
