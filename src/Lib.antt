-- ===== src/Lib.antt =====
-- A model of the offline side of rdc-tools: the Python that reads a RenderDoc capture without a
-- GPU.
--
-- A capture is a container: a header, metadata and a table of sections (Container, for
-- `parse_container` of src/py/rdc_stream.py). The frame-capture section is a body of LZ4 pages
-- (Stream/Lz4, for `decompress_lz4`) that decompresses to a stream of chunks. Every command walks
-- that stream: `_read_frame` reads one chunk's frame (Stream/Frame, on the words of Stream/Words),
-- `iter_chunks` goes from frame to frame (Stream/Walk), and `check_stream` goes the same way for
-- `verify` and reports what it finds (Stream/Check, with `EXPECTED_LENGTHS` of
-- src/py/rdc_chunkmap.py). One walk of the stream also fills the use ledger of src/py/rdc_uses.py,
-- which events use which resource and how. Uses has the ledger's data and the findings of `deps`
-- (`tally`, `read_before_write`, `write_never_read`, `dep_flags`), Uses/Ledger one use recorded and
-- the lookup of a GPU address (`_use`, `_va_resource`), Uses/Record the uses of one draw's bindings
-- and of one barrier payload (`_bind_uses`, `_barrier_uses`), Uses/Provenance the chain of writers behind
-- one use (`_previous_writer`, `_copy_source`, `walk_provenance`), and Uses/Alias the conflicts of
-- placed resources (`_write_while_read`, `_pair_conflicts`), which Uses/Overlap finds by their extents
-- (`alias_conflicts`).
-- Uses/Memory is the sweep for the most bytes that are live at once (`_peak_live`).
--
-- Passes/Markers reads the passes of a frame from the stream's marker chunks (`marker_passes` of
-- src/py/rdc_passdiff.py, with the sets of chunk names of src/py/rdc_chunkmap.py in Names), and
-- Passes/Align lines up the passes of two captures (`align_passes`, with the paths of Passes/Paths). Barriers
-- has the two barrier payloads of src/py/rdc_payloads.py and the texts of their words, and Hazards the question of
-- src/py/rdc_hazards.py about them: which use of a resource the state that its own command list left
-- it in does not permit (Hazards/States the permission tables, Hazards/Track `_state_track` and
-- `_state_at`, Hazards/Scan the uses' half of `scan_hazards`,
-- with what it finds in Hazards/Scan/Found). Payloads has the other decoders of the ledger:
-- `parse_targets`, `clear_target`, `discard_target`, `copy_pair` and `parse_resolve`.
--
-- A bundle is what a replay of the capture leaves, JSON documents with rows of events and resources
-- (Bundle/Rows, of src/py/rdc_bundle.py). Bundle/Passes groups the events into passes
-- (`reconstruct_passes` of src/py/rdc_passes.py), Bundle/Usage makes a chain of each resource's usage
-- rows (`_usage_chain` and the map of the chains, of src/py/rdc_detect_common.py), and Bundle/Detect
-- is the four detectors of src/py/rdc_detect_usage.py over the chains and the passes.
--
-- `find_all` of src/py/rdc_scan.py finds a byte pattern in the stream (Scan): one loop, or a loop
-- for each slice of the cache file, in a pool of processes. Scan/Ranges cuts the stream for the
-- string scan (`split_ranges`).
--
-- Beside them stands the image comparison of src/py/rdc_image.py: Image/Png is `encode_png` and
-- `decode_png` (Image/Png/Chunks the chunk loop, Image/Png/Filter the row filters of `_unfilter`),
-- and Image/Delta is `image_delta`.
--
-- Bytes and words are natural numbers, a buffer is a list of bytes, and a slice past the end is cut
-- as Python's is. An exception is a value: `FrameError` with what its text prints, and
-- `struct.error` apart from it, since the callers catch the one and not the other. A generator is
-- the list of what it yields and how it ends. A pool of processes is the list of its jobs, and
-- whether it came to an end. Texts that are printed are not built: a problem or a note is a value
-- with the numbers and names that its text shows. Where a definition has a file of its own for its
-- theorems, the file stands below the definition's (Stream/Frame/Bounds below Stream/Frame).
--
-- Loops are recursion on fuel. A round of the stream walk and of `check_stream` moves past a
-- frame's eight bytes at least, a round of the LZ4 loop past five bytes, and a round of the section
-- walk past forty-one, so that the number of bytes and one is enough for each; a hop of the
-- provenance walk goes to a strictly earlier event, so that the first event's number and one is
-- enough. A PNG chunk takes twelve bytes, so that the number of the file's bytes and one is enough
-- there; a hit of a find loop moves past a place of the buffer, so that its bytes and two are
-- enough.
--
-- The specification that frames are read against is a writer of the format (Stream/Frame/Format):
-- the header word with a flag for each optional field, the fields in order, the payload's length,
-- the payload, and padding to a multiple of 64. The LZ4 library is a parameter, the record
-- `Decoder`, and a compressor that matches it, for pages up to a size of its own, is the record `Compressor`; a toy pair in Tests/Pages
-- shows that both can be had. zlib is the record `Zlib`, of which only that it inflates what it
-- deflated is used. PNG rows are read against a writer of the five filters
-- as the format states them (Image/Png/Filter/Inverse), and barrier payloads against one of their layout (Barriers/RoundTrip). The
-- passes of a frame are read against a tree of scopes (Passes/Markers/Tree), which every list of
-- chunks has. The map of chunk names, read from RenderDoc's sources, is an argument.
--
-- Not modelled: opening and mapping files, the scaling and the difference hash of images, the
-- progress bars, `decompress_zstd`, the decoding of text, the walk that fills the ledger from the stream
-- (`walk_uses`), the strings of a payload (`chunk_strings`, an argument of the marker walk), the binding
-- loops and the sorting of `scan_hazards`, the costs of passes, which are floats, the detectors of bindings and of
-- pipeline state, and the printing of every command.
pub mod Prelude
pub mod Stream
pub mod Container
pub mod Uses
pub mod Barriers
pub mod Bundle
pub mod Hazards
pub mod Image
pub mod Names
pub mod Passes
pub mod Payloads
pub mod Scan
pub mod Tests
