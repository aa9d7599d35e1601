-- ===== src/Tests/Frames.antt =====
-- Runs on one-chunk streams: the walk of src/py/rdc_stream.py.
use Prim.Native.String.{String}
use mathlib.Core.Option
use rdc_tools.Prelude.{
  ℕ, ◌+◌, ◌%◌, ◌<◌, ◌≡◌, ◌≢◌, ◌↔◌, refl, arith, true, false, Option, none, some, List, [], ◌∷◌,
  ◌++◌, length, replicate,
}
use rdc_tools.Stream.Words.{u32, bytes_of, little}
use rdc_tools.Stream.Frame.{
  ChunkInfo, chunk_at, struct_error, read_frame, has_flag, chunk_callstack, read_chunk,
  skip_callstack, skip_metadata, read_payload, place_payload, align_up,
}
use rdc_tools.Stream.Frame.Bounds.{IsFramed, read_frame-IsFramed}
use rdc_tools.Stream.Frame.Faults.{read_frame_struct_error}
use rdc_tools.Stream.Frame.Format.{
  Chunk, IsWritable, write_chunk, written_info, header_length, callstack_bytes, words8, optional8,
  size_bytes,
}
use rdc_tools.Stream.Frame.RoundTrip.{read_frame-write_chunk}
use rdc_tools.Stream.Walk.{returned, out_of_fuel, iter_chunks}
use rdc_tools.Stream.Walk.Order.{InOrder, iter_chunks-InOrder, iter_chunks-ne-out_of_fuel}
use rdc_tools.Stream.Walk.Modes.{lenient_of, iter_chunks_lenient}
use rdc_tools.Stream.Walk.RoundTrip.{write_stream, written_infos, short, iter_chunks-write_stream}
use rdc_tools.Stream.Check.{
  Problem, Note, clean_total, check_stream, closing_notes, visit, check_from, check_round,
  report_of, chunk_name, expected_for, length_problem, pad_of, non_zero,
}
use rdc_tools.Stream.Check.Report.{length_problems, reported, check_stream_problems}

-- A chunk with a callstack of one frame and a thread id.
abbrev small_chunk : Chunk
small_chunk = record {
  id = 1000;
  callstack = 77 ∷ [];
  threadid = some 5;
  duration = none;
  timestamp = none;
  size64 = false;
  payload = 1 ∷ 2 ∷ 3 ∷ [];
  padding = replicate 33 0;
}

small_chunk-IsWritable : IsWritable small_chunk
unfolding header_length callstack_bytes words8 optional8 size_bytes bytes_of align_up
small_chunk-IsWritable = record {
  has_id = omega arith;
  id_fits = omega arith;
  callstack_fits = omega arith;
  payload_fits = omega arith;
  padded = refl;
}

read_frame-write_chunk_example :
    read_frame ([] ++ (write_chunk small_chunk ++ (9 ∷ []))) 0
    ≡ chunk_at (written_info small_chunk 0) (0 + length (write_chunk small_chunk))
read_frame-write_chunk_example =
    read_frame-write_chunk small_chunk small_chunk-IsWritable [] (9 ∷ []) 0 refl refl

iter_chunks-write_stream_example :
    iter_chunks (write_stream (small_chunk ∷ small_chunk ∷ []) ++ (0 ∷ [])) 0 true
    ≡ record { chunks = written_infos 0 (small_chunk ∷ small_chunk ∷ []); ending = returned }
iter_chunks-write_stream_example =
    iter_chunks-write_stream (small_chunk ∷ small_chunk ∷ []) (0 ∷ []) true
      (small_chunk-IsWritable, (small_chunk-IsWritable, tt)) (short (0 ∷ []) (omega arith))

-- A chunk 1000 with a payload of four bytes, and its padding.
abbrev one_chunk : List ℕ
one_chunk = 0xe8 ∷ 3 ∷ 0 ∷ 0 ∷ 4 ∷ 0 ∷ 0 ∷ 0 ∷ 1 ∷ 2 ∷ 3 ∷ 4 ∷ replicate 52 0

abbrev one_info : ChunkInfo
one_info = record {
  off = 0;
  id = 1000;
  flags = 0;
  length = 4;
  payload_offset = 8;
  pad_start = 12;
  pad_len = 52;
}

read-one_chunk : read_frame one_chunk 0 ≡ chunk_at one_info 64
unfolding read_frame read_chunk skip_callstack skip_metadata read_payload place_payload align_up u32
    little
read-one_chunk = refl

read_frame-IsFramed_example : IsFramed (length one_chunk) 0 one_info 64
read_frame-IsFramed_example = read_frame-IsFramed one_chunk 0 one_info 64 read-one_chunk

iter_chunks-InOrder_example :
    InOrder (length (one_chunk ++ one_chunk)) 0 (iter_chunks (one_chunk ++ one_chunk) 0 true).chunks
iter_chunks-InOrder_example = iter_chunks-InOrder (one_chunk ++ one_chunk) 0 true

iter_chunks-ne-out_of_fuel_example :
    (iter_chunks (one_chunk ++ one_chunk) 0 true).ending ≢ out_of_fuel
iter_chunks-ne-out_of_fuel_example = iter_chunks-ne-out_of_fuel (one_chunk ++ one_chunk) 0 true

-- A second chunk that claims a payload past the end.
abbrev cut_stream : List ℕ
cut_stream = one_chunk ++ (1 ∷ 4 ∷ 0 ∷ 0 ∷ 200 ∷ 0 ∷ 0 ∷ 0 ∷ 1 ∷ [])

iter_chunks_lenient_example :
    iter_chunks cut_stream 0 false ≡ lenient_of (iter_chunks cut_stream 0 true)
iter_chunks_lenient_example = iter_chunks_lenient cut_stream 0

abbrev heap_names : ℕ → Option String
heap_names i = some "Device_CreateHeap"

check_stream_problems_example :
    Option.map (λ (r : List Problem × List Note). r.0) (check_stream cut_stream heap_names 5)
    ≡ reported
        (iter_chunks cut_stream 0 true).ending
        (length_problems heap_names 0 (iter_chunks cut_stream 0 true).chunks)
check_stream_problems_example = check_stream_problems cut_stream heap_names 5

-- The word of a chunk 1 with a callstack, and nothing behind it.
abbrev cut_callstack : List ℕ
cut_callstack = 1 ∷ 0 ∷ 1 ∷ 0 ∷ []

read_frame_struct_error_example : (read_frame cut_callstack 0 ≡ struct_error) ↔ (
    (c : ℕ) × (u32 cut_callstack 0 ≡ some c)
    × (c % 0x10000 ≢ 0)
    × (has_flag c chunk_callstack ≡ true)
    × (length cut_callstack < 0 + 8))
read_frame_struct_error_example = read_frame_struct_error cut_callstack 0 (omega arith)

abbrev no_names : ℕ → Option String
no_names i = none

check_stream-one_chunk : check_stream one_chunk no_names 5 ≡ some ([], clean_total 52 1 ∷ [])
unfolding check_stream report_of check_from check_round visit closing_notes chunk_name expected_for
    length_problem pad_of non_zero read_frame read_chunk skip_callstack skip_metadata read_payload
    place_payload align_up u32 little
check_stream-one_chunk = refl
