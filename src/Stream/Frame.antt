-- ===== src/Stream/Frame.antt =====
-- `_read_frame` of src/py/rdc_stream.py and the chunk header's flags of src/py/rdc_chunkmap.py: one
-- chunk's frame. `struct_error` is the `struct.error` of a word read that no test of the function
-- stands before.
pub mod Bounds
pub mod Faults
pub mod Format
pub mod Fields
pub mod RoundTrip
use rdc_tools.Prelude.{
  ℕ, ◌+◌, ◌-◌, ◌*◌, ◌/◌, ◌%◌, Bool, Option, none, some, List, length, take, drop, ltb, ◌==◌,
  if◌then◌else◌,
}
use rdc_tools.Stream.Words.{u32, u64}

pub record ChunkInfo : Type 0 where
  pub off : ℕ
  pub id : ℕ
  pub flags : ℕ
  pub length : ℕ
  pub payload_offset : ℕ
  pub pad_start : ℕ
  pub pad_len : ℕ

-- The messages of `FrameError`, as the values that they print.
pub data FrameError : Type 0 where
  metadata_past_end : ℕ → ℕ → FrameError
  payload_past_end : ℕ → ℕ → ℕ → ℕ → FrameError

-- What `_read_frame` does: it returns a chunk and the next position, returns None, or raises.
pub data Frame : Type 0 where
  chunk_at : ChunkInfo → ℕ → Frame
  end_of_stream : Frame
  frame_error : FrameError → Frame
  struct_error : Frame

abbrev pub chunk_align : ℕ
chunk_align = 64

-- `(x + a - 1) & ~(a - 1)`, which clears the low bits, for `a` a power of two as in every call.
unfoldable pub align_up : ℕ → ℕ → ℕ
align_up x a = (x + a - 1) / a * a

-- The flag bits of a chunk word, each by its place.
abbrev pub chunk_callstack : ℕ
chunk_callstack = 0x00010000

abbrev pub chunk_threadid : ℕ
chunk_threadid = 0x00020000

abbrev pub chunk_duration : ℕ
chunk_duration = 0x00040000

abbrev pub chunk_timestamp : ℕ
chunk_timestamp = 0x00080000

abbrev pub chunk_64bitsize : ℕ
chunk_64bitsize = 0x00100000

-- `c & bit` for a single bit.
abbrev pub has_flag : ℕ → ℕ → Bool
has_flag c bit = c / bit % 2 == 1

-- The metadata that is skipped, after the callstack: eight bytes for each flag that is set.
unfoldable pub skip_metadata : ℕ → ℕ → ℕ
skip_metadata c pos =
    pos
    + (if has_flag c chunk_threadid then 8 else 0)
    + (if has_flag c chunk_duration then 8 else 0)
    + (if has_flag c chunk_timestamp then 8 else 0)

-- The position behind the callstack: a count and that many words of eight bytes.
unfoldable pub skip_callstack : List ℕ → ℕ → ℕ → Option ℕ
skip_callstack stream c pos =
    if has_flag c chunk_callstack
    then (elim (u32 stream pos) [ none ↦ none | some num ↦ some (pos + 4 + num * 8) ])
    else some pos

-- How many bytes the payload's length takes.
abbrev pub size_width : ℕ → ℕ
size_width c = if has_flag c chunk_64bitsize then 8 else 4

abbrev pub read_size : List ℕ → ℕ → ℕ → Option ℕ
read_size stream c pos = if has_flag c chunk_64bitsize then u64 stream pos else u32 stream pos

-- The payload of `ln` bytes at `pos`, once it is known to be inside the stream.
abbrev pub chunk_info : ℕ → ℕ → ℕ → ℕ → ChunkInfo
chunk_info start c pos ln = record {
  off = start;
  id = c % 0x10000;
  flags = c / 0x10000 * 0x10000;
  length = ln;
  payload_offset = pos;
  pad_start = pos + ln;
  pad_len = align_up (pos + ln) chunk_align - (pos + ln);
}

unfoldable pub place_payload : List ℕ → ℕ → ℕ → ℕ → ℕ → Frame
place_payload stream start c pos ln =
    if ltb (length stream - pos) ln
    then frame_error (payload_past_end start (c % 0x10000) ln (ln - (length stream - pos)))
    else chunk_at (chunk_info start c pos ln) (align_up (pos + ln) chunk_align)

-- The length word and the payload, from the position behind the metadata.
unfoldable pub read_payload : List ℕ → ℕ → ℕ → ℕ → Frame
read_payload stream start c pos =
    if ltb (length stream) (pos + size_width c)
    then frame_error (metadata_past_end start (c % 0x10000))
    else (elim (read_size stream c pos) [
      | none ↦ struct_error
      | some ln ↦ place_payload stream start c (pos + size_width c) ln
    ])

-- A chunk word that is not the terminator.
unfoldable pub read_chunk : List ℕ → ℕ → ℕ → Frame
read_chunk stream start c =
    if c % 0x10000 == 0 then end_of_stream else (elim (skip_callstack stream c (start + 4)) [
      | none ↦ struct_error
      | some pos ↦ read_payload stream start c (skip_metadata c pos)
    ])

unfoldable pub read_frame : List ℕ → ℕ → Frame
read_frame stream pos = elim (u32 stream pos) [
  | none ↦ struct_error
  | some c ↦ read_chunk stream pos c
]

-- The payload's bytes.
unfoldable pub chunk_payload : List ℕ → ChunkInfo → List ℕ
chunk_payload stream ch = take ch.length (drop ch.payload_offset stream)
