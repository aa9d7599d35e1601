-- ===== src/Stream/Frame/Bounds.antt =====
-- What a frame that `_read_frame` accepts looks like.
use rdc_tools.Prelude.{
  ℕ, ◌+◌, ◌%◌, ◌≤◌, ◌<◌, ◌≡◌, ◌≢◌, arith, some, List, length, Option-cases, inl, inr,
}
use rdc_tools.Stream.Words.{u32}
use rdc_tools.Stream.Frame.{
  ChunkInfo, chunk_at, align_up, skip_metadata, skip_callstack, place_payload, read_size,
  size_width, read_payload, read_chunk, read_frame,
}

-- Rounding up to the alignment: a multiple of it, not below the number and less than one step above.
pub align_up_bounds :
    (x : ℕ) → (x ≤ align_up x 64) × (align_up x 64 < x + 64) × (align_up x 64 % 64 ≡ 0)
unfolding align_up
align_up_bounds x = (omega arith, omega arith, omega arith)

-- The fields of a chunk that starts at `start`, in a stream of `size` bytes.
pub record IsFramed (size start : ℕ) (ch : ChunkInfo) (next : ℕ) : Type 0 where
  pub starts : ch.off ≡ start
  pub has_id : 0 < ch.id
  pub id_fits : ch.id < 0x10000
  pub has_header : start + 8 ≤ ch.payload_offset
  pub ends : ch.payload_offset + ch.length ≡ ch.pad_start
  pub inside : ch.pad_start ≤ size
  pub pad_short : ch.pad_len < 64
  pub pad_ends : ch.pad_start + ch.pad_len ≡ next
  pub next_aligned : next % 64 ≡ 0

skip_callstack-le : (s : List ℕ) (c pos q : ℕ) → skip_callstack s c pos ≡ some q → pos ≤ q
unfolding skip_callstack
skip_callstack-le s c pos q h = ground arith

skip_metadata-le : (c pos : ℕ) → pos ≤ skip_metadata c pos
unfolding skip_metadata
skip_metadata-le c pos = ground arith

place_payload-IsFramed :
    (s : List ℕ) (start c pos ln : ℕ) (ch : ChunkInfo) (next : ℕ)
    → c % 0x10000 ≢ 0
    → start + 8 ≤ pos
    → pos ≤ length s
    → place_payload s start c pos ln ≡ chunk_at ch next
    → IsFramed (length s) start ch next
unfolding place_payload
place_payload-IsFramed s start c pos ln ch next hc hp hs h =
    ground (arith, align_up_bounds (pos + ln))

read_payload-IsFramed :
    (s : List ℕ) (start c pos : ℕ) (ch : ChunkInfo) (next : ℕ)
    → c % 0x10000 ≢ 0
    → start + 4 ≤ pos
    → read_payload s start c pos ≡ chunk_at ch next
    → IsFramed (length s) start ch next
unfolding read_payload
read_payload-IsFramed s start c pos ch next hc hp h = elim (Option-cases (read_size s c pos)) [
  | inl e ↦ ground arith
  | inr (ln, e) ↦
      ground (arith, place_payload-IsFramed s start c (pos + size_width c) ln ch next hc)
]

read_chunk-IsFramed :
    (s : List ℕ) (start c : ℕ) (ch : ChunkInfo) (next : ℕ)
    → read_chunk s start c ≡ chunk_at ch next
    → IsFramed (length s) start ch next
unfolding read_chunk
read_chunk-IsFramed s start c ch next h = elim (Option-cases (skip_callstack s c (start + 4))) [
  | inl e ↦ ground arith
  | inr (q, e) ↦ ground (
    arith,
    skip_callstack-le s c (start + 4) q e,
    skip_metadata-le c q,
    read_payload-IsFramed s start c (skip_metadata c q) ch next,
  )
]

-- A frame that `_read_frame` accepts starts where it was read, its header and its payload lie inside
-- the stream, and the next position is the first multiple of 64 at or behind the payload's end.
pub read_frame-IsFramed :
    (s : List ℕ) (pos : ℕ) (ch : ChunkInfo) (next : ℕ)
    → read_frame s pos ≡ chunk_at ch next
    → IsFramed (length s) pos ch next
unfolding read_frame
read_frame-IsFramed s pos ch next h = elim (Option-cases (u32 s pos)) [
  | inl e ↦ ground arith
  | inr (c, e) ↦ read_chunk-IsFramed s pos c ch next (rw (read_frame, e) at h)
]
