-- ===== src/Stream/Frame/Faults.antt =====
-- Where `_read_frame` raises `struct.error` instead of `FrameError`.
use rdc_tools.Prelude.{
  ℕ, ◌+◌, ◌*◌, ◌%◌, ◌≤◌, ◌<◌, ◌≡◌, ◌≢◌, ◌↔◌, inl, inr, true, some, List, arith, length, ltb,
  Bool-cases, Option-cases,
}
use rdc_tools.Stream.Words.{u32, u32_fits, u64_fits, u32_short}
use rdc_tools.Stream.Frame.{
  struct_error, chunk_callstack, chunk_64bitsize, has_flag, skip_metadata, skip_callstack,
  size_width, read_size, place_payload, read_payload, read_chunk, read_frame,
}

place_payload-ne-struct_error :
    (s : List ℕ) (start c pos ln : ℕ) → place_payload s start c pos ln ≢ struct_error
unfolding place_payload
place_payload-ne-struct_error s start c pos ln h = ground arith

read_size_fits :
    (s : List ℕ) (c pos : ℕ)
    → pos + size_width c ≤ length s
    → (v : ℕ) × (read_size s c pos ≡ some v)
read_size_fits s c pos h = elim (Bool-cases (has_flag c chunk_64bitsize)) [
  | inl e ↦ let (v, r) = u64_fits s pos (ground arith) in (v, ground arith)
  | inr e ↦ let (v, r) = u32_fits s pos (ground arith) in (v, ground arith)
]

-- The length word is tested for before it is read.
read_payload-ne-struct_error :
    (s : List ℕ) (start c pos : ℕ) → read_payload s start c pos ≢ struct_error
unfolding read_payload
read_payload-ne-struct_error s start c pos h =
    elim (Bool-cases (ltb (length s) (pos + size_width c))) [
      | inl e ↦ ground arith
      | inr e ↦
          let (v, r) = read_size_fits s c pos (ground arith) in
          ground (arith, place_payload-ne-struct_error s start c (pos + size_width c) v)
    ]

read_chunk_struct_error :
    (s : List ℕ) (start c : ℕ)
    → read_chunk s start c ≡ struct_error
    → (c % 0x10000 ≢ 0) × (has_flag c chunk_callstack ≡ true) × (length s < start + 8)
unfolding read_chunk skip_callstack
read_chunk_struct_error s start c h = elim (Bool-cases (ltb (length s) (start + 8))) [
  | inl e ↦ elim (Option-cases (skip_callstack s c (start + 4))) [
    | inl f ↦ (ground arith, ground arith, ground arith)
    | inr (q, f) ↦ ground (arith, read_payload-ne-struct_error s start c (skip_metadata c q))
  ]
  | inr e ↦
      let (v, r) = u32_fits s (start + 4) (ground arith) in
      ground (
        arith,
        read_payload-ne-struct_error s start c (skip_metadata c (start + 4)),
        read_payload-ne-struct_error s start c (skip_metadata c (start + 4 + 4 + v * 8)),
      )
]

callstack_past_end :
    (s : List ℕ) (start c : ℕ)
    → c % 0x10000 ≢ 0
    → has_flag c chunk_callstack ≡ true
    → length s < start + 8
    → read_chunk s start c ≡ struct_error
unfolding read_chunk skip_callstack
callstack_past_end s start c a b d = ground (arith, u32_short s (start + 4))

-- Where four bytes are left, `_read_frame` raises `struct.error` exactly when they are a chunk word
-- that is no terminator and has the callstack flag, and the callstack's count is past the end.
pub read_frame_struct_error :
    (s : List ℕ) (pos : ℕ)
    → pos + 4 ≤ length s
    → (read_frame s pos ≡ struct_error) ↔ (
        (c : ℕ) × (u32 s pos ≡ some c)
        × (c % 0x10000 ≢ 0)
        × (has_flag c chunk_callstack ≡ true)
        × (length s < pos + 8))
unfolding read_frame
read_frame_struct_error s pos h =
    let (c, e) = u32_fits s pos h in
    (
      λ r.
          let (a, b, d) = read_chunk_struct_error s pos c (rw (read_frame, e) at r) in
          (c, e, a, b, d),
      λ (c', e', a, b, d). rw (read_frame, e') (callstack_past_end s pos c' a b d),
    )
