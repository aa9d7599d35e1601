-- ===== src/Stream/Walk/RoundTrip.antt =====
-- Walking over a stream that is laid out as the format says.
use mathlib.Core.List.{append_assoc}
use rdc_tools.Prelude.{
  ℕ, zero, suc, ◌+◌, ◌%◌, ◌≤◌, ◌<◌, ◌≡◌, refl, some, ap, arith, Bool, List, [], ◌∷◌, ◌++◌, length,
  length-append, le→leb, gt→leb,
}
use rdc_tools.Stream.Words.{u32, bytes_of, length-bytes_of}
use rdc_tools.Stream.Frame.{ChunkInfo, end_of_stream, read_chunk, read_frame}
use rdc_tools.Stream.Frame.Bounds.{align_up_bounds}
use rdc_tools.Stream.Frame.Format.{Chunk, IsWritable, write_chunk, written_info, header_length}
use rdc_tools.Stream.Frame.Fields.{u32-bytes_of}
use rdc_tools.Stream.Frame.RoundTrip.{read_frame-write_chunk, length-write_chunk}
use rdc_tools.Stream.Walk.{
  returned, ends_with, walk_round, walk_from, walk_from_more, walk_from_done, iter_chunks,
}

unfoldable pub write_stream : List Chunk → List ℕ
write_stream [] = []
write_stream (c ∷ cs) = write_chunk c ++ write_stream cs

unfoldable pub written_infos : ℕ → List Chunk → List ChunkInfo
written_infos start [] = []
written_infos start (c ∷ cs) =
    written_info c start ∷ written_infos (start + length (write_chunk c)) cs

abbrev pub AllWritable : List Chunk → Type 0
AllWritable [] = Unit {0}
AllWritable (c ∷ cs) = IsWritable c × AllWritable cs

-- What ends a stream: less than a chunk word, or a terminator word and whatever follows it.
pub data IsTail : List ℕ → Type 0 where
  short : (t : List ℕ) → length t < 4 → IsTail t
  terminator : (r t : List ℕ) → t ≡ bytes_of 4 0 ++ r → IsTail t

write_chunk_aligned :
    (c : Chunk) → IsWritable c → (length (write_chunk c) % 64 ≡ 0) × (0 < length (write_chunk c))
unfolding header_length
write_chunk_aligned c w = (
  omega
      (arith, w.padded, length-write_chunk c, align_up_bounds (header_length c + length c.payload)),
  omega (arith, length-write_chunk c),
)

read_terminator : (s : List ℕ) (pos : ℕ) → u32 s pos ≡ some 0 → read_frame s pos ≡ end_of_stream
unfolding read_frame read_chunk
read_terminator s pos e = rw (read_frame, e)

walk_tail :
    (fuel : ℕ) (p t : List ℕ) (strict : Bool) (pos n : ℕ)
    → IsTail t
    → length p ≡ pos
    → walk_from (suc fuel) (p ++ t) 0 strict pos n ≡ ends_with returned
walk_tail fuel p t strict pos n (short _ h) e =
    walk_from_done fuel (p ++ t) 0 strict pos n (gt→leb _ _ (omega (arith, length-append p t)))
walk_tail fuel p t strict pos n (terminator r _ h) e =
    let fits : pos + 4 ≤ length (p ++ t) = omega (
      arith,
      length-append p t,
      ap (λ l. length l) h,
      length-append (bytes_of 4 0) r,
      length-bytes_of 4 0,
    ) in
    rw (walk_from_more fuel (p ++ t) 0 strict pos n (le→leb _ _ fits)) (
      rw
        (read_terminator (p ++ t) pos
          (u32-bytes_of (p ++ t) p r pos 0 (ap (λ l. p ++ l) h) e (omega arith)))
        (unfold walk_round in refl))

walk_written :
    (cs : List Chunk) (fuel : ℕ) (p t : List ℕ) (strict : Bool) (pos n : ℕ)
    → AllWritable cs
    → IsTail t
    → length p ≡ pos
    → pos % 64 ≡ 0
    → length (write_stream cs) < fuel
    → walk_from fuel (p ++ (write_stream cs ++ t)) 0 strict pos n
      ≡ record { chunks = written_infos pos cs; ending = returned }
unfolding write_stream written_infos walk_round
walk_written cs zero p t strict pos n w tl e al h = absurd (omega arith)
walk_written [] (suc fuel) p t strict pos n w tl e al h = walk_tail fuel p t strict pos n tl e
walk_written (c ∷ cs) (suc fuel) p t strict pos n (w, ws) tl e al h =
    let next : ℕ = pos + length (write_chunk c) in
    let (aligned, positive) = write_chunk_aligned c w in
    let s : List ℕ = p ++ (write_chunk c ++ (write_stream cs ++ t)) in
    let rest : walk_from fuel s 0 strict next (n + 1)
        ≡ record { chunks = written_infos next cs; ending = returned } =
      rw (← append_assoc p (write_chunk c) (write_stream cs ++ t)) (
        walk_written cs fuel (p ++ write_chunk c) t strict next (n + 1) ws tl
          (omega (arith, length-append p (write_chunk c))) (omega arith)
          (omega (arith, length-append (write_chunk c) (write_stream cs)))) in
    let fits : pos + 4 ≤ length s = omega (
      arith,
      length-append p (write_chunk c ++ (write_stream cs ++ t)),
      length-append (write_chunk c) (write_stream cs ++ t),
      aligned,
    ) in
    rw (append_assoc (write_chunk c) (write_stream cs) t) (
      rw (walk_from_more fuel s 0 strict pos n (le→leb _ _ fits))
        (rw (read_frame-write_chunk c w p (write_stream cs ++ t) pos e al) (rw rest)))

-- Chunks written one behind the other, with any tail, are read back: the walk yields each chunk's
-- fields at its place, in order, and returns, in either mode.
pub iter_chunks-write_stream :
    (cs : List Chunk) (t : List ℕ) (strict : Bool)
    → AllWritable cs
    → IsTail t
    → iter_chunks (write_stream cs ++ t) 0 strict
      ≡ record { chunks = written_infos 0 cs; ending = returned }
unfolding iter_chunks
iter_chunks-write_stream cs t strict w tl =
    walk_written cs (length (write_stream cs ++ t) + 1) [] t strict 0 0 w tl refl refl
      (omega (arith, length-append (write_stream cs) t))
