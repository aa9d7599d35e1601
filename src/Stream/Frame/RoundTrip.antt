-- ===== src/Stream/Frame/RoundTrip.antt =====
-- Reading back a chunk that is laid out as the format says.
use rdc_tools.Prelude.{
  ℕ, ◌+◌, ◌%◌, ◌≡◌, refl, sym, ap, ◌∙◌, arith, some, List, [], ◌++◌, append_assoc, append-nil,
  length, length-append, drop-append, take-append,
}
use rdc_tools.Stream.Words.{u32, bytes_of, length-bytes_of}
use rdc_tools.Stream.Frame.{
  chunk_at, chunk_align, align_up, chunk_info, skip_metadata, skip_callstack, size_width,
  read_payload, read_chunk, read_frame, chunk_payload,
}
use rdc_tools.Stream.Frame.Format.{
  Chunk, chunk_word, chunk_word_flags, callstack_bytes, metadata_bytes, size_bytes, write_chunk,
  header_length, IsWritable, written_info,
}
use rdc_tools.Stream.Frame.Fields.{
  u32-bytes_of, length-size_bytes, length-metadata_bytes, skip_callstack-callstack_bytes,
  size_width-size_bytes, read_payload-size_bytes, align_up_shift,
}

module _ (c : Chunk) where
  -- Everything before the length word.
  before_size : List ℕ
  before_size = bytes_of 4 (chunk_word c) ++ (callstack_bytes c.callstack ++ metadata_bytes c)

  length-before_size :
      length before_size ≡ 4 + length (callstack_bytes c.callstack) + length (metadata_bytes c)
  unfolding before_size
  length-before_size = omega (
    arith,
    length-append (bytes_of 4 (chunk_word c)) (callstack_bytes c.callstack ++ metadata_bytes c),
    length-append (callstack_bytes c.callstack) (metadata_bytes c),
    length-bytes_of 4 (chunk_word c),
  )

  -- The stream around the chunk, split before the length word.
  write_chunk_split :
      (r : List ℕ)
      → write_chunk c ++ r
        ≡ before_size ++ (size_bytes c.size64 (length c.payload) ++ (c.payload ++ (c.padding ++ r)))
  unfolding write_chunk before_size
  write_chunk_split r = simp append_assoc

  -- The length word, the payload, and all that follows.
  abbrev behind_metadata : List ℕ → List ℕ
  behind_metadata r = size_bytes c.size64 (length c.payload) ++ (c.payload ++ (c.padding ++ r))

  same_size_width : length (size_bytes c.size64 (length c.payload)) ≡ length (size_bytes c.size64 0)
  same_size_width = length-size_bytes c.size64 _ ∙ sym (length-size_bytes c.size64 0)

  length-header : header_length c ≡ length before_size + length (size_bytes c.size64 0)
  unfolding header_length
  length-header = omega (arith, length-before_size)

  pub length-write_chunk :
      length (write_chunk c) ≡ header_length c + length c.payload + length c.padding
  length-write_chunk = omega (
    arith,
    length-header,
    same_size_width,
    ap (λ t. length t) (append-nil (write_chunk c)),
    ap (λ t. length t) (write_chunk_split []),
    length-append before_size
        (size_bytes c.size64 (length c.payload) ++ (c.payload ++ (c.padding ++ []))),
    length-append (size_bytes c.size64 (length c.payload)) (c.payload ++ (c.padding ++ [])),
    length-append c.payload (c.padding ++ []),
    length-append c.padding [],
  )

  module _ (w : IsWritable c) where
    skip_metadata-metadata_bytes :
        (pos : ℕ) → skip_metadata (chunk_word c) pos ≡ pos + length (metadata_bytes c)
    unfolding skip_metadata
    skip_metadata-metadata_bytes pos =
        let (e0, e1, e2, e3, e4, e5, e6) = chunk_word_flags c w in
        rw (e1, e2, e3) (omega (arith, length-metadata_bytes c))

    -- The reported fields, and where the next chunk starts.
    chunk_info-written_info :
        (start pos : ℕ)
        → pos ≡ start + length before_size
        → start % 64 ≡ 0
        → (chunk_info start (chunk_word c) (pos + size_width (chunk_word c)) (length c.payload)
            ≡ written_info c start)
          × (align_up (pos + size_width (chunk_word c) + length c.payload) chunk_align
              ≡ start + length (write_chunk c))
    unfolding written_info
    chunk_info-written_info start pos e aligned =
        let (e0, e1, e2, e3, e4, e5, e6) = chunk_word_flags c w in
        ground (
          arith,
          w.padded,
          e5,
          length-header,
          length-write_chunk,
          size_width-size_bytes (chunk_word c) 0 c.size64 e4,
          align_up_shift start (header_length c + length c.payload) aligned,
        )

    module _ (p r : List ℕ) (start : ℕ) (h : length p ≡ start) where
      word_read : u32 (p ++ (write_chunk c ++ r)) start ≡ some (chunk_word c)
      unfolding write_chunk
      word_read =
          let (e0, e1, e2, e3, e4, e5, e6) = chunk_word_flags c w in
          u32-bytes_of _ p (callstack_bytes c.callstack ++ (metadata_bytes c ++ behind_metadata r))
            start (chunk_word c) (simp append_assoc) h e6

      callstack_skipped :
          skip_callstack (p ++ (write_chunk c ++ r)) (chunk_word c) (start + 4)
          ≡ some (start + 4 + length (callstack_bytes c.callstack))
      unfolding write_chunk
      callstack_skipped =
          let (e0, e1, e2, e3, e4, e5, e6) = chunk_word_flags c w in
          skip_callstack-callstack_bytes _ (p ++ bytes_of 4 (chunk_word c))
            (metadata_bytes c ++ behind_metadata r) (chunk_word c) (start + 4) c.callstack e0
            (simp append_assoc)
            (omega (
              arith,
              length-append p (bytes_of 4 (chunk_word c)),
              length-bytes_of 4 (chunk_word c),
            ))
            w.callstack_fits

      payload_read :
          (pos : ℕ)
          → pos ≡ start + length before_size
          → read_payload (p ++ (write_chunk c ++ r)) start (chunk_word c) pos
            ≡ chunk_at
                (chunk_info start
                  (chunk_word c)
                  (pos + size_width (chunk_word c))
                  (length c.payload))
                (align_up (pos + size_width (chunk_word c) + length c.payload) chunk_align)
      payload_read pos e =
          let (e0, e1, e2, e3, e4, e5, e6) = chunk_word_flags c w in
          read_payload-size_bytes _ (p ++ before_size) (c.padding ++ r) c.payload start _ pos
            c.size64 e4 (rw write_chunk_split (simp append_assoc))
            (omega (arith, length-append p before_size)) w.payload_fits

      -- A written chunk, at a multiple of 64 and whatever stands before and behind it, is read back as
      -- its fields: the id, where its payload lies, and where the next chunk starts.
      pub read_frame-write_chunk :
          start % 64 ≡ 0
          → read_frame (p ++ (write_chunk c ++ r)) start
            ≡ chunk_at (written_info c start) (start + length (write_chunk c))
      unfolding read_frame read_chunk
      read_frame-write_chunk aligned =
          let (e0, e1, e2, e3, e4, e5, e6) = chunk_word_flags c w in
          let pos : ℕ =
            start + 4 + length (callstack_bytes c.callstack) + length (metadata_bytes c) in
          let at_pos : pos ≡ start + length before_size = omega (arith, length-before_size) in
          ground (
            arith,
            w.has_id,
            e5,
            word_read,
            callstack_skipped,
            skip_metadata-metadata_bytes (start + 4 + length (callstack_bytes c.callstack)),
            payload_read pos at_pos,
            chunk_info-written_info start pos at_pos aligned,
          )

      -- The payload that is read at the reported place is the one that was written.
      chunk_payload-write_chunk :
          chunk_payload (p ++ (write_chunk c ++ r)) (written_info c start) ≡ c.payload
      unfolding chunk_payload written_info
      chunk_payload-write_chunk =
          let front : List ℕ = p ++ (before_size ++ size_bytes c.size64 (length c.payload)) in
          let split : p ++ (write_chunk c ++ r) ≡ front ++ (c.payload ++ (c.padding ++ r)) =
            rw write_chunk_split (simp append_assoc) in
          let len : length front ≡ start + header_length c = omega (
            arith,
            length-header,
            same_size_width,
            length-append p (before_size ++ size_bytes c.size64 (length c.payload)),
            length-append before_size (size_bytes c.size64 (length c.payload)),
          ) in
          rw (split, drop-append front (c.payload ++ (c.padding ++ r)) _ len)
            (take-append c.payload (c.padding ++ r) _ refl)
