-- ===== src/Stream/Lz4/RoundTrip.antt =====
-- A section that a streaming compressor wrote: pages of one continuous stream, each compressed against
-- the 64 KB before it, or all of it where that is less. The compressor is not in the repository: it is the record `Compressor`.
use mathlib.Core.Path.{ap₂}
use rdc_tools.Prelude.{
  ℕ, zero, suc, ◌+◌, ◌-◌, ◌≤◌, ◌<◌, ◌^◌, ◌≡◌, refl, ap, ◌∙◌, arith, some, List, [], ◌∷◌, ◌++◌,
  append-nil, append_assoc, length, length-append, drop, take-append, drop-append, leb, gt→ltb,
  Bool-cases, inl, inr,
}
use rdc_tools.Stream.Words.{bytes_of, length-bytes_of}
use rdc_tools.Stream.Frame.Fields.{u32-bytes_of}
use rdc_tools.Stream.Lz4.{
  Decoder, Decompressed, decompressed, lz4_dict_size, lz4_c_max, finish_pages, decode_page,
  decode_from, decode_from_more, decode_from_done, decompress_lz4,
}

-- The output's tail that a page may refer to: its last 65536 bytes, and all of a shorter one.
abbrev pub dict_of : List ℕ → List ℕ
dict_of out = drop (length out - 65536) out

-- A page of `page_max` bytes at most, whatever the library's blocks are, is compressed to a block whose length fits its word, and the block decodes
-- to the page, in any room that holds the page, with the dictionary that it was compressed against.
pub record Compressor (d : Decoder) : Type 0 where
  pub page_max : ℕ
  pub compress : List ℕ → List ℕ → List ℕ
  pub compress_size :
      (dict page : List ℕ)
      → length page ≤ page_max
      → (0 < length (compress dict page)) × (length (compress dict page) < 2 ^ 32)
  pub decode-compress :
      (dict page : List ℕ) (room : ℕ)
      → length page ≤ page_max
      → length page ≤ room
      → d.decode (compress dict page) room dict ≡ some page

abbrev pub join : List (List ℕ) → List ℕ
join [] = []
join (page ∷ pages) = page ++ join pages

-- Pages that are not empty and have `most` bytes at most.
abbrev pub ArePages : ℕ → List (List ℕ) → Type 0
ArePages most [] = Unit {0}
ArePages most (page ∷ pages) = (0 < length page) × (length page ≤ most) × ArePages most pages

-- The dictionary of the source starts where the writer's does.
dict_start : (n : ℕ) → n - lz4_dict_size n ≡ n - 65536
unfolding lz4_dict_size
dict_start n = ground arith

nothing_written :
    (most : ℕ) (pages : List (List ℕ))
    → ArePages most pages
    → length (join pages) ≡ 0
    → decompressed [] 0 ≡ decompressed (join pages) (length pages)
nothing_written most [] ne e = refl
nothing_written most (page ∷ pages) ne e =
    absurd (omega (arith, length-append page (join pages), ne.0))

module _ (d : Decoder) (c : Compressor d) where
  -- The body, from the pages left and the output so far.
  unfoldable pub write_pages : List ℕ → List (List ℕ) → List ℕ
  write_pages out [] = []
  write_pages out (page ∷ pages) =
      let block = c.compress (dict_of out) page in
      bytes_of 4 (length block) ++ (block ++ write_pages (out ++ page) pages)

  -- One round on a page that was written behind `p`.
  decode_page-write :
      (p page rest out : List ℕ) (expect blocks o : ℕ) (again : ℕ → List ℕ → ℕ → Decompressed)
      → length p ≡ o
      → length page ≤ c.page_max
      → length out + length page ≤ expect
      → decode_page d
          (p ++ (c.compress (dict_of out) page ++ rest))
          expect
          again
          o
          out
          blocks
          (length (c.compress (dict_of out) page))
        ≡ again (o + length (c.compress (dict_of out) page)) (out ++ page) (blocks + 1)
  unfolding decode_page
  decode_page-write p page rest out expect blocks o again e small h =
      let block : List ℕ = c.compress (dict_of out) page in
      ground (
        arith,
        dict_start (length out),
        c.compress_size (dict_of out) page small,
        length-append p (block ++ rest),
        length-append block rest,
        drop-append p (block ++ rest) o e,
        take-append block rest (length block) refl,
        c.decode-compress (dict_of out) page (expect - length out) small (omega arith),
      )

  decode_from-write_pages :
      (pages : List (List ℕ)) (fuel : ℕ) (p out : List ℕ) (expect blocks o : ℕ)
      → ArePages c.page_max pages
      → length p ≡ o
      → expect ≡ length out + length (join pages)
      → length (write_pages out pages) < fuel
      → decode_from d (p ++ write_pages out pages) expect fuel o out blocks
        ≡ decompressed (out ++ join pages) (blocks + length pages)
  unfolding write_pages
  decode_from-write_pages pages zero p out expect blocks o ne e x h = absurd (omega arith)
  decode_from-write_pages [] (suc fuel) p out expect blocks o ne e x h =
      rw (append-nil out, decode_from_done d (p ++ []) expect fuel o out blocks (omega arith))
        (unfold finish_pages in ground arith)
  decode_from-write_pages (page ∷ pages) (suc fuel) p out expect blocks o (ne, small, nes) e x h =
      let block : List ℕ = c.compress (dict_of out) page in
      let word : List ℕ = bytes_of 4 (length block) in
      let rest : List ℕ = write_pages (out ++ page) pages in
      let s : List ℕ = p ++ (word ++ (block ++ rest)) in
      let behind_word : length (p ++ word) ≡ o + 4 =
        omega (arith, length-append p word, length-bytes_of 4 (length block)) in
      let room : length out + length page ≤ expect =
        omega (arith, length-append page (join pages)) in
      let fits : o + 4 ≤ length s = omega (
        arith,
        length-append p (word ++ (block ++ rest)),
        length-append word (block ++ rest),
        length-bytes_of 4 (length block),
      ) in
      let ih : decode_from d ((p ++ word ++ block) ++ rest) expect fuel (o + 4 + length block)
            (out ++ page) (blocks + 1)
          ≡ decompressed ((out ++ page) ++ join pages) (blocks + 1 + length pages) =
        decode_from-write_pages pages fuel (p ++ word ++ block) (out ++ page) expect (blocks + 1)
          (o + 4 + length block) nes (omega (arith, length-append (p ++ word) block))
          (omega (arith, length-append page (join pages), length-append out page))
          (omega (
            arith,
            length-append word (block ++ rest),
            length-append block rest,
            length-bytes_of 4 (length block),
          )) in
      let apart : s ≡ (p ++ word) ++ (block ++ rest) = simp append_assoc in
      let behind : s ≡ (p ++ word ++ block) ++ rest = simp append_assoc in
      let round : decode_page d s expect (decode_from d s expect fuel) (o + 4) out blocks
            (length block)
          ≡ decode_from d s expect fuel (o + 4 + length block) (out ++ page) (blocks + 1) =
        rw apart (
          decode_page-write (p ++ word) page rest out expect blocks (o + 4) _ behind_word small
            room) in
      let others : decode_from d s expect fuel (o + 4 + length block) (out ++ page) (blocks + 1)
          ≡ decompressed ((out ++ page) ++ join pages) (blocks + 1 + length pages) =
        rw behind ih in
      decode_from_more d s expect fuel o out blocks (length block) fits (omega arith)
        (u32-bytes_of s p (block ++ rest) o (length block) refl e (c.compress_size _ page small).1)
      ∙ round
      ∙ others
      ∙ ap₂ decompressed (append_assoc out page (join pages)) (omega arith)

  -- A body that was compressed page by page, each page against the last 64 KB of output before it,
  -- decompresses to all its pages joined, and the count of the pages, where the body and the
  -- output stay below the C library's limit and each page has a byte at least and no more than the
  -- compressor takes.
  pub decompress_lz4-write_pages :
      (pages : List (List ℕ))
      → ArePages c.page_max pages
      → length (join pages) ≤ lz4_c_max
      → length (write_pages [] pages) ≤ lz4_c_max
      → decompress_lz4 (some d) (write_pages [] pages) (length (join pages))
        ≡ decompressed (join pages) (length pages)
  unfolding decompress_lz4
  decompress_lz4-write_pages pages ne small short =
      elim (Bool-cases (leb (length (join pages)) 0)) [
        | inl e ↦ rw e (nothing_written c.page_max pages ne (ground arith))
        | inr e ↦
            rw (e, gt→ltb _ _ small, gt→ltb _ _ short)
              (decode_from-write_pages pages (length (write_pages [] pages) + 1) [] [] _ 0 0 ne refl
                  (omega arith) (omega arith)
                ∙ ap (decompressed (join pages)) (omega arith))
      ]
