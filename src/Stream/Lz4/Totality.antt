-- ===== src/Stream/Lz4/Totality.antt =====
-- The decoder's loop ends, and what it returns is whole.
use rdc_tools.Prelude.{
  ℕ, zero, suc, ◌+◌, ◌-◌, ◌^◌, ◌≤◌, ◌<◌, ◌≡◌, arith, Option, List, [], ◌++◌, length, leb, ltb, ◌&&◌,
  ◌||◌, ◌==◌, if_both, if_cases, bool_cases, option_cases, drop, take,
}
use rdc_tools.Stream.Words.{u32, u32_fits}
use rdc_tools.Stream.Lz4.{
  Decoder, Decompressed, decompressed, lz4_error, lz4_struct_error, lz4_out_of_fuel, lz4_dict_size,
  finish_pages, decode_page, decode_from, decompress_lz4, lz4_c_max,
}

-- The dictionary of a page is the output's own tail: it reaches back no further than the output does,
-- and no further than 64 KB, and as far as both allow.
lz4_dict_size_bounds :
    (written : ℕ)
    → (lz4_dict_size written ≤ written)
      × (lz4_dict_size written ≤ 2 ^ 16)
      × ((k : ℕ) → k ≤ written → k ≤ 2 ^ 16 → k ≤ lz4_dict_size written)
unfolding lz4_dict_size
lz4_dict_size_bounds written = (ground arith, ground arith, λ k a b. ground arith)

-- What the loop is to return: an output of the declared size, or an error.
abbrev pub IsWhole : ℕ → Decompressed → Type 0
IsWhole expect (decompressed out blocks) = length out ≡ expect
IsWhole expect (lz4_error e) = Unit {0}
IsWhole expect lz4_struct_error = ⊥
IsWhole expect lz4_out_of_fuel = ⊥

finish_pages-IsWhole :
    (expect : ℕ) (out : List ℕ) (blocks : ℕ) → IsWhole expect (finish_pages expect out blocks)
unfolding finish_pages
finish_pages-IsWhole expect out blocks =
    if_cases (IsWhole expect) (length out == expect) _ _ (λ e. ground arith) (λ e. tt)

module _ (d : Decoder) (blob : List ℕ) (expect : ℕ) where
  decode_page-IsWhole :
      (again : ℕ → List ℕ → ℕ → Decompressed) (o : ℕ) (out : List ℕ) (blocks clen : ℕ)
      → ((o' : ℕ) (out' : List ℕ) (k : ℕ)
          → o + 1 ≤ o'
          → o' ≤ length blob
          → IsWhole expect (again o' out' k))
      → IsWhole expect (decode_page d blob expect again o out blocks clen)
  unfolding decode_page
  decode_page-IsWhole again o out blocks clen h =
      if_cases (IsWhole expect) (clen == 0 || ltb (length blob) (o + clen)) _ _
        (λ e. finish_pages-IsWhole expect out blocks)
        λ e.
          option_cases (IsWhole expect)
            (d.decode (take clen (drop o blob)) (expect - length out)
              (drop (length out - lz4_dict_size (length out)) out))
            _ _ (λ r. tt)
            (λ page r. h (o + clen) (out ++ page) (blocks + 1) (ground arith) (ground arith))

  decode_from-IsWhole :
      (fuel o : ℕ) (out : List ℕ) (blocks : ℕ)
      → length blob - o < fuel
      → IsWhole expect (decode_from d blob expect fuel o out blocks)
  unfolding decode_from
  decode_from-IsWhole zero o out blocks h = absurd (omega arith)
  decode_from-IsWhole (suc fuel) o out blocks h =
      bool_cases (IsWhole expect) (leb (o + 4) (length blob) && ltb (length out) expect) _ _
        (λ more.
          let (clen, r) = u32_fits blob o (ground arith) in
          option_cases (IsWhole expect) (u32 blob o) _ _ (λ q. cc)
            λ clen q.
              decode_page-IsWhole (decode_from d blob expect fuel) (o + 4) out blocks clen
                λ o' out' k a b. decode_from-IsWhole fuel o' out' k (omega arith))
        (λ done. finish_pages-IsWhole expect out blocks)

-- On every body and every declared size the decoder ends, with an output of exactly the declared size
-- or with a `FrameError`: a section that decodes to fewer bytes is never returned as if it were whole.
pub decompress_lz4-IsWhole :
    (library : Option Decoder) (blob : List ℕ) (expect : ℕ)
    → IsWhole expect (decompress_lz4 library blob expect)
unfolding decompress_lz4
decompress_lz4-IsWhole library blob expect =
    if_cases (IsWhole expect) (leb expect 0) _ _ (λ e. ground arith)
      λ e.
        option_cases (IsWhole expect) library _ _ (λ r. tt)
          λ d r.
            if_both (IsWhole expect) (ltb lz4_c_max expect || ltb lz4_c_max (length blob)) _ _ tt
              (decode_from-IsWhole d blob expect (length blob + 1) 0 [] 0 (omega arith))
