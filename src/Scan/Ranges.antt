-- ===== src/Scan/Ranges.antt =====
-- `split_ranges` and `_safe_cut` of src/py/rdc_scan.py: the slices of the string scan. A round of the
-- loop adds a range, of which there are `want - 1` before the last, so that it is recursion on those.
pub mod Split
use rdc_tools.Prelude.{
  ℕ, zero, suc, ◌+◌, ◌-◌, ◌/◌, Bool, not, ◌&&◌, ◌||◌, Option, none, some, List, [], ◌∷◌, length,
  get_or, ltb, leb, ◌==◌, min, max, if◌then◌else◌,
}
use rdc_tools.Scan.{search}

abbrev pub cut_search : ℕ
cut_search = 0x400000

-- `0x20 <= byte <= 0x7E`
abbrev pub printable : ℕ → Bool
printable byte = leb 0x20 byte && leb byte 0x7e

unfoldable pub can_cut : List ℕ → ℕ → Bool
can_cut stream at = not (printable (get_or stream at 0))

unfoldable pub safe_cut : List ℕ → ℕ → Option ℕ
safe_cut stream pos = search (can_cut stream) pos (min (length stream) (pos + cut_search) - pos)

-- The cut behind a range that starts at `start`, where there is one.
unfoldable pub next_cut : List ℕ → ℕ → ℕ → Option ℕ
next_cut stream step start =
    if not (ltb start (length stream)) || leb (length stream) (min (length stream) (start + step))
    then none
    else safe_cut stream (min (length stream) (start + step))

unfoldable pub ranges_from : List ℕ → ℕ → ℕ → ℕ → List (ℕ × ℕ)
ranges_from stream step zero start = (start, length stream) ∷ []
ranges_from stream step (suc more) start = elim (next_cut stream step start) [
  | none ↦ (start, length stream) ∷ []
  | some cut ↦ (start, cut) ∷ ranges_from stream step more cut
]

unfoldable pub split_ranges : List ℕ → ℕ → List (ℕ × ℕ)
split_ranges stream want =
    if ltb want 2 || length stream == 0
    then (0, length stream) ∷ []
    else ranges_from stream (max 1 (length stream / want)) (want - 1) 0
