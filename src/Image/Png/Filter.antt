-- ===== src/Image/Png/Filter.antt =====
-- `_unfilter` of src/py/rdc_image.py: the five row filters undone. A byte's left and corner neighbours
-- are read from the row as it is built; `predicted` is what the filter adds to a byte.
pub mod Inverse
use rdc_tools.Prelude.{
  ℕ, zero, suc, ◌+◌, ◌-◌, ◌/◌, ◌%◌, Bool, ◌&&◌, List, [], ◌∷◌, ◌++◌, length, take, drop, get_or,
  replicate, ltb, leb, ◌==◌, if◌then◌else◌,
}

-- `bytearray(n)`
abbrev pub zeros : ℕ → List ℕ
zeros n = replicate n 0

-- `abs(x - y)`
abbrev pub distance : ℕ → ℕ → ℕ
distance x y = if ltb x y then y - x else x - y

-- `abs(estimate - v)` for `estimate = left + above - corner`, the corner added on both sides.
unfoldable pub paeth : ℕ → ℕ → ℕ → ℕ
paeth left above corner =
    let to_left = distance (left + above) (left + corner) in
    let to_above = distance (left + above) (above + corner) in
    let to_corner = distance (left + above) (corner + corner) in
    if leb to_left to_above && leb to_left to_corner
    then left
    else if leb to_above to_corner
    then above
    else corner

-- `line[i - channels] if i >= channels else 0`
abbrev pub neighbour : List ℕ → ℕ → ℕ → ℕ
neighbour line channels i = if leb channels i then get_or line (i - channels) 0 else 0

unfoldable pub predicted : ℕ → ℕ → ℕ → ℕ → ℕ
predicted kind left above corner =
    if kind == 1
    then left
    else if kind == 2
    then above
    else if kind == 3
    then (left + above) / 2
    else if kind == 4
    then paeth left above corner
    else 0

-- The bytes of a line from `length done` on, behind those that are done. The format adds 0 where the
-- source leaves a byte as it is: a byte is below 256.
unfoldable pub unfilter_line : ℕ → ℕ → List ℕ → List ℕ → List ℕ → List ℕ
unfilter_line kind channels previous done [] = done
unfilter_line kind channels previous done (x ∷ xs) =
    let i = length done in
    let left = neighbour done channels i in
    let corner = neighbour previous channels i in
    unfilter_line kind channels previous
      (done ++ ((x + predicted kind left (get_or previous i 0) corner) % 256) ∷ []) xs

-- The rows in order, or the row's number and filter type that is not defined; `no_row` is the
-- IndexError of data that ends.
pub data Unfiltered : Type 0 where
  rows : List ℕ → Unfiltered
  bad_filter : ℕ → ℕ → Unfiltered
  no_row : Unfiltered

abbrev pub behind_row : List ℕ → Unfiltered → Unfiltered
behind_row line (rows rest) = rows (line ++ rest)
behind_row line (bad_filter y kind) = bad_filter y kind
behind_row line no_row = no_row

unfoldable pub unfilter_rows : ℕ → ℕ → ℕ → ℕ → List ℕ → List ℕ → Unfiltered
unfilter_rows channels stride zero y previous raw = rows []
unfilter_rows channels stride (suc height) y previous [] = no_row
unfilter_rows channels stride (suc height) y previous (kind ∷ raw) =
    let line = unfilter_line kind channels previous [] (take stride raw) in
    let rest = unfilter_rows channels stride height (y + 1) line (drop stride raw) in
    if ltb 4 kind then bad_filter y kind else behind_row line rest
