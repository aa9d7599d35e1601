-- ===== src/Image/Png/Filter/Inverse.antt =====
-- The filters as the PNG format describes them, as a writer applies them to rows, and `_unfilter` on
-- what it writes. A row has a pixel of zeros in front of it, so that a byte's neighbour one pixel
-- before stands at the byte's own index.
use rdc_tools.Prelude.{
  ℕ, zero, suc, ◌+◌, ◌-◌, ◌*◌, ◌%◌, ◌/◌, max, min, if◌then◌else◌, ◌&&◌, Bool-cases, inl, inr, ltb,
  leb, ◌≤◌, ◌<◌, ◌≡◌, refl, sym, ap, ◌∙◌, arith, List, [], ◌∷◌, ◌++◌, length, length-take,
  length-drop, take, drop, get_or, take-append, drop-append, take-append-drop, append_assoc,
  append-nil, gt→ltb,
}
use rdc_tools.Image.Png.Filter.{
  distance, paeth, predicted, neighbour, unfilter_line, unfilter_rows, rows, zeros,
}

abbrev pub AreBytes : List ℕ → Type 0
AreBytes [] = Unit {0}
AreBytes (x ∷ xs) = (x < 256) × AreBytes xs

pub AreBytes-append : (xs ys : List ℕ) → AreBytes xs → AreBytes ys → AreBytes (xs ++ ys)
AreBytes-append [] ys a b = b
AreBytes-append (x ∷ xs) ys (a, as') b = (a, AreBytes-append xs ys as' b)

pub AreBytes-take : (n : ℕ) (xs : List ℕ) → AreBytes xs → AreBytes (take n xs)
AreBytes-take zero xs a = tt
AreBytes-take (suc n) [] a = tt
AreBytes-take (suc n) (x ∷ xs) (a, as') = (a, AreBytes-take n xs as')

pub AreBytes-drop : (n : ℕ) (xs : List ℕ) → AreBytes xs → AreBytes (drop n xs)
AreBytes-drop zero xs a = a
AreBytes-drop (suc n) [] a = tt
AreBytes-drop (suc n) (x ∷ xs) (a, as') = AreBytes-drop n xs as'

pub AreBytes-zeros : (n : ℕ) → AreBytes (zeros n)
AreBytes-zeros zero = tt
AreBytes-zeros (suc n) = (omega arith, AreBytes-zeros n)

get_or_fits : (xs : List ℕ) (i : ℕ) → AreBytes xs → get_or xs i 0 < 256
get_or_fits [] i a = omega arith
get_or_fits (x ∷ xs) zero (a, as') = a
get_or_fits (x ∷ xs) (suc i) (a, as') = get_or_fits xs i as'

neighbour_fits : (xs : List ℕ) (channels i : ℕ) → AreBytes xs → neighbour xs channels i < 256
neighbour_fits xs channels i a = ground (arith, get_or_fits xs (i - channels) a)

paeth_fits :
    (left above corner : ℕ)
    → left < 256
    → above < 256
    → corner < 256
    → paeth left above corner < 256
unfolding paeth
paeth_fits left above corner a b c = ground arith

predicted_fits :
    (kind left above corner : ℕ)
    → left < 256
    → above < 256
    → corner < 256
    → predicted kind left above corner < 256
unfolding predicted
predicted_fits kind left above corner a b c = ground (arith, paeth_fits left above corner a b c)

pub data RowFilter : Type 0 where
  plain sub up average nearest : RowFilter

abbrev pub filter_number : RowFilter → ℕ
filter_number plain = 0
filter_number sub = 1
filter_number up = 2
filter_number average = 3
filter_number nearest = 4

-- How far a candidate is from `left + above - corner`, its parts on the two sides.
abbrev pub miss : ℕ → ℕ → ℕ → ℕ → ℕ
miss left above corner x = max (left + above) (x + corner) - min (left + above) (x + corner)

-- The first of the candidates that none behind it is closer than.
abbrev pub closest : (ℕ → ℕ) → ℕ → List ℕ → ℕ
closest far best [] = best
closest far best (x ∷ xs) = closest far (if ltb (far x) (far best) then x else best) xs

abbrev pub prediction : RowFilter → ℕ → ℕ → ℕ → ℕ
prediction plain left above corner = 0
prediction sub left above corner = left
prediction up left above corner = above
prediction average left above corner = (left + above) / 2
prediction nearest left above corner = closest (miss left above corner) left (above ∷ corner ∷ [])

distance_lem : (x y : ℕ) → distance x y ≡ max x y - min x y
distance_lem x y = ground arith

closest_of_three :
    (far : ℕ → ℕ) (left above corner : ℕ)
    → (if leb (far left) (far above) && leb (far left) (far corner)
        then left
        else if leb (far above) (far corner)
        then above
        else corner)
      ≡ closest far left (above ∷ corner ∷ [])
closest_of_three far left above corner = elim (Bool-cases (ltb (far above) (far left))) [
  | inl t ↦ rw t (ground (arith, t))
  | inr f ↦ rw f (ground (arith, f))
]

paeth-closest :
    (left above corner : ℕ)
    → paeth left above corner ≡ closest (miss left above corner) left (above ∷ corner ∷ [])
unfolding paeth
paeth-closest left above corner =
    rw
      (
        distance_lem (left + above) (left + corner),
        distance_lem (left + above) (above + corner),
        distance_lem (left + above) (corner + corner),
      )
      (closest_of_three (miss left above corner) left above corner)

predicted-prediction :
    (kind : RowFilter) (left above corner : ℕ)
    → predicted (filter_number kind) left above corner ≡ prediction kind left above corner
unfolding predicted
predicted-prediction plain left above corner = refl
predicted-prediction sub left above corner = refl
predicted-prediction up left above corner = refl
predicted-prediction average left above corner = refl
predicted-prediction nearest left above corner = paeth-closest left above corner

-- The byte one pixel before the place `i` of a line.
abbrev pub pixel_before : List ℕ → ℕ → ℕ → ℕ
pixel_before line channels i = get_or (zeros channels ++ line) i 0

neighbour-pixel_before :
    (line : List ℕ) (channels i : ℕ) → neighbour line channels i ≡ pixel_before line channels i
neighbour-pixel_before line zero i = let e : i - 0 ≡ i = omega arith in rw e (ground arith)
neighbour-pixel_before line (suc channels) zero = ground arith
neighbour-pixel_before line (suc channels) (suc i) =
    let ih = neighbour-pixel_before line channels i in
    let e : suc i - suc channels ≡ i - channels = omega arith in rw e (ground (arith, ih))

-- A byte less what its filter predicts of it, by the row's own bytes before it and the row above.
unfoldable pub filter_line : RowFilter → ℕ → List ℕ → List ℕ → List ℕ → List ℕ
filter_line kind channels previous done [] = []
filter_line kind channels previous done (x ∷ xs) =
    let i = length done in
    let left = pixel_before done channels i in
    let corner = pixel_before previous channels i in
    ((x + (256 - prediction kind left (get_or previous i 0) corner)) % 256)
    ∷ filter_line kind channels previous (done ++ x ∷ []) xs

there_and_back : (x p : ℕ) → x < 256 → p < 256 → ((x + (256 - p)) % 256 + p) % 256 ≡ x
there_and_back x p a b = omega arith

module _ (kind : RowFilter) (channels : ℕ) (previous : List ℕ) (p : AreBytes previous) where
  unfilter_line-filter_line :
      (done xs : List ℕ)
      → AreBytes done
      → AreBytes xs
      → unfilter_line
          (filter_number kind)
          channels
          previous
          done
          (filter_line kind channels previous done xs)
        ≡ done ++ xs
  unfolding unfilter_line filter_line
  unfilter_line-filter_line done [] d a = sym (append-nil done)
  unfilter_line-filter_line done (x ∷ xs) d (a, as') =
      let i : ℕ = length done in
      let left : ℕ = neighbour done channels i in
      let above : ℕ = get_or previous i 0 in
      let corner : ℕ = neighbour previous channels i in
      rw
        (
          sym (neighbour-pixel_before done channels i),
          sym (neighbour-pixel_before previous channels i),
          sym (predicted-prediction kind left above corner),
          there_and_back x (predicted (filter_number kind) left above corner) a (
              predicted_fits (filter_number kind) left above corner
                (neighbour_fits done channels i d) (get_or_fits previous i p)
                (neighbour_fits previous channels i p)),
        )
        (unfilter_line-filter_line (done ++ x ∷ []) xs (AreBytes-append done (x ∷ []) d (a, tt)) as'
          ∙ append_assoc done (x ∷ []) xs)

length-filter_line :
    (kind : RowFilter) (channels : ℕ) (previous done xs : List ℕ)
    → length (filter_line kind channels previous done xs) ≡ length xs
unfolding filter_line
length-filter_line kind channels previous done [] = refl
length-filter_line kind channels previous done (x ∷ xs) =
    ap suc (length-filter_line kind channels previous (done ++ x ∷ []) xs)

-- Rows, each behind the number of the filter that it is written with.
unfoldable pub filter_rows : ℕ → ℕ → List RowFilter → List ℕ → List ℕ → List ℕ
filter_rows channels stride [] previous bytes = []
filter_rows channels stride (kind ∷ kinds) previous bytes =
    filter_number kind
    ∷ (filter_line kind channels previous [] (take stride bytes)
        ++ filter_rows channels stride kinds (take stride bytes) (drop stride bytes))

number_small : (kind : RowFilter) → filter_number kind ≤ 4
number_small plain = omega arith
number_small sub = omega arith
number_small up = omega arith
number_small average = omega arith
number_small nearest = omega arith

-- Rows of bytes that are written each with one of the five filters of the PNG format, whichever, are
-- read back.
pub unfilter_rows-filter_rows :
    (channels stride : ℕ) (kinds : List RowFilter) (y : ℕ) (previous bytes : List ℕ)
    → AreBytes previous
    → AreBytes bytes
    → length bytes ≡ length kinds * stride
    → unfilter_rows channels stride
        (length kinds)
        y
        previous
        (filter_rows channels stride kinds previous bytes)
      ≡ rows bytes
unfolding unfilter_rows filter_rows
unfilter_rows-filter_rows channels stride [] y previous [] p b h = refl
unfilter_rows-filter_rows channels stride [] y previous (x ∷ bytes) p b h = absurd (omega arith)
unfilter_rows-filter_rows channels stride (kind ∷ kinds) y previous bytes p b h =
    let row : List ℕ = take stride bytes in
    let line : List ℕ = filter_line kind channels previous [] row in
    let rest : List ℕ = filter_rows channels stride kinds row (drop stride bytes) in
    let row_size : length line ≡ stride =
      omega (arith, length-filter_line kind channels previous [] row, length-take stride bytes) in
    rw
      (
        take-append line rest stride row_size,
        drop-append line rest stride row_size,
        unfilter_line-filter_line kind channels previous p [] row tt (AreBytes-take stride bytes b),
        gt→ltb 4 (filter_number kind) (number_small kind),
        unfilter_rows-filter_rows channels stride kinds (y + 1) row (drop stride bytes)
            (AreBytes-take stride bytes b) (AreBytes-drop stride bytes b)
            (omega (arith, length-drop stride bytes)),
      )
      (ap rows (take-append-drop stride bytes))
