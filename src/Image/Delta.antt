-- ===== src/Image/Delta.antt =====
-- `image_delta` of src/py/rdc_image.py. The loop over the pixels is recursion on the two buffers'
-- pixels, of which both have as many, since both images are valid.
pub mod Bounds
pub mod Result
use rdc_tools.Prelude.{
  ℕ, ◌+◌, ◌-◌, ◌*◌, Bool, true, false, not, ◌||◌, Option, none, some, List, [], ◌∷◌, ◌++◌, ltb,
  ◌==◌, if◌then◌else◌,
}
use rdc_tools.Image.{Image, valid}

pub record ImageDelta : Type 0 where
  pub pixels : ℕ
  pub differing : ℕ
  pub max_delta : ℕ
  pub sum_delta : ℕ

abbrev pub heat_scale : ℕ
heat_scale = 8

-- `diff = x - y`, made positive.
abbrev pub channel_diff : ℕ → ℕ → ℕ
channel_diff x y = if ltb x y then y - x else x - y

-- `if diff > delta: delta = diff`
abbrev pub raise_to : ℕ → ℕ → ℕ
raise_to delta diff = if ltb delta diff then diff else delta

-- Four bytes of a buffer, `rgba[i:i + 4]`.
pub record Pixel : Type 0 where
  pub r : ℕ
  pub g : ℕ
  pub b : ℕ
  pub a : ℕ

unfoldable pub pixels_of : List ℕ → List Pixel
pixels_of (r ∷ g ∷ b ∷ a ∷ xs) = record { r = r; g = g; b = b; a = a } ∷ pixels_of xs
pixels_of _ = []

-- A pixel's worst channel.
unfoldable pub pixel_delta : Pixel → Pixel → ℕ
pixel_delta p q =
    raise_to
      (raise_to (raise_to (raise_to 0 (channel_diff p.r q.r)) (channel_diff p.g q.g))
        (channel_diff p.b q.b))
      (channel_diff p.a q.a)

-- The loop's counters and the heat map.
pub record DeltaState : Type 0 where
  pub differing : ℕ
  pub max_delta : ℕ
  pub sum_delta : ℕ
  pub heat_rgba : List ℕ

-- `255 if level > 255 else level`
abbrev pub heat_level : ℕ → ℕ
heat_level delta = if ltb 255 (delta * heat_scale) then 255 else delta * heat_scale

unfoldable pub heat_pixel : ℕ → List ℕ
heat_pixel delta = 0 ∷ heat_level delta ∷ heat_level delta ∷ 255 ∷ []

-- One round, on a pixel's delta.
unfoldable pub count_pixel : ℕ → DeltaState → DeltaState
count_pixel delta st = record {
  differing = if delta == 0 then st.differing else st.differing + 1;
  max_delta = if delta == 0 then st.max_delta else raise_to st.max_delta delta;
  sum_delta = if delta == 0 then st.sum_delta else st.sum_delta + delta;
  heat_rgba = st.heat_rgba ++ heat_pixel delta;
}

unfoldable pub delta_from : List Pixel → List Pixel → DeltaState → DeltaState
delta_from [] qs st = st
delta_from (p ∷ ps) [] st = st
delta_from (p ∷ ps) (q ∷ qs) st = delta_from ps qs (count_pixel (pixel_delta p q) st)

abbrev pub delta_start : DeltaState
delta_start = record { differing = 0; max_delta = 0; sum_delta = 0; heat_rgba = [] }

unfoldable pub image_delta : Image → Image → Bool → Option (ImageDelta × Option Image)
image_delta a b heat =
    if not (valid a) || (not (valid b) || (not (a.width == b.width) || not (a.height == b.height)))
    then none
    else let st = delta_from (pixels_of a.rgba) (pixels_of b.rgba) delta_start in
      some (
        record {
          pixels = a.width * a.height;
          differing = st.differing;
          max_delta = st.max_delta;
          sum_delta = st.sum_delta;
        },
        if heat
            then some (record { width = a.width; height = a.height; rgba = st.heat_rgba })
            else none,
      )
