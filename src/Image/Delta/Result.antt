-- ===== src/Image/Delta/Result.antt =====
-- What `image_delta` returns for two images.
use mathlib.Core.Path.{subst}
use rdc_tools.Prelude.{
  ℕ, ◌*◌, ◌≤◌, ◌≡◌, ◌↔◌, refl, sym, if◌then◌else◌, ◌∙◌, arith, Bool, true, false, Option, none,
  some, List, length,
}
use rdc_tools.Image.{Image, valid}
use rdc_tools.Image.Delta.{ImageDelta, delta_from, delta_start, pixels_of, image_delta}
use rdc_tools.Image.Delta.Bounds.{
  AreCounts, AreComparable, length-pixels_of, pixels_of_injective, same_pixels, differing_same,
  delta_from-AreCounts, start-AreCounts, valid-length, image_delta_step, image_delta_refused,
}

-- A difference map: where one was asked for, an image of the size of both.
abbrev pub IsDifferenceMap : Image → Bool → Option Image → Type 0
IsDifferenceMap a false m = m ≡ none
IsDifferenceMap a true none = ⊥
IsDifferenceMap a true (some m) = (m.width ≡ a.width) × (m.height ≡ a.height) × (valid m ≡ true)

pub record IsMeasured (a b : Image) (heat : Bool) (r : ImageDelta × Option Image) : Type 0 where
  pub compared : AreComparable a b
  pub pixel_count : r.0.pixels ≡ a.width * a.height
  pub differing_le : r.0.differing ≤ r.0.pixels
  pub max_delta_le : r.0.max_delta ≤ r.0.sum_delta
  pub sum_delta_le : r.0.sum_delta ≤ r.0.differing * r.0.max_delta
  pub differing_sum : r.0.differing ≤ r.0.sum_delta
  pub heat_map : IsDifferenceMap a heat r.1

valid_of_size :
    (w h : ℕ) (xs : List ℕ) (a : Image)
    → valid a ≡ true
    → a.width ≡ w
    → a.height ≡ h
    → length xs ≡ w * h * 4
    → valid (record { width = w; height = h; rgba = xs }) ≡ true
unfolding valid
valid_of_size w h xs a v ew eh e = ground arith

length-right : (a b : Image) → AreComparable a b → length b.rgba ≡ a.width * a.height * 4
length-right a b c = rw (c.same_width, c.same_height) (valid-length b c.right_valid)

same_count :
    (a b : Image) → AreComparable a b → length (pixels_of a.rgba) ≡ length (pixels_of b.rgba)
same_count a b c =
    length-pixels_of (a.width * a.height) a.rgba (valid-length a c.left_valid)
    ∙ sym (length-pixels_of (a.width * a.height) b.rgba (length-right a b c))

loop-AreCounts :
    (a b : Image)
    → AreComparable a b
    → AreCounts (a.width * a.height) (delta_from (pixels_of a.rgba) (pixels_of b.rgba) delta_start)
loop-AreCounts a b c =
    subst (λ n. AreCounts n (delta_from (pixels_of a.rgba) (pixels_of b.rgba) delta_start))
      (omega (arith, length-pixels_of (a.width * a.height) a.rgba (valid-length a c.left_valid)))
      (delta_from-AreCounts (pixels_of a.rgba) (pixels_of b.rgba) 0 delta_start (same_count a b c)
        start-AreCounts)

heat_map-IsDifferenceMap :
    (a b : Image) (c : AreComparable a b) (heat : Bool)
    → IsDifferenceMap a heat (
        if heat
        then some (record {
          width = a.width;
          height = a.height;
          rgba = (delta_from (pixels_of a.rgba) (pixels_of b.rgba) delta_start).heat_rgba;
        })
        else none)
heat_map-IsDifferenceMap a b c true = (
  refl,
  refl,
  valid_of_size a.width a.height _ a c.left_valid refl refl (loop-AreCounts a b c).heat_size,
)
heat_map-IsDifferenceMap a b c false = refl

-- Where `image_delta` measures two images, both are valid and of one size; as many pixels differ as
-- there are at most; the worst channel is not above the sum, the sum not above the worst channel
-- for each differing pixel, and not below one for each; and the heat map, where one was asked for,
-- is a valid image of that size.
pub image_delta-IsMeasured :
    (a b : Image) (heat : Bool) (r : ImageDelta × Option Image)
    → image_delta a b heat ≡ some r
    → IsMeasured a b heat r
image_delta-IsMeasured a b heat r h =
    let c = image_delta_refused a b heat r h in
    let counts = loop-AreCounts a b c in
    subst (IsMeasured a b heat) (some_injective (sym (image_delta_step a b heat c) ∙ h)) (record {
      compared = c;
      pixel_count = refl;
      differing_le = counts.differing_le;
      max_delta_le = counts.max_delta_le;
      sum_delta_le = counts.sum_delta_le;
      differing_sum = counts.differing_sum;
      heat_map = heat_map-IsDifferenceMap a b c heat;
    })
  where
    some_injective : {x y : ImageDelta × Option Image} → some x ≡ some y → x ≡ y
    some_injective e = cc

-- Two valid images of one size are measured, and no pixel differs exactly where their bytes are the
-- same.
pub image_delta_same_iff :
    (a b : Image) (heat : Bool)
    → AreComparable a b
    → (r : ImageDelta × Option Image) × (image_delta a b heat ≡ some r)
      × ((r.0.differing ≡ 0) ↔ (a.rgba ≡ b.rgba))
image_delta_same_iff a b heat c = (
  _,
  image_delta_step a b heat c,
  (
    λ e.
        pixels_of_injective (a.width * a.height) a.rgba b.rgba (valid-length a c.left_valid)
          (length-right a b c)
          (same_pixels (pixels_of a.rgba) (pixels_of b.rgba) delta_start (same_count a b c) e),
    λ e. rw e (differing_same (pixels_of b.rgba) delta_start),
  ),
)
