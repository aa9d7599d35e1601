-- ===== src/Image/Delta/Bounds.antt =====
-- What the counts of `image_delta` say.
use rdc_tools.Prelude.{
  ℕ, suc, ◌+◌, ◌*◌, ◌≤◌, ◌≡◌, refl, arith, Bool, true, Option, some, List, [], ◌∷◌, length,
  length-append, ◌==◌, none, if◌then◌else◌,
}
use mathlib.Core.Path.{ap₂, subst}
use native.Mathlib.Nat.{mul-le-mul_left}
use rdc_tools.Image.{Image, valid}
use rdc_tools.Image.Delta.{
  Pixel, ImageDelta, pixels_of, channel_diff, raise_to, pixel_delta, heat_pixel, count_pixel,
  DeltaState, delta_from, delta_start, image_delta,
}

pub length-pixels_of : (n : ℕ) (xs : List ℕ) → length xs ≡ n * 4 → length (pixels_of xs) ≡ n
unfolding pixels_of
length-pixels_of ℕ.zero [] h = refl
length-pixels_of ℕ.zero (x ∷ xs) h = absurd (omega arith)
length-pixels_of (suc n) (r ∷ g ∷ b ∷ a ∷ xs) h = omega (arith, length-pixels_of n xs (omega arith))
length-pixels_of (suc n) _ h = absurd (omega arith)

pub pixels_of_injective :
    (n : ℕ) (xs ys : List ℕ)
    → length xs ≡ n * 4
    → length ys ≡ n * 4
    → pixels_of xs ≡ pixels_of ys
    → xs ≡ ys
unfolding pixels_of
pixels_of_injective ℕ.zero [] [] h k e = refl
pixels_of_injective ℕ.zero [] (y ∷ ys) h k e = absurd (omega arith)
pixels_of_injective ℕ.zero (x ∷ xs) ys h k e = absurd (omega arith)
pixels_of_injective (suc n) (r ∷ g ∷ b ∷ a ∷ xs) (r' ∷ g' ∷ b' ∷ a' ∷ ys) h k e =
    let rest = pixels_of_injective n xs ys (omega arith) (omega arith) cc in ground (arith, rest, e)
pixels_of_injective (suc n) _ _ h k e = absurd (omega arith)

channel_diff_zero : (x y : ℕ) → channel_diff x y ≡ 0 → x ≡ y
channel_diff_zero x y h = ground arith

raise_to_zero : (delta diff : ℕ) → raise_to delta diff ≡ 0 → (delta ≡ 0) × (diff ≡ 0)
raise_to_zero delta diff h = (ground arith, ground arith)

raise_to_le : (delta diff : ℕ) → (delta ≤ raise_to delta diff) × (diff ≤ raise_to delta diff)
raise_to_le delta diff = (ground arith, ground arith)

sum_step : (d m s delta : ℕ) → s ≤ d * m → s + delta ≤ (d + 1) * raise_to m delta
sum_step d m s delta h = let (a, b) = raise_to_le m delta in omega (arith, mul-le-mul_left d a)

pixel_delta_zero : (p q : Pixel) → pixel_delta p q ≡ 0 → p ≡ q
unfolding pixel_delta
pixel_delta_zero p q h =
    let (h3, ea) = raise_to_zero _ (channel_diff p.a q.a) h in
    let (h2, eb) = raise_to_zero _ (channel_diff p.b q.b) h3 in
    let (h1, eg) = raise_to_zero _ (channel_diff p.g q.g) h2 in
    let (h0, er) = raise_to_zero 0 (channel_diff p.r q.r) h1 in
    record_eq (channel_diff_zero p.r q.r er) (channel_diff_zero p.g q.g eg)
      (channel_diff_zero p.b q.b eb) (channel_diff_zero p.a q.a ea)
  where
    record_eq : p.r ≡ q.r → p.g ≡ q.g → p.b ≡ q.b → p.a ≡ q.a → p ≡ q
    record_eq h1 h2 h3 h4 = cc

pixel_delta_refl : (p : Pixel) → pixel_delta p p ≡ 0
unfolding pixel_delta
pixel_delta_refl p = ground arith

-- What the loop keeps of its counters, after `n` pixels.
pub record AreCounts (n : ℕ) (st : DeltaState) : Type 0 where
  pub differing_le : st.differing ≤ n
  pub max_delta_le : st.max_delta ≤ st.sum_delta
  pub sum_delta_le : st.sum_delta ≤ st.differing * st.max_delta
  pub differing_sum : st.differing ≤ st.sum_delta
  pub heat_size : length st.heat_rgba ≡ n * 4

count_pixel-AreCounts :
    (n delta : ℕ) (st : DeltaState) → AreCounts n st → AreCounts (n + 1) (count_pixel delta st)
unfolding count_pixel heat_pixel
count_pixel-AreCounts n delta st h = record {
  differing_le = ground (arith, h);
  max_delta_le = ground (arith, h);
  sum_delta_le =
      ground (arith, sum_step st.differing st.max_delta st.sum_delta delta h.sum_delta_le, h);
  differing_sum = ground (arith, h);
  heat_size = omega (arith, h.heat_size, length-append st.heat_rgba (heat_pixel delta));
}

differing-count_pixel :
    (delta : ℕ) (st : DeltaState)
    → (count_pixel delta st).differing ≡ (if delta == 0 then st.differing else st.differing + 1)
unfolding count_pixel
differing-count_pixel delta st = refl

-- The loop adds to the count of differing pixels exactly where two pixels differ.
differing-le-delta_from :
    (ps qs : List Pixel) (st : DeltaState) → st.differing ≤ (delta_from ps qs st).differing
unfolding delta_from
differing-le-delta_from [] qs st = omega arith
differing-le-delta_from (p ∷ ps) [] st = omega arith
differing-le-delta_from (p ∷ ps) (q ∷ qs) st =
    let rest = differing-le-delta_from ps qs (count_pixel (pixel_delta p q) st) in
    ground (arith, rest, differing-count_pixel (pixel_delta p q) st)

pub same_pixels :
    (ps qs : List Pixel) (st : DeltaState)
    → length ps ≡ length qs
    → (delta_from ps qs st).differing ≡ st.differing
    → ps ≡ qs
unfolding delta_from
same_pixels [] [] st h e = refl
same_pixels [] (q ∷ qs) st h e = absurd (omega arith)
same_pixels (p ∷ ps) [] st h e = absurd (omega arith)
same_pixels (p ∷ ps) (q ∷ qs) st h e =
    let next : DeltaState = count_pixel (pixel_delta p q) st in
    let one = differing-count_pixel (pixel_delta p q) st in
    let zero_delta : pixel_delta p q ≡ 0 =
      ground (arith, differing-le-delta_from ps qs next, one, e) in
    let rest = same_pixels ps qs next (omega arith) (ground (arith, one, zero_delta, e)) in
    ap₂ (λ x xs. x ∷ xs) (pixel_delta_zero p q zero_delta) rest

pub differing_same :
    (ps : List Pixel) (st : DeltaState) → (delta_from ps ps st).differing ≡ st.differing
unfolding delta_from
differing_same [] st = refl
differing_same (p ∷ ps) st =
    let next : DeltaState = count_pixel (pixel_delta p p) st in
    ground (
      arith,
      differing_same ps next,
      differing-count_pixel (pixel_delta p p) st,
      pixel_delta_refl p,
    )

pub delta_from-AreCounts :
    (ps qs : List Pixel) (k : ℕ) (st : DeltaState)
    → length ps ≡ length qs
    → AreCounts k st
    → AreCounts (k + length ps) (delta_from ps qs st)
unfolding delta_from
delta_from-AreCounts [] [] k st h c = subst (λ j. AreCounts j st) (omega arith) c
delta_from-AreCounts [] (q ∷ qs) k st h c = absurd (omega arith)
delta_from-AreCounts (p ∷ ps) [] k st h c = absurd (omega arith)
delta_from-AreCounts (p ∷ ps) (q ∷ qs) k st h c =
    subst (λ j. AreCounts j (delta_from ps qs (count_pixel (pixel_delta p q) st))) (omega arith)
      (delta_from-AreCounts ps qs (k + 1) (count_pixel (pixel_delta p q) st) (omega arith)
        (count_pixel-AreCounts k (pixel_delta p q) st c))

pub start-AreCounts : AreCounts 0 delta_start
start-AreCounts = record {
  differing_le = omega arith;
  max_delta_le = omega arith;
  sum_delta_le = omega arith;
  differing_sum = omega arith;
  heat_size = refl;
}

-- The images that `image_delta` compares: both valid, and of one size.
pub record AreComparable (a b : Image) : Type 0 where
  pub left_valid : valid a ≡ true
  pub right_valid : valid b ≡ true
  pub same_width : a.width ≡ b.width
  pub same_height : a.height ≡ b.height

pub valid-length : (a : Image) → valid a ≡ true → length a.rgba ≡ a.width * a.height * 4
unfolding valid
valid-length a h = ground arith

pub image_delta_step :
    (a b : Image) (heat : Bool)
    → AreComparable a b
    → image_delta a b heat ≡ (
        let st = delta_from (pixels_of a.rgba) (pixels_of b.rgba) delta_start in
        some (
          record {
            pixels = a.width * a.height;
            differing = st.differing;
            max_delta = st.max_delta;
            sum_delta = st.sum_delta;
          },
          if heat
              then some (record { width = a.width; height = a.height; rgba = st.heat_rgba })
              else none,
        ))
unfolding image_delta
image_delta_step a b heat c =
    ground (arith, c.left_valid, c.right_valid, c.same_width, c.same_height)

pub image_delta_refused :
    (a b : Image) (heat : Bool) (r : ImageDelta × Option Image)
    → image_delta a b heat ≡ some r
    → AreComparable a b
unfolding image_delta
image_delta_refused a b heat r h = record {
  left_valid = ground arith;
  right_valid = ground arith;
  same_width = ground arith;
  same_height = ground arith;
}
