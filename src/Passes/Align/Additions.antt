-- ===== src/Passes/Align/Additions.antt =====
-- The passes of B that no pair takes, and how often each place stands in their rows.
use rdc_tools.Prelude.{
  ℕ, suc, ◌+◌, ◌≤◌, ◌≡◌, refl, ap, ◌∙◌, arith, inl, inr, Bool, true, false, not, ◌&&◌, some, List,
  [], ◌∷◌, ◌++◌, length, ltb, leb, ◌==◌, if◌then◌else◌, Bool-cases, if_cases,
}
use rdc_tools.Uses.{any}
use rdc_tools.Passes.Markers.{MarkerPass}
use rdc_tools.Passes.Align.{Pair, taken_b, PassRow, added_from, is_among, added_rows}
use rdc_tools.Passes.Align.Places.{hit, hits, a_places}

-- Whether a place is one of an addition.
unfoldable pub is_place : List (ℕ × MarkerPass) → ℕ → Bool
is_place additions i = any (λ (j, other). j == i) additions

-- The additions have their places in order.
unfoldable pub AreAscending : ℕ → List (ℕ × MarkerPass) → Type 0
AreAscending s [] = Unit {0}
AreAscending s ((j, entry) ∷ additions) = (s ≤ j) × AreAscending (suc j) additions

-- How often a place stands in the rows of the additions that are left.
abbrev pub left_hits : ℕ → List (ℕ × MarkerPass) → List ℕ → ℕ
left_hits j additions consumed = hits j (added_rows additions consumed)

module _ (k : ℕ) (entry : MarkerPass) (additions : List (ℕ × MarkerPass)) (consumed : List ℕ)
    (j : ℕ) where
  pub left_out :
      is_among k consumed ≡ true
      → left_hits j ((k, entry) ∷ additions) consumed ≡ left_hits j additions consumed
  unfolding added_rows
  left_out e = rw (added_rows, e)

  pub left_in :
      is_among k consumed ≡ false
      → left_hits j ((k, entry) ∷ additions) consumed
        ≡ hit j (some k) + left_hits j additions consumed
  unfolding added_rows hits
  left_in e = rw (added_rows, e)

pub a_places_cong :
    (x y : PassRow) (xs ys : List PassRow)
    → x.a_index ≡ y.a_index
    → a_places xs ≡ a_places ys
    → a_places (x ∷ xs) ≡ a_places (y ∷ ys)
unfolding a_places
a_places_cong x y xs ys e h = rw (a_places, e, h)

abbrev pub one_if : Bool → ℕ
one_if b = if b then 1 else 0

ascending_later :
    (additions : List (ℕ × MarkerPass)) (s t : ℕ)
    → t ≤ s
    → AreAscending s additions
    → AreAscending t additions
unfolding AreAscending
ascending_later [] s t h o = tt
ascending_later ((j, entry) ∷ additions) s t h (o, p) = (omega (arith, h, o), p)

ascending_more :
    (ps : List Pair) (s : ℕ) (entry : MarkerPass) (b : List MarkerPass)
    → AreAscending (suc s) (added_from ps (suc s) b)
    → AreAscending s (added_from ps s (entry ∷ b))
unfolding added_from AreAscending
ascending_more ps s entry b ih =
    if_cases (AreAscending s) (taken_b ps s) _ _
      (λ t. ascending_later (added_from ps (suc s) b) (suc s) s (omega arith) ih)
      (λ f. (omega arith, ih))

no_additions :
    (ps : List Pair) (s j : ℕ)
    → left_hits j (added_from ps s []) [] ≡ one_if (leb s j && ltb j (s + 0) && not (taken_b ps j))
unfolding added_from added_rows hits
no_additions ps s j = ground arith

first_hits :
    (ps : List Pair) (s j n : ℕ) (x : ℕ)
    → taken_b ps s ≡ false
    → x ≡ one_if (leb (suc s) j && ltb j (suc s + n) && not (taken_b ps j))
    → hit j (some s) + x ≡ one_if (leb s j && ltb j (s + suc n) && not (taken_b ps j))
first_hits ps s j n x f ih = elim (Bool-cases (s == j)) [
  | inl t ↦
      let here : s ≡ j = ground (arith, t) in
      let free : taken_b ps j ≡ false = rw here at f in rw (t, ih, free) (ground (arith, here))
  | inr g ↦ rw (g, ih) (ground (arith, g))
]

passed_hits :
    (ps : List Pair) (s j n : ℕ)
    → taken_b ps s ≡ true
    → one_if (leb (suc s) j && ltb j (suc s + n) && not (taken_b ps j))
      ≡ one_if (leb s j && ltb j (s + suc n) && not (taken_b ps j))
passed_hits ps s j n t = elim (Bool-cases (s == j)) [
  | inl e ↦
      let here : s ≡ j = ground (arith, e) in
      let held : taken_b ps j ≡ true = rw here at t in rw held (ground arith)
  | inr g ↦ ground (arith, g)
]

none_among : (k : ℕ) → is_among k [] ≡ false
unfolding any
none_among k = refl

module _ (ps : List Pair) (s : ℕ) (entry : MarkerPass) (b : List MarkerPass) where
  addition_passed : taken_b ps s ≡ true → added_from ps s (entry ∷ b) ≡ added_from ps (suc s) b
  unfolding added_from
  addition_passed t = rw (added_from, t)

  addition_kept :
      taken_b ps s ≡ false → added_from ps s (entry ∷ b) ≡ (s, entry) ∷ added_from ps (suc s) b
  unfolding added_from
  addition_kept f = rw (added_from, f)

hits_more :
    (ps : List Pair) (s : ℕ) (entry : MarkerPass) (b : List MarkerPass) (j : ℕ)
    → left_hits j (added_from ps (suc s) b) []
      ≡ one_if (leb (suc s) j && ltb j (suc s + length b) && not (taken_b ps j))
    → left_hits j (added_from ps s (entry ∷ b)) []
      ≡ one_if (leb s j && ltb j (s + suc (length b)) && not (taken_b ps j))
hits_more ps s entry b j ih = elim (Bool-cases (taken_b ps s)) [
  | inl t ↦
      ap (λ l. left_hits j l []) (addition_passed ps s entry b t)
      ∙ ih
      ∙ passed_hits ps s j (length b) t
  | inr f ↦
      ap (λ l. left_hits j l []) (addition_kept ps s entry b f)
      ∙ left_in s entry (added_from ps (suc s) b) [] j (none_among s)
      ∙ first_hits ps s j (length b) _ f ih
]

no_places :
    (additions : List (ℕ × MarkerPass)) (consumed : List ℕ)
    → a_places (added_rows additions consumed) ≡ []
unfolding added_rows a_places
no_places [] consumed = refl
no_places ((j, entry) ∷ additions) consumed =
    if_cases (λ rows. a_places rows ≡ []) (is_among j consumed) _ _
      (λ t. no_places additions consumed) (λ f. no_places additions consumed)

pub added_from-AreAscending :
    (ps : List Pair) (s : ℕ) (b : List MarkerPass) → AreAscending s (added_from ps s b)
added_from-AreAscending ps s [] = unfold added_from in unfold AreAscending in tt
added_from-AreAscending ps s (entry ∷ b) =
    ascending_more ps s entry b (added_from-AreAscending ps (suc s) b)

-- An addition is each place that no pair takes.
pub added_hits :
    (ps : List Pair) (s : ℕ) (b : List MarkerPass) (j : ℕ)
    → left_hits j (added_from ps s b) []
      ≡ one_if (leb s j && ltb j (s + length b) && not (taken_b ps j))
added_hits ps s [] j = no_additions ps s j
added_hits ps s (entry ∷ b) j = hits_more ps s entry b j (added_hits ps (suc s) b j)

pub a_places-append :
    (xs : List PassRow) (additions : List (ℕ × MarkerPass)) (consumed : List ℕ)
    → a_places (xs ++ added_rows additions consumed) ≡ a_places xs
unfolding a_places
a_places-append [] additions consumed = no_places additions consumed
a_places-append (x ∷ xs) additions consumed =
    a_places_cong x x (xs ++ added_rows additions consumed) xs refl
      (a_places-append xs additions consumed)
