-- ===== src/Passes/Align/Places.antt =====
-- The rows of the pairs: one for each pass of A in order, and each pass of B in one that is paired.
use rdc_tools.Prelude.{
  All, ℕ, zero, suc, ◌+◌, ◌≤◌, ◌<◌, ◌≡◌, refl, ◌∙◌, arith, inl, inr, true, false, Option, none,
  some, List, [], ◌∷◌, length, get_elem-inside, ◌==◌, if◌then◌else◌, Bool-cases, Option-cases,
  ◌>>=◌,
}
use rdc_tools.Uses.{any, find}
use rdc_tools.Passes.Markers.{MarkerPass}
use rdc_tools.Passes.Align.{Pair, taken_a, taken_b, PassRow, RowStatus, removed, row_of, rows_from}
use rdc_tools.Passes.Align.Pairs.{IsMatching, or_false}

abbrev pub hit : ℕ → Option ℕ → ℕ
hit j none = 0
hit j (some x) = if x == j then 1 else 0

-- How often a place of B stands in the rows.
unfoldable pub hits : ℕ → List PassRow → ℕ
hits j [] = 0
hits j (row ∷ rows) = hit j row.b_index + hits j rows

abbrev pub with_place : Option ℕ → List ℕ → List ℕ
with_place none places = places
with_place (some i) places = i ∷ places

-- The places of A in the rows.
unfoldable pub a_places : List PassRow → List ℕ
a_places [] = []
a_places (row ∷ rows) = with_place row.a_index (a_places rows)

abbrev pub count_up : ℕ → ℕ → List ℕ
count_up s zero = []
count_up s (suc n) = s ∷ count_up (suc s) n

-- A removed row has no place in B yet.
abbrev pub FreshAt : RowStatus → Option ℕ → Type 0
FreshAt removed o = o ≡ none
FreshAt _ o = Unit

abbrev pub IsFresh : PassRow → Type 0
IsFresh row = FreshAt row.status row.b_index

unfoldable pub partner : List Pair → ℕ → Option ℕ
partner ps i = elim (find (λ p. p.a_index == i) ps) [ none ↦ none | some p ↦ some p.b_index ]

unfoldable pub partner_hits : List Pair → ℕ → ℕ → ℕ → ℕ
partner_hits ps j s zero = 0
partner_hits ps j s (suc n) = hit j (partner ps s) + partner_hits ps j (suc s) n

module _ (p : Pair) (ps : List Pair) (i : ℕ) where
  partner_own : (p.a_index == i) ≡ true → partner (p ∷ ps) i ≡ some p.b_index
  unfolding partner find
  partner_own e = rw (partner, e)

  partner_other : (p.a_index == i) ≡ false → partner (p ∷ ps) i ≡ partner ps i
  unfolding partner find
  partner_other e = rw (partner, e)

free_cons :
    (p : Pair) (ps : List Pair) (i : ℕ)
    → taken_a (p ∷ ps) i ≡ false
    → ((p.a_index == i) ≡ false) × (taken_a ps i ≡ false)
unfolding taken_a any
free_cons p ps i h = or_false (p.a_index == i) (taken_a ps i) h

partner-none : (ps : List Pair) (i : ℕ) → taken_a ps i ≡ false → partner ps i ≡ none
partner-none [] i h = unfold partner in unfold find in refl
partner-none (p ∷ ps) i h =
    let (apart, rest) = free_cons p ps i h in partner_other p ps i apart ∙ partner-none ps i rest

-- Before the place of its pass of A, and behind it, a pair changes nothing.
hits_behind :
    (p : Pair) (ps : List Pair) (j s n : ℕ)
    → p.a_index < s
    → partner_hits (p ∷ ps) j s n ≡ partner_hits ps j s n
unfolding partner_hits
hits_behind p ps j s zero h = refl
hits_behind p ps j s (suc n) h =
    rw (partner_other p ps s (ground (arith, h)), hits_behind p ps j (suc s) n (omega (arith, h)))

hits_pair :
    (p : Pair) (ps : List Pair) (j s n : ℕ)
    → s ≤ p.a_index
    → p.a_index < s + n
    → taken_a ps p.a_index ≡ false
    → partner_hits (p ∷ ps) j s n ≡ hit j (some p.b_index) + partner_hits ps j s n
unfolding partner_hits
hits_pair p ps j s zero lo hi free = absurd (omega (arith, lo, hi))
hits_pair p ps j s (suc n) lo hi free = elim (Bool-cases (p.a_index == s)) [
  | inl t ↦
      let here : p.a_index ≡ s = ground (arith, t) in
      let alone : partner ps s ≡ none = partner-none ps s (rw here at free) in
      rw (partner_own p ps s t, alone, hits_behind p ps j (suc s) n (omega (arith, here)))
        (omega arith)
  | inr f ↦
      let ih = hits_pair p ps j (suc s) n (ground (arith, lo, f)) (omega (arith, hi)) free in
      rw (partner_other p ps s f, ih) (omega arith)
]

no_hits : (j s n : ℕ) → partner_hits [] j s n ≡ 0
unfolding partner_hits partner find
no_hits j s zero = refl
no_hits j s (suc n) = omega (arith, no_hits j (suc s) n)

-- Each place of B that is taken is the partner of one pass of A.
pub partner_hits_lem :
    (ps : List Pair) (n m j : ℕ)
    → IsMatching n m ps
    → partner_hits ps j 0 n ≡ (if taken_b ps j then 1 else 0)
unfolding IsMatching taken_b any
partner_hits_lem [] n m j ok = no_hits j 0 n
partner_hits_lem (p ∷ ps) n m j (a, b, fa, fb, ok) =
    let ih = partner_hits_lem ps n m j ok in
    hits_pair p ps j 0 n (omega arith) (omega (arith, a)) fa ∙ (elim (Bool-cases (p.b_index == j)) [
      | inl t ↦
          let here : p.b_index ≡ j = ground (arith, t) in
          let alone = rw here at fb in rw (ih, t, alone) (omega arith)
      | inr f ↦ rw (ih, f) (omega arith)
    ])

-- A row for each pass of A, with its partner.
IsRow : List Pair → ℕ → Option PassRow → Type 0
IsRow ps i none = ⊥
IsRow ps i (some row) = (row.a_index ≡ some i) × (row.b_index ≡ partner ps i) × IsFresh row

-- The pair that is found is of B.
found_inside :
    (ps : List Pair) (n m i : ℕ) (p : Pair)
    → IsMatching n m ps
    → find (λ p. p.a_index == i) ps ≡ some p
    → p.b_index < m
unfolding find IsMatching
found_inside [] n m i p ok e = cc
found_inside (q ∷ ps) n m i p (a, b, fa, fb, ok) e = elim (Bool-cases (q.a_index == i)) [
  | inl t ↦ ground (arith, b, t, e)
  | inr f ↦ found_inside ps n m i p ok (rw f at e)
]

row_of-IsRow :
    (b : List MarkerPass) (ps : List Pair) (n i : ℕ) (entry : MarkerPass)
    → IsMatching n (length b) ps
    → IsRow ps i (row_of b ps i entry)
unfolding row_of IsRow partner
row_of-IsRow b ps n i entry ok = elim (Option-cases (find (λ p. p.a_index == i) ps)) [
  | inl e ↦ rw (row_of, e) (refl, rw (partner, e), refl)
  | inr (p, e) ↦
      let (other, f) = get_elem-inside b p.b_index (found_inside ps n (length b) i p ok e) in
      rw (row_of, e, f) (refl, rw (partner, e), tt)
]

-- The rows of A from a place on.
unfoldable pub ArePlaced : List Pair → ℕ → ℕ → Option (List PassRow) → Type 0
ArePlaced ps s n none = ⊥
ArePlaced ps s n (some rows) =
    (a_places rows ≡ count_up s n)
    × ((j : ℕ) → hits j rows ≡ partner_hits ps j s n)
    × All IsFresh rows

place_row :
    (ps : List Pair) (s n : ℕ) (row : Option PassRow) (rows : Option (List PassRow))
    → IsRow ps s row
    → ArePlaced ps (suc s) n rows
    → ArePlaced ps s (suc n) (row >>= λ r. rows >>= λ rs. some (r ∷ rs))
unfolding IsRow ArePlaced a_places hits partner_hits
place_row ps s n none rows r p = absurd r
place_row ps s n (some row) none r p = absurd p
place_row ps s n (some row) (some rows) (ra, rb, rf) (pa, ph, pf) =
    (rw (ra, pa), λ j. rw (rb, ph j), (rf, pf))

no_rows : (b : List MarkerPass) (ps : List Pair) (s : ℕ) → ArePlaced ps s 0 (rows_from b ps s [])
unfolding rows_from ArePlaced a_places hits partner_hits
no_rows b ps s = (refl, λ j. refl, tt)

rows_more :
    (b : List MarkerPass) (ps : List Pair) (n s : ℕ) (entry : MarkerPass) (a : List MarkerPass)
    → IsMatching n (length b) ps
    → ArePlaced ps (suc s) (length a) (rows_from b ps (suc s) a)
    → ArePlaced ps s (suc (length a)) (rows_from b ps s (entry ∷ a))
unfolding rows_from
rows_more b ps n s entry a ok ih =
    place_row ps s (length a) (row_of b ps s entry) (rows_from b ps (suc s) a)
      (row_of-IsRow b ps n s entry ok) ih

pub rows_from-ArePlaced :
    (b : List MarkerPass) (ps : List Pair) (n s : ℕ) (a : List MarkerPass)
    → IsMatching n (length b) ps
    → ArePlaced ps s (length a) (rows_from b ps s a)
rows_from-ArePlaced b ps n s [] ok = no_rows b ps s
rows_from-ArePlaced b ps n s (entry ∷ a) ok =
    rows_more b ps n s entry a ok (rows_from-ArePlaced b ps n (suc s) a ok)
