-- ===== src/Passes/Align/Renames.antt =====
-- What `_pair_renames` makes of the rows.
use rdc_tools.Prelude.{
  All, ℕ, suc, ◌+◌, ◌<◌, ◌≡◌, refl, sym, ap, ◌∙◌, arith, inl, inr, true, false, ◌||◌, Option, none,
  some, List, [], ◌∷◌, ◌==◌, Bool-cases, option_cases, if_cases, ◌>>=◌,
}
use rdc_tools.Uses.{any, find}
use rdc_tools.Passes.Markers.{MarkerPass}
use rdc_tools.Passes.Align.{
  PassRow, RowStatus, same, added, removed, renamed, is_among, addition_at, candidate, is_renamed,
  rename_row, rename_from, added_rows,
}
use rdc_tools.Passes.Align.Places.{hit, hits, a_places, FreshAt, IsFresh}
use rdc_tools.Passes.Align.Additions.{
  is_place, AreAscending, left_hits, left_out, left_in, a_places_cong,
}

among_cons :
    (i k : ℕ) (consumed : List ℕ) → is_among k (i ∷ consumed) ≡ (i == k || is_among k consumed)
unfolding any
among_cons i k consumed = refl

place_cons :
    (k : ℕ) (entry : MarkerPass) (additions : List (ℕ × MarkerPass)) (i : ℕ)
    → is_place ((k, entry) ∷ additions) i ≡ (k == i || is_place additions i)
unfolding is_place any
place_cons k entry additions i = refl

-- To consume a place that is not one of an addition changes nothing.
consume_other :
    (additions : List (ℕ × MarkerPass)) (s i : ℕ) (consumed : List ℕ) (j : ℕ)
    → AreAscending s additions
    → i < s
    → left_hits j additions (i ∷ consumed) ≡ left_hits j additions consumed
unfolding AreAscending
consume_other [] s i consumed j o h = unfold added_rows in refl
consume_other ((k, entry) ∷ additions) s i consumed j (o, p) h =
    let ih = consume_other additions (suc k) i consumed j p (omega (arith, o, h)) in
    let apart : (i == k) ≡ false = ground (arith, o, h) in
    let among : is_among k (i ∷ consumed) ≡ is_among k consumed =
      among_cons i k consumed ∙ rw apart in
    elim (Bool-cases (is_among k consumed)) [
      | inl t ↦
          left_out k entry additions (i ∷ consumed) j (among ∙ t)
          ∙ ih
          ∙ sym (left_out k entry additions consumed j t)
      | inr f ↦
          left_in k entry additions (i ∷ consumed) j (among ∙ f)
          ∙ ap (λ n. hit j (some k) + n) ih
          ∙ sym (left_in k entry additions consumed j f)
    ]

-- To consume one that is takes its row away.
consume_place :
    (additions : List (ℕ × MarkerPass)) (s i : ℕ) (consumed : List ℕ) (j : ℕ)
    → AreAscending s additions
    → is_place additions i ≡ true
    → is_among i consumed ≡ false
    → hit j (some i) + left_hits j additions (i ∷ consumed) ≡ left_hits j additions consumed
unfolding AreAscending
consume_place [] s i consumed j o h n = unfold is_place in unfold any in cc
consume_place ((k, entry) ∷ additions) s i consumed j (o, p) h n = elim (Bool-cases (k == i)) [
  | inl t ↦
      let here : k ≡ i = ground (arith, t) in
      let gone : is_among k (i ∷ consumed) ≡ true =
        among_cons i k consumed ∙ (let e : (i == k) ≡ true = ground (arith, t) in rw e) in
      let still : is_among k consumed ≡ false = rw here n in
      ap (λ n. hit j (some i) + n)
        (left_out k entry additions (i ∷ consumed) j gone
          ∙ consume_other additions (suc k) i consumed j p (omega (arith, here)))
      ∙ ap (λ x. hit j (some x) + left_hits j additions consumed) (sym here)
      ∙ sym (left_in k entry additions consumed j still)
  | inr f ↦
      let later : is_place additions i ≡ true =
        rw f at (sym (place_cons k entry additions i) ∙ h) in
      let ih = consume_place additions (suc k) i consumed j p later n in
      let apart : (i == k) ≡ false = ground (arith, f) in
      let among : is_among k (i ∷ consumed) ≡ is_among k consumed =
        among_cons i k consumed ∙ rw apart in
      elim (Bool-cases (is_among k consumed)) [
        | inl g ↦
            ap (λ n. hit j (some i) + n) (left_out k entry additions (i ∷ consumed) j (among ∙ g))
            ∙ ih
            ∙ sym (left_out k entry additions consumed j g)
        | inr g ↦
            let before = left_in k entry additions consumed j g in
            let after = left_in k entry additions (i ∷ consumed) j (among ∙ g) in
            omega (arith, before, after, ih)
      ]
]

-- A candidate is a removed row, in the place of an addition that is not consumed.
unfoldable IsCandidate :
    List (ℕ × MarkerPass)
    → List ℕ
    → Option ℕ
    → Option ℕ
    → Option (ℕ × MarkerPass × MarkerPass)
    → Type 0
IsCandidate additions consumed a_index b_index none = Unit
IsCandidate additions consumed a_index b_index (some (i, entry, other)) =
    (a_index ≡ some i)
    × (b_index ≡ none)
    × (is_place additions i ≡ true)
    × (is_among i consumed ≡ false)

found_place :
    (additions : List (ℕ × MarkerPass)) (i : ℕ) (x : ℕ × MarkerPass)
    → find (λ (j, other). j == i) additions ≡ some x
    → is_place additions i ≡ true
found_place [] i x e = unfold find in cc
found_place ((k, entry) ∷ additions) i x e =
    place_cons k entry additions i ∙ (elim (Bool-cases (k == i)) [
      | inl t ↦ rw t
      | inr f ↦ rw (f, found_place additions i x (unfold find in rw f at e))
    ])

addition_at-IsCandidate :
    (additions : List (ℕ × MarkerPass)) (consumed : List ℕ) (entry : MarkerPass) (i : ℕ)
    → IsCandidate additions consumed (some i) none (addition_at additions consumed entry i)
unfolding addition_at IsCandidate
addition_at-IsCandidate additions consumed entry i =
    option_cases (IsCandidate additions consumed (some i) none)
      (find (λ (j, other). j == i) additions) _ _ (λ e. tt)
      (λ (j, other) e.
        if_cases (IsCandidate additions consumed (some i) none) (is_among i consumed) _ _ (λ t. tt)
          (λ f. (refl, refl, found_place additions i (j, other) e, f)))

fields-IsCandidate :
    (additions : List (ℕ × MarkerPass)) (consumed : List ℕ) (status : RowStatus)
    (a : Option MarkerPass) (a_index b_index : Option ℕ)
    → FreshAt status b_index
    → IsCandidate additions consumed a_index b_index (elim status [
      | removed ↦ a >>= λ entry. a_index >>= λ i. addition_at additions consumed entry i
      | _ ↦ none
    ])
unfolding IsCandidate
fields-IsCandidate additions consumed same a i b f = tt
fields-IsCandidate additions consumed added a i b f = tt
fields-IsCandidate additions consumed renamed a i b f = tt
fields-IsCandidate additions consumed removed none i b f = tt
fields-IsCandidate additions consumed removed (some entry) none b f = tt
fields-IsCandidate additions consumed removed (some entry) (some i) b f =
    rw f (addition_at-IsCandidate additions consumed entry i)

candidate-IsCandidate :
    (additions : List (ℕ × MarkerPass)) (consumed : List ℕ) (row : PassRow)
    → IsFresh row
    → IsCandidate additions consumed row.a_index row.b_index (candidate additions consumed row)
unfolding candidate
candidate-IsCandidate additions consumed row f =
    fields-IsCandidate additions consumed row.status row.a row.a_index row.b_index f

-- A row keeps its place of A, and the places of B stand as often as before.
IsRenamed : List (ℕ × MarkerPass) → List ℕ → PassRow → PassRow × List ℕ → Type 0
IsRenamed additions consumed row (now, taken) =
    (now.a_index ≡ row.a_index)
    × ((j : ℕ)
        → hit j now.b_index + left_hits j additions taken
          ≡ hit j row.b_index + left_hits j additions consumed)

rename_row-IsRenamed :
    (additions : List (ℕ × MarkerPass)) (row : PassRow) (consumed : List ℕ) (s : ℕ)
    → AreAscending s additions
    → IsFresh row
    → IsRenamed additions consumed row (rename_row additions row consumed)
unfolding rename_row IsRenamed IsCandidate
rename_row-IsRenamed additions row consumed s o f =
    let sound = candidate-IsCandidate additions consumed row f in
    option_cases (IsRenamed additions consumed row) (candidate additions consumed row) _ _
      (λ e. (refl, λ j. refl))
      (λ (i, entry, other) e.
        let (ai, bi, place, still) = rw e at sound in
        if_cases (IsRenamed additions consumed row) (is_renamed entry other) _ _
          (λ t. (
            sym ai,
            λ j.
                let moved = consume_place additions s i consumed j o place still in
                let none_yet = ap (hit j) bi in omega (arith, moved, none_yet),
          ))
          (λ n. (refl, λ j. refl)))

unfoldable pub AreRenamed :
    List (ℕ × MarkerPass) → List ℕ → List PassRow → List PassRow × List ℕ → Type 0
AreRenamed additions consumed rows (now, taken) =
    (a_places now ≡ a_places rows)
    × ((j : ℕ)
        → hits j now + left_hits j additions taken ≡ hits j rows + left_hits j additions consumed)

pub rename_from-AreRenamed :
    (additions : List (ℕ × MarkerPass)) (rows : List PassRow) (consumed : List ℕ) (s : ℕ)
    → AreAscending s additions
    → All IsFresh rows
    → AreRenamed additions consumed rows (rename_from additions rows consumed)
unfolding rename_from AreRenamed IsRenamed a_places hits
rename_from-AreRenamed additions [] consumed s o f = (refl, λ j. refl)
rename_from-AreRenamed additions (row ∷ rows) consumed s o (f, fs) =
    let (ea, eh) = rename_row-IsRenamed additions row consumed s o f in
    let (ia, ih) =
      rename_from-AreRenamed additions rows (rename_row additions row consumed).1 s o fs in
    (
      a_places_cong (rename_row additions row consumed).0 row
          (rename_from additions rows (rename_row additions row consumed).1).0 rows ea ia,
      λ j. omega (arith, eh j, ih j),
    )
