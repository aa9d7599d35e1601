-- ===== src/Scan/Places.antt =====
-- The places of a stretch that pass a test, and `search` for the first of them.
use rdc_tools.Prelude.{
  ℕ, zero, suc, ◌+◌, ◌≤◌, ◌<◌, ◌≡◌, refl, ◌∙◌, arith, Bool, true, false, none, some, List, [], ◌∷◌,
  ◌++◌, if◌then◌else◌, Bool-cases, inl, inr, ◌==◌,
}
use rdc_tools.Scan.{search}

unfoldable pub between : (ℕ → Bool) → ℕ → ℕ → List ℕ
between p at zero = []
between p at (suc count) =
    let later = between p (at + 1) count in if p at then at ∷ later else later

equal : (x y : ℕ) → (x == y) ≡ true → x ≡ y
equal x y f = ground arith

module _ (p : ℕ → Bool) where
  pub search-none :
      (at count : ℕ) → search p at count ≡ none → (i : ℕ) → at ≤ i → i < at + count → p i ≡ false
  unfolding search
  search-none at zero h i a b = absurd (omega arith)
  search-none at (suc count) h i a b = elim (Bool-cases (p at)) [
    | inl e ↦ ground (arith, h, e)
    | inr e ↦ elim (Bool-cases (i == at)) [
      | inl f ↦ rw (equal i at f) e
      | inr f ↦ search-none (at + 1) count (ground (arith, h, e)) i (ground arith) (omega arith)
    ]
  ]

  pub search-some :
      (at count : ℕ) {k : ℕ}
      → search p at count ≡ some k
      → (at ≤ k) × (k < at + count) × (p k ≡ true) × ((i : ℕ) → at ≤ i → i < k → p i ≡ false)
  unfolding search
  search-some at zero h = cc
  search-some at (suc count) {k} h = elim (Bool-cases (p at)) [
    | inl e ↦
        let same : at ≡ k = ground (arith, h, e) in
        (omega arith, omega arith, rw (← same) e, λ i a b. absurd (omega arith))
    | inr e ↦
        let (a, b, c, d) = search-some (at + 1) count {k = k} (ground (arith, h, e)) in
        (
          omega arith,
          omega arith,
          c,
          λ i x y. elim (Bool-cases (i == at)) [
            | inl f ↦ rw (equal i at f) e
            | inr f ↦ d i (ground arith) y
          ],
        )
  ]

  pub between_none :
      (at count : ℕ) → ((i : ℕ) → at ≤ i → i < at + count → p i ≡ false) → between p at count ≡ []
  unfolding between
  between_none at zero h = refl
  between_none at (suc count) h =
      rw (h at (omega arith) (omega arith))
        (between_none (at + 1) count (λ i a b. h i (omega arith) (omega arith)))

  pub between_at :
      (at at' count count' : ℕ)
      → at ≡ at'
      → count ≡ count'
      → between p at count ≡ between p at' count'
  between_at at at' count count' e f = rw (e, f)

  pub between_hit :
      (at count : ℕ) → p at ≡ true → between p at (suc count) ≡ at ∷ between p (at + 1) count
  unfolding between
  between_hit at count e = rw e

  pub between_miss :
      (at count : ℕ) → p at ≡ false → between p at (suc count) ≡ between p (at + 1) count
  unfolding between
  between_miss at count e = rw e

  between_empty : (at : ℕ) → between p at 0 ≡ []
  unfolding between
  between_empty at = refl

  pub between_append :
      (at k count : ℕ) → between p at (k + count) ≡ between p at k ++ between p (at + k) count
  between_append at zero count =
      between_at at (at + 0) (0 + count) count (omega arith) (omega arith) ∙ rw (between_empty at)
  between_append at (suc k) count =
      let tail = between_at (at + 1 + k) (at + suc k) count count (omega arith) refl in
      let size = between_at at at (suc k + count) (suc (k + count)) refl (omega arith) in
      elim (Bool-cases (p at)) [
        | inl e ↦
            size
            ∙ rw (
              between_hit at (k + count) e,
              between_hit at k e,
              between_append (at + 1) k count,
              tail,
            )
        | inr e ↦
            size
            ∙ rw (
              between_miss at (k + count) e,
              between_miss at k e,
              between_append (at + 1) k count,
              tail,
            )
      ]

  pub between_skip :
      (at k count : ℕ)
      → ((i : ℕ) → at ≤ i → i < at + k → p i ≡ false)
      → between p at (k + count) ≡ between p (at + k) count
  between_skip at k count h = between_append at k count ∙ rw (between_none at k h)

pub between_same :
    (p r : ℕ → Bool) (at count : ℕ)
    → ((i : ℕ) → at ≤ i → i < at + count → p i ≡ r i)
    → between p at count ≡ between r at count
unfolding between
between_same p r at zero h = refl
between_same p r at (suc count) h = rw (
  h at (omega arith) (omega arith),
  between_same p r (at + 1) count (λ i a b. h i (omega arith) (omega arith)),
)
