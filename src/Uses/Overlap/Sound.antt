-- ===== src/Uses/Overlap/Sound.antt =====
-- What a pair of resources that `alias_conflicts` reports has in common.
use mathlib.Core.List.{Memᴰ}
use rdc_tools.Prelude.{
  All-sorted_by, All, ◌≢◌, true, ℕ, zero, suc, ◌+◌, ◌≤◌, ◌<◌, ◌≡◌, refl, arith, min, max, Bool,
  false, ◌||◌, Option, none, some, List, [], ◌∷◌, ◌++◌, ltb, take, ◌==◌, if◌then◌else◌, Bool-cases,
  Option-cases, inl, inr, ◌>>=◌, ◌∙◌, if_cases,
}
use rdc_tools.Uses.{ResourceUse, UseTally, placed}
use rdc_tools.Uses.Overlap.Created.{apart, IsKeyed, StandsIn, in_heap-StandsIn, in_heap-IsKeyed}
use rdc_tools.Uses.Overlap.{
  Placed, AliasPair, Infos, Tallies, span, used_row, is_used, shared_bytes, pair_of, is_apart,
  in_heap, created_placed, heaps_of, alias_pair, pairs_with, heap_pairs, pairs_in, declared_for,
  pair_before, alias_conflicts,
}

-- A created and placed resource of the ledger, by the id, the heap and the offset that a pair gives.
abbrev pub IsExtent : List Placed → ℕ → ℕ → ℕ → Type 0
IsExtent resources heap rid offset =
    (r : ResourceUse) × Memᴰ (rid, r) resources
    × (r.created ≢ 0)
    × (r.placement ≡ placed)
    × (r.heap ≡ heap)
    × (r.offset ≡ offset)

-- The events of a pair: from the later of the two first uses to the earlier of the two last.
abbrev pub IsWindow : Tallies → AliasPair → Type 0
IsWindow rows p =
    (row_a : UseTally) × (row_b : UseTally) × (rows p.a ≡ some row_a)
    × (rows p.b ≡ some row_b)
    × (p.first ≡ max row_a.first row_b.first)
    × (p.last ≡ min row_a.last row_b.last)
    × (p.first ≤ p.last)

-- The pair is of two resources that stand in its heap at its offsets. They share bytes, from the later
-- offset to the earlier end, as many as `overlap` says, which are some.
abbrev pub IsShared : Infos → Tallies → List Placed → AliasPair → Type 0
IsShared infos rows resources p =
    (p.a ≢ p.b)
    × IsExtent resources p.heap p.a p.offset_a
    × IsExtent resources p.heap p.b p.offset_b
    × (0 < p.overlap)
    × (max p.offset_a p.offset_b + p.overlap
        ≡ min (p.offset_a + span infos p.a) (p.offset_b + span infos p.b))
    × IsWindow rows p

or_false : (a b : Bool) → (a || b) ≡ false → (a ≡ false) × (b ≡ false)
or_false a b h = ground arith

shared_to_end :
    (x m y n : ℕ)
    → (shared_bytes x m y n == 0) ≡ false
    → max x y + shared_bytes x m y n ≡ min (x + m) (y + n)
shared_to_end x m y n h = ground arith

Shares : Infos → Tallies → List Placed → Option AliasPair → Type 0
Shares infos rows resources none = Unit
Shares infos rows resources (some p) = IsShared infos rows resources p

row_used : (r row : UseTally) → (if is_used r then some r else none) ≡ some row → some r ≡ some row
row_used r row e = elim (Bool-cases (is_used r)) [ inl t ↦ rw t at e | inr f ↦ cc (rw f at e) ]

row_of_used :
    (rows : Tallies) (rid : ℕ) (row : UseTally) → used_row rows rid ≡ some row → rows rid ≡ some row
row_of_used rows rid row e = elim (Option-cases (rows rid)) [
  | inl n ↦ cc (rw n at e)
  | inr (r, f) ↦ f ∙ row_used r row (rw f at e)
]

-- What holds of no value, and of each step's, holds of a chain.
bind_cases {ℓ κ μ} :
    {A : Type ℓ} {B : Type κ} (P : Option B → Type μ) (o : Option A) (f : A → Option B)
    → P none
    → ((a : A) → o ≡ some a → P (f a))
    → P (o >>= f)
bind_cases P none f p q = p
bind_cases P (some a) f p q = q a refl

module _ (infos : Infos) (rows : Tallies) (barriers : ℕ → ℕ → List ℕ)
    (resources : List Placed) where
  pair_of-IsShared :
      (heap : ℕ) (one two : Placed) (row_a row_b : UseTally)
      → StandsIn resources heap one
      → StandsIn resources heap two
      → apart one two ≡ true
      → rows one.0 ≡ some row_a
      → rows two.0 ≡ some row_b
      → is_apart infos rows barriers heap (pair_of infos rows barriers heap one two row_a row_b)
        ≡ false
      → IsShared infos rows resources (pair_of infos rows barriers heap one two row_a row_b)
  pair_of-IsShared heap (a, one) (b, two) row_a row_b ((ma, ca, pa), ha) ((mb, cb, pb), hb) ne ea eb
        f =
      let (later, some_bytes) =
        or_false (ltb (min row_a.last row_b.last) (max row_a.first row_b.first))
          (shared_bytes one.offset (span infos a) two.offset (span infos b) == 0) f in
      (
        λ same. ground (arith, ne, same),
        (one, ma, ca, pa, ha, refl),
        (two, mb, cb, pb, hb, refl),
        ground (arith, some_bytes),
        shared_to_end one.offset (span infos a) two.offset (span infos b) some_bytes,
        (row_a, row_b, ea, eb, refl, refl, ground (arith, later)),
      )

  alias_pair-Shares :
      (heap : ℕ) (one two : Placed)
      → StandsIn resources heap one
      → StandsIn resources heap two
      → apart one two ≡ true
      → Shares infos rows resources (alias_pair infos rows barriers heap one two)
  unfolding alias_pair Shares
  alias_pair-Shares heap one two so st ne =
      bind_cases (Shares infos rows resources) (used_row rows one.0) _ tt (λ row_a ea.
        bind_cases (Shares infos rows resources) (used_row rows two.0) _ tt (λ row_b eb.
          let pair = pair_of infos rows barriers heap one two row_a row_b in
          if_cases (Shares infos rows resources) (is_apart infos rows barriers heap pair) none
            (some pair) (λ t. tt)
            (λ f.
              pair_of-IsShared heap one two row_a row_b so st ne (row_of_used rows one.0 row_a ea)
                (row_of_used rows two.0 row_b eb) f)))

  AllShared : List AliasPair → Type 0
  AllShared pairs = All (IsShared infos rows resources) pairs

  append-AllShared : (xs ys : List AliasPair) → AllShared xs → AllShared ys → AllShared (xs ++ ys)
  unfolding AllShared
  append-AllShared [] ys a b = b
  append-AllShared (x ∷ xs) ys (h, a) b = (h, append-AllShared xs ys a b)

  cons-AllShared :
      (o : Option AliasPair) (xs : List AliasPair)
      → Shares infos rows resources o
      → AllShared xs
      → AllShared (elim o [ none ↦ xs | some pair ↦ pair ∷ xs ])
  unfolding AllShared Shares
  cons-AllShared none xs h a = a
  cons-AllShared (some p) xs h a = (h, a)

  pairs_with-AllShared :
      (heap : ℕ) (one : Placed) (later : List Placed)
      → StandsIn resources heap one
      → All (StandsIn resources heap) later
      → All (λ two. apart one two ≡ true) later
      → AllShared (pairs_with infos rows barriers heap one later)
  unfolding pairs_with
  pairs_with-AllShared heap one [] so a n = unfold AllShared in tt
  pairs_with-AllShared heap one (two ∷ later) so (st, a) (ne, n) =
      cons-AllShared _ _ (alias_pair-Shares heap one two so st ne)
        (pairs_with-AllShared heap one later so a n)

  heap_pairs-AllShared :
      (heap : ℕ) (here : List Placed)
      → All (StandsIn resources heap) here
      → IsKeyed here
      → AllShared (heap_pairs infos rows barriers heap here)
  unfolding heap_pairs
  heap_pairs-AllShared heap [] a k = unfold AllShared in tt
  heap_pairs-AllShared heap (one ∷ later) (so, a) (n, k) =
      append-AllShared (pairs_with infos rows barriers heap one later) _
        (pairs_with-AllShared heap one later so a n) (heap_pairs-AllShared heap later a k)

  pairs_in-AllShared :
      (heaps : List ℕ)
      → IsKeyed resources
      → AllShared (pairs_in infos rows barriers heaps (created_placed resources))
  unfolding pairs_in
  pairs_in-AllShared [] k = unfold AllShared in tt
  pairs_in-AllShared (heap ∷ heaps) k =
      let here : List Placed = in_heap heap (created_placed resources) in
      append-AllShared (heap_pairs infos rows barriers heap here) _
        (heap_pairs-AllShared heap here (in_heap-StandsIn resources heap)
          (in_heap-IsKeyed resources heap k))
        (pairs_in-AllShared heaps k)

All-take {ℓ κ} : {A : Type ℓ} (P : A → Type κ) (n : ℕ) (xs : List A) → All P xs → All P (take n xs)
All-take P zero xs a = tt
All-take P (suc n) [] a = tt
All-take P (suc n) (x ∷ xs) (h, a) = (h, All-take P n xs a)

-- Where the ledger has each id once, each pair that alias_conflicts reports is of two resources of the
-- ledger, not the same, that were created and placed in the pair's heap at its offsets. Their extents
-- share the bytes it counts, all from the later offset to the earlier end, which are some, and its
-- events are all those from the later first use to the earlier last one, of which there is one.
pub alias_conflicts_sound :
    (infos : Infos) (rows : Tallies) (aliases : List (ℕ × ℕ × ℕ)) (resources : List Placed)
    (limit : ℕ)
    → IsKeyed resources
    → All (IsShared infos rows resources) (alias_conflicts infos rows aliases resources limit)
unfolding alias_conflicts AllShared
alias_conflicts_sound infos rows aliases resources limit k =
    let barriers = declared_for aliases in
    let heaps = heaps_of (created_placed resources) in
    let all =
      All-sorted_by pair_before (IsShared infos rows resources)
        (pairs_in infos rows barriers heaps (created_placed resources))
        (pairs_in-AllShared infos rows barriers resources heaps k) in
    if_cases (All (IsShared infos rows resources)) (limit == 0) _ _ (λ t. all)
      (λ f. All-take (IsShared infos rows resources) limit _ all)
