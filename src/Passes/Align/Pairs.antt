-- ===== src/Passes/Align/Pairs.antt =====
-- The pairs of `_pair_by`: each pass of A and each of B is in one at most.
use rdc_tools.Prelude.{
  ℕ, suc, ◌+◌, ◌≤◌, ◌<◌, ◌≡◌, refl, sym, ap, ◌∙◌, arith, inl, inr, Bool, true, false, not, ◌&&◌,
  ◌||◌, Option, none, some, List, [], ◌∷◌, map, length, ◌==◌, bytes_eq, Bool-cases, if_cases,
  option_cases,
}
use rdc_tools.Uses.{any}
use rdc_tools.Passes.Markers.{MarkerPass}
use rdc_tools.Passes.Align.{
  Pair, taken_a, taken_b, is_empty_key, Waiting, waiting, pop_first, pair_one, pair_from, pair_by,
  path_keys, leaf_keys, pairs_of,
}

pub or_false : (a b : Bool) → (a || b) ≡ false → (a ≡ false) × (b ≡ false)
or_false a b h = ground arith

-- Among `n` passes of A and `m` of B, none is in two pairs.
unfoldable pub IsMatching : ℕ → ℕ → List Pair → Type 0
IsMatching n m [] = Unit {0}
IsMatching n m (p ∷ ps) =
    (p.a_index < n)
    × (p.b_index < m)
    × (taken_a ps p.a_index ≡ false)
    × (taken_b ps p.b_index ≡ false)
    × IsMatching n m ps

unfoldable waits : Waiting → ℕ → Bool
waits queue i = any (λ (k, j). j == i) queue

-- What waits is of A, in no pair and waits once.
unfoldable IsQueue : ℕ → Waiting → List Pair → Type 0
IsQueue n [] ps = Unit {0}
IsQueue n ((k, i) ∷ queue) ps =
    (i < n) × (taken_a ps i ≡ false) × (waits queue i ≡ false) × IsQueue n queue ps

waits_cons :
    (k : List ℕ) (j : ℕ) (queue : Waiting) (i : ℕ)
    → waits ((k, j) ∷ queue) i ≡ (j == i || waits queue i)
unfolding waits any
waits_cons k j queue i = refl

waits_none : (i : ℕ) → waits [] i ≡ false
unfolding waits any
waits_none i = refl

waiting_later :
    (ps : List Pair) (keys : List (List ℕ)) (s i : ℕ) → i < s → waits (waiting ps s keys) i ≡ false
unfolding waiting
waiting_later ps [] s i h = waits_none i
waiting_later ps (key ∷ keys) s i h =
    let ih = waiting_later ps keys (suc s) i (omega (arith, h)) in
    if_cases (λ q. waits q i ≡ false) (not (taken_a ps s) && not (is_empty_key key)) _ _
      (λ t.
        let apart : (s == i) ≡ false = ground (arith, h) in
        rw (waits_cons key s (waiting ps (suc s) keys) i, apart) ih)
      (λ f. ih)

waits_more :
    (ps : List Pair) (key : List ℕ) (keys : List (List ℕ)) (s n : ℕ)
    → s < n
    → IsQueue n (waiting ps (suc s) keys) ps
    → IsQueue n (waiting ps s (key ∷ keys)) ps
unfolding waiting IsQueue
waits_more ps key keys s n h ih =
    if_cases (λ q. IsQueue n q ps) (not (taken_a ps s) && not (is_empty_key key)) _ _
      (λ t. (h, ground (arith, t), waiting_later ps keys (suc s) s (omega arith), ih)) (λ f. ih)

waiting-IsQueue :
    (ps : List Pair) (keys : List (List ℕ)) (s n : ℕ)
    → s + length keys ≤ n
    → IsQueue n (waiting ps s keys) ps
waiting-IsQueue ps [] s n h = unfold waiting in unfold IsQueue in tt
waiting-IsQueue ps (key ∷ keys) s n h =
    waits_more ps key keys s n (omega (arith, h))
      (waiting-IsQueue ps keys (suc s) n (omega (arith, h)))

-- What is popped, and what is left.
unfoldable IsPopped : ℕ → Waiting → List Pair → Option (ℕ × Waiting) → Type 0
IsPopped n queue ps none = Unit {0}
IsPopped n queue ps (some (i, left)) =
    (i < n)
    × (taken_a ps i ≡ false)
    × (waits queue i ≡ true)
    × (waits left i ≡ false)
    × IsQueue n left ps
    × ((x : ℕ) → waits queue x ≡ false → waits left x ≡ false)

head-IsPopped :
    (n : ℕ) (k : List ℕ) (j : ℕ) (queue : Waiting) (ps : List Pair)
    → IsQueue n ((k, j) ∷ queue) ps
    → IsPopped n ((k, j) ∷ queue) ps (some (j, queue))
unfolding IsPopped IsQueue
head-IsPopped n k j queue ps (a, b, c, d) = (
  a,
  b,
  ground (arith, waits_cons k j queue j),
  c,
  d,
  λ x h. (or_false (j == x) (waits queue x) (sym (waits_cons k j queue x) ∙ h)).1,
)

later-IsPopped :
    (n : ℕ) (k : List ℕ) (j : ℕ) (queue : Waiting) (ps : List Pair) (i : ℕ) (left : Waiting)
    → IsQueue n ((k, j) ∷ queue) ps
    → IsPopped n queue ps (some (i, left))
    → IsPopped n ((k, j) ∷ queue) ps (some (i, (k, j) ∷ left))
unfolding IsPopped IsQueue
later-IsPopped n k j queue ps i left (a, b, c, d) (ha, hb, hw, hc, hd, he) = (
  ha,
  hb,
  rw (waits_cons k j queue i, hw) (ground arith),
  (let apart : (j == i) ≡ false = elim (Bool-cases (j == i)) [
    | inl t ↦
        let same : j ≡ i = ground (arith, t) in
        let twice : waits queue i ≡ false = rw same at c in absurd (ground (arith, hw, twice))
    | inr f ↦ f
  ] in
      rw (waits_cons k j left i, apart) hc),
  (a, b, he j c, hd),
  λ x h.
      let (p, q) = or_false (j == x) (waits queue x) (sym (waits_cons k j queue x) ∙ h) in
      rw (waits_cons k j left x, p) (he x q),
)

rest-IsQueue :
    (n : ℕ) (k : List ℕ) (j : ℕ) (queue : Waiting) (ps : List Pair)
    → IsQueue n ((k, j) ∷ queue) ps
    → IsQueue n queue ps
unfolding IsQueue
rest-IsQueue n k j queue ps (a, b, c, d) = d

none-IsPopped : (n : ℕ) (queue : Waiting) (ps : List Pair) → IsPopped n queue ps none
unfolding IsPopped
none-IsPopped n queue ps = tt

pop_more :
    (n : ℕ) (key k : List ℕ) (j : ℕ) (queue : Waiting) (ps : List Pair)
    → IsQueue n ((k, j) ∷ queue) ps
    → IsPopped n queue ps (pop_first key queue)
    → IsPopped n ((k, j) ∷ queue) ps (pop_first key ((k, j) ∷ queue))
unfolding pop_first
pop_more n key k j queue ps q ih =
    if_cases (IsPopped n ((k, j) ∷ queue) ps) (bytes_eq key k) _ _
      (λ t. head-IsPopped n k j queue ps q)
      (λ f.
        option_cases (IsPopped n ((k, j) ∷ queue) ps) (pop_first key queue) _ _
          (λ e. none-IsPopped n ((k, j) ∷ queue) ps)
          (λ (x, rest) e. later-IsPopped n k j queue ps x rest q (rw e at ih)))

pop_first-IsPopped :
    (n : ℕ) (key : List ℕ) (queue : Waiting) (ps : List Pair)
    → IsQueue n queue ps
    → IsPopped n queue ps (pop_first key queue)
pop_first-IsPopped n key [] ps q = unfold pop_first in unfold IsPopped in tt
pop_first-IsPopped n key ((k, j) ∷ queue) ps q =
    pop_more n key k j queue ps q
      (pop_first-IsPopped n key queue ps (rest-IsQueue n k j queue ps q))

beside_more :
    (n : ℕ) (k : List ℕ) (i : ℕ) (queue : Waiting) (ps : List Pair) (p : Pair)
    → (i == p.a_index) ≡ false
    → IsQueue n ((k, i) ∷ queue) ps
    → IsQueue n queue (p ∷ ps)
    → IsQueue n ((k, i) ∷ queue) (p ∷ ps)
unfolding IsQueue taken_a any
beside_more n k i queue ps p apart (a, b, c, d) rest =
    let apart2 : (p.a_index == i) ≡ false = ground (arith, apart) in (a, rw (apart2) b, c, rest)

-- What waits still waits beside a pair that it is not in.
beside-IsQueue :
    (n : ℕ) (queue : Waiting) (ps : List Pair) (p : Pair)
    → waits queue p.a_index ≡ false
    → IsQueue n queue ps
    → IsQueue n queue (p ∷ ps)
beside-IsQueue n [] ps p h q = unfold IsQueue in tt
beside-IsQueue n ((k, i) ∷ queue) ps p h q =
    let (apart, rest) =
      or_false (i == p.a_index) (waits queue p.a_index)
        (sym (waits_cons k i queue p.a_index) ∙ h) in
    beside_more n k i queue ps p apart q
      (beside-IsQueue n queue ps p rest (rest-IsQueue n k i queue ps q))

pair_added :
    (n m j other : ℕ) (queue left : Waiting) (ps : List Pair) (explained : Option (List ℕ))
    → j < m
    → taken_b ps j ≡ false
    → IsMatching n m ps
    → IsPopped n queue ps (some (other, left))
    → IsMatching n m (record { a_index = other; b_index = j; explained = explained } ∷ ps)
      × IsQueue n left (record { a_index = other; b_index = j; explained = explained } ∷ ps)
unfolding IsMatching IsPopped
pair_added n m j other queue left ps explained h free ok (ha, hb, hw, hc, hd, he) = (
  (ha, h, hb, free, ok),
  beside-IsQueue n left ps (record { a_index = other; b_index = j; explained = explained }) hc hd,
)

IsState : ℕ → ℕ → Waiting × List Pair → Type 0
IsState n m (queue, ps) = IsMatching n m ps × IsQueue n queue ps

pair_one-IsState :
    (n m : ℕ) (explain : Bool) (j : ℕ) (key : List ℕ) (queue : Waiting) (ps : List Pair)
    → j < m
    → IsState n m (queue, ps)
    → IsState n m (pair_one explain j key (queue, ps))
unfolding IsState pair_one
pair_one-IsState n m explain j key queue ps h (ok, q) =
    if_cases (IsState n m) (taken_b ps j || is_empty_key key) _ _ (λ t. (ok, q))
      (λ f.
        option_cases (IsState n m) (pop_first key queue) _ _ (λ e. (ok, q))
          (λ (other, left) e.
            let popped = pop_first-IsPopped n key queue ps q in
            pair_added n m j other queue left ps _ h ((or_false _ _ f).0) ok (rw e at popped)))

pair_from-IsMatching :
    (n m : ℕ) (explain : Bool) (keys : List (List ℕ)) (j : ℕ) (state : Waiting × List Pair)
    → j + length keys ≤ m
    → IsState n m state
    → IsMatching n m (pair_from explain j keys state)
unfolding pair_from IsState
pair_from-IsMatching n m explain [] j state h (ok, q) = ok
pair_from-IsMatching n m explain (key ∷ keys) j (queue, ps) h s =
    pair_from-IsMatching n m explain keys (suc j) (pair_one explain j key (queue, ps))
      (omega (arith, h)) (pair_one-IsState n m explain j key queue ps (omega (arith, h)) s)

-- A rule adds to pairs of which no two share a pass, and leaves such pairs.
pair_by-IsMatching :
    (n m : ℕ) (explain : Bool) (keys_a keys_b : List (List ℕ)) (ps : List Pair)
    → length keys_a ≡ n
    → length keys_b ≡ m
    → IsMatching n m ps
    → IsMatching n m (pair_by explain keys_a keys_b ps)
unfolding pair_by IsState
pair_by-IsMatching n m explain keys_a keys_b ps ha hb ok =
    pair_from-IsMatching n m explain keys_b 0 _ (omega (arith, hb))
      (ok, waiting-IsQueue ps keys_a 0 n (omega (arith, ha)))

length-map {ℓ κ} :
    {A : Type ℓ} {B : Type κ} (f : A → B) (xs : List A) → length (map f xs) ≡ length xs
length-map f [] = refl
length-map f (x ∷ xs) = ap suc (length-map f xs)

no_pairs-IsMatching : (n m : ℕ) → IsMatching n m []
unfolding IsMatching
no_pairs-IsMatching n m = tt

pub pairs_of-IsMatching : (a b : List MarkerPass) → IsMatching (length a) (length b) (pairs_of a b)
unfolding pairs_of
pairs_of-IsMatching a b =
    pair_by-IsMatching (length a) (length b) true (leaf_keys a) (leaf_keys b) _ (length-map _ a)
      (length-map _ b)
      (pair_by-IsMatching (length a) (length b) false (path_keys a) (path_keys b) []
        (length-map _ a) (length-map _ b) (no_pairs-IsMatching (length a) (length b)))
