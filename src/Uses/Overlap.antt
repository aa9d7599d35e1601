-- ===== src/Uses/Overlap.antt =====
-- `alias_conflicts`, `_alias_candidates`, `resource_bytes` and `_group_bytes` of src/py/rdc_uses.py: which
-- placed resources of one heap share bytes while both are live, and which never are. The dictionaries
-- are functions of the id, but for the ledger's resources, a list with each id once.
pub mod Created
pub mod Sound
use rdc_tools.Prelude.{
  ℕ, zero, suc, ◌+◌, ◌-◌, ◌*◌, min, max, Bool, true, false, not, ◌&&◌, ◌||◌, Option, none, some,
  List, [], ◌∷◌, ◌++◌, map, leb, ltb, take, sorted_by, ◌==◌, if◌then◌else◌, ◌>>=◌,
}
use rdc_tools.Uses.{ResourceUse, Placement, placed, UseTally, any, keep}
use rdc_tools.Uses.Alias.{Conflict, pair_conflicts}

pub data ResourceKind : Type 0 where
  buffer texture1d texture2d texture3d blas tlas unknown : ResourceKind

-- What the byte counts read of a resource's row.
pub record ResourceInfo : Type 0 where
  pub kind : ResourceKind
  pub size : ℕ
  pub width : ℕ
  pub height : ℕ
  pub depth : ℕ

abbrev pub texture_bytes : ResourceInfo → ℕ
texture_bytes info = max info.width 1 * max info.height 1 * max info.depth 1 * 4

abbrev pub known_bytes : ResourceInfo → ℕ × Bool
known_bytes info = elim info.kind [
  | unknown ↦ (0, false)
  | buffer ↦ (info.size, false)
  | blas ↦ (info.size, false)
  | tlas ↦ (info.size, false)
  | _ ↦ (texture_bytes info, true)
]

unfoldable pub resource_bytes : Option ResourceInfo → ℕ × Bool
resource_bytes none = (0, false)
resource_bytes (some info) = known_bytes info

abbrev pub Infos : Type 0
Infos = ℕ → Option ResourceInfo

abbrev pub Tallies : Type 0
Tallies = ℕ → Option UseTally

-- `_group_bytes`, from a total on.
unfoldable pub group_bytes : Infos → List ℕ → ℕ → Bool → ℕ × Bool
group_bytes infos [] total estimated = (total, estimated)
group_bytes infos (rid ∷ group) total estimated =
    let (size, guess) = resource_bytes (infos rid) in
    group_bytes infos group (total + size) (estimated || guess)

pub record AliasPair : Type 0 where
  pub heap : ℕ
  pub a : ℕ
  pub b : ℕ
  pub offset_a : ℕ
  pub offset_b : ℕ
  pub overlap : ℕ
  pub estimated : Bool
  pub first : ℕ
  pub last : ℕ
  pub conflicts : List Conflict

-- `max(resource_bytes(resources.get(rid))[0], 1)`
abbrev pub span : Infos → ℕ → ℕ
span infos rid = max (resource_bytes (infos rid)).0 1

-- `not row['first']` of a row that is there.
abbrev pub is_used : UseTally → Bool
is_used row = not (row.first == 0)

abbrev pub used_row : Tallies → ℕ → Option UseTally
used_row rows rid = rows rid >>= λ row. if is_used row then some row else none

-- `min(end_a, end_b) - max(offset_a, offset_b)`, which is 0 where it is not positive.
abbrev pub shared_bytes : ℕ → ℕ → ℕ → ℕ → ℕ
shared_bytes offset_a size_a offset_b size_b =
    min (offset_a + size_a) (offset_b + size_b) - max offset_a offset_b

abbrev pub Placed : Type 0
Placed = ℕ × ResourceUse

module _ (infos : Infos) (rows : Tallies) (barriers : ℕ → ℕ → List ℕ) (heap : ℕ) where
  abbrev pub pair_of : ℕ × ResourceUse → ℕ × ResourceUse → UseTally → UseTally → AliasPair
  pair_of (a, one) (b, two) row_a row_b = record {
    heap = heap;
    a = a;
    b = b;
    offset_a = one.offset;
    offset_b = two.offset;
    overlap = shared_bytes one.offset (span infos a) two.offset (span infos b);
    estimated = (resource_bytes (infos a)).1 || (resource_bytes (infos b)).1;
    first = max row_a.first row_b.first;
    last = min row_a.last row_b.last;
    conflicts = pair_conflicts a b row_a row_b (barriers a b);
  }

  -- `first > last` and `overlap <= 0` pass a pair over.
  abbrev pub is_apart : AliasPair → Bool
  is_apart p = ltb p.last p.first || p.overlap == 0

  abbrev pub unless_apart : AliasPair → Option AliasPair
  unless_apart p = if is_apart p then none else some p

  unfoldable pub alias_pair : ℕ × ResourceUse → ℕ × ResourceUse → Option AliasPair
  alias_pair one two = do
    row_a ← used_row rows one.0
    row_b ← used_row rows two.0
    unless_apart (pair_of one two row_a row_b)

  -- The pairs of one resource with those behind it.
  unfoldable pub pairs_with : ℕ × ResourceUse → List (ℕ × ResourceUse) → List AliasPair
  pairs_with one [] = []
  pairs_with one (two ∷ later) = elim (alias_pair one two) [
    | none ↦ pairs_with one later
    | some pair ↦ pair ∷ pairs_with one later
  ]

  unfoldable pub heap_pairs : List (ℕ × ResourceUse) → List AliasPair
  heap_pairs [] = []
  heap_pairs (one ∷ later) = pairs_with one later ++ heap_pairs later

-- `(not pair.conflicts, -pair.overlap, pair.a, pair.b)`
abbrev pub has_none : List Conflict → ℕ
has_none [] = 1
has_none (c ∷ cs) = 0

abbrev pub pair_before : AliasPair → AliasPair → Bool
pair_before x y =
    ltb (has_none x.conflicts) (has_none y.conflicts)
    || (has_none x.conflicts == has_none y.conflicts
        && (ltb y.overlap x.overlap
            || (x.overlap == y.overlap && (ltb x.a y.a || (x.a == y.a && leb x.b y.b)))))

-- `out[:limit] if limit else out`
abbrev pub limited {ℓ} : {A : Type ℓ} → ℕ → List A → List A
limited limit xs = if limit == 0 then xs else take limit xs

abbrev pub is_placed : Placement → Bool
is_placed placed = true
is_placed _ = false

-- `record['created'] and record['placement'] == 'placed'`
abbrev pub created_placed : List (ℕ × ResourceUse) → List (ℕ × ResourceUse)
created_placed resources =
    keep (λ (rid, r). not (r.created == 0) && is_placed r.placement) resources

-- `sorted({...})` of numbers.
unfoldable pub insert_once : ℕ → List ℕ → List ℕ
insert_once x [] = x ∷ []
insert_once x (y ∷ ys) =
    let rest = insert_once x ys in
    if x == y then y ∷ ys else if ltb x y then x ∷ y ∷ ys else y ∷ rest

unfoldable pub heaps_of : List (ℕ × ResourceUse) → List ℕ
heaps_of [] = []
heaps_of ((rid, r) ∷ rs) = insert_once r.heap (heaps_of rs)

abbrev pub in_heap : ℕ → List (ℕ × ResourceUse) → List (ℕ × ResourceUse)
in_heap heap resources =
    sorted_by (λ (x, r) (y, s). leb x y) (keep (λ (rid, r). r.heap == heap) resources)

-- `_alias_candidates`
module _ (infos : Infos) (rows : Tallies) where
  abbrev pub apart_pair : ℕ → ℕ → UseTally → UseTally → Option (ℕ × ℕ × ℕ)
  apart_pair a b row_a row_b =
      if leb row_a.first row_b.last && leb row_b.first row_a.last
      then none
      else some (a, b, min (resource_bytes (infos a)).0 (resource_bytes (infos b)).0)

  unfoldable pub candidate_pair : ℕ × ResourceUse → ℕ × ResourceUse → Option (ℕ × ℕ × ℕ)
  candidate_pair one two = do
    row_a ← used_row rows one.0
    row_b ← used_row rows two.0
    apart_pair one.0 two.0 row_a row_b

  unfoldable pub candidates_with : ℕ × ResourceUse → List (ℕ × ResourceUse) → List (ℕ × ℕ × ℕ)
  candidates_with one [] = []
  candidates_with one (two ∷ later) = elim (candidate_pair one two) [
    | none ↦ candidates_with one later
    | some pair ↦ pair ∷ candidates_with one later
  ]

  unfoldable pub heap_candidates : List (ℕ × ResourceUse) → List (ℕ × ℕ × ℕ)
  heap_candidates [] = []
  heap_candidates (one ∷ later) = candidates_with one later ++ heap_candidates later

  unfoldable pub alias_candidates : List (ℕ × ResourceUse) → ℕ → List (ℕ × ℕ × ℕ)
  alias_candidates resources limit =
      take limit (sorted_by (λ (a, b, m) (c, d, n). leb n m) (heap_candidates resources))

module _ (infos : Infos) (rows : Tallies) (barriers : ℕ → ℕ → List ℕ) where
  unfoldable pub pairs_in : List ℕ → List (ℕ × ResourceUse) → List AliasPair
  pairs_in [] created = []
  pairs_in (heap ∷ heaps) created =
      heap_pairs infos rows barriers heap (in_heap heap created) ++ pairs_in heaps created

-- The aliasing barriers that name two resources, the smaller id first: `barriers.get((a, b), [])`.
unfoldable pub declared_for : List (ℕ × ℕ × ℕ) → ℕ → ℕ → List ℕ
declared_for [] a b = []
declared_for ((eid, before, after) ∷ aliases) a b =
    let rest = declared_for aliases a b in
    if min before after == a && max before after == b then eid ∷ rest else rest

unfoldable pub alias_conflicts :
    Infos → Tallies → List (ℕ × ℕ × ℕ) → List (ℕ × ResourceUse) → ℕ → List AliasPair
alias_conflicts infos rows aliases resources limit =
    let created = created_placed resources in
    let pairs = pairs_in infos rows (declared_for aliases) (heaps_of created) created in
    limited limit (sorted_by pair_before pairs)
