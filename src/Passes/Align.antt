-- ===== src/Passes/Align.antt =====
-- `align_passes`, `_pair_by` and `_pair_renames` of src/py/rdc_passdiff.py: the passes of
-- two captures side by side. A key is a text's code points. The dictionaries `paired` and `notes` and the
-- list `used_b` are one list of pairs, and the queues of `_pair_by` are one list of what still waits,
-- whose first entry of a key is that of its queue. An index of -1 is `none`.
pub mod Pairs
pub mod Places
pub mod Additions
pub mod Renames
pub mod Whole
pub mod Alike
pub mod Matched
use Prim.Native.String.{String, ◌++◌ as append}
use rdc_tools.Prelude.{
  ℕ, zero, suc, ◌+◌, ◌-◌, Bool, true, false, not, ◌&&◌, ◌||◌, Option, none, some, List, [], ◌∷◌,
  ◌++◌, map, ◌==◌, leb, get_elem?, if◌then◌else◌, codes, bytes_eq, ◌>>=◌,
}
use rdc_tools.Uses.{any, find}
use rdc_tools.Passes.Paths.{leaf, parent}
use rdc_tools.Passes.Markers.{MarkerPass}

-- A pass of A and one of B, with the key of the note where the rule explains itself.
pub record Pair : Type 0 where
  pub a_index : ℕ
  pub b_index : ℕ
  pub explained : Option (List ℕ)

-- `index in paired` and `used_b[index]`
unfoldable pub taken_a : List Pair → ℕ → Bool
taken_a pairs i = any (λ p. p.a_index == i) pairs

unfoldable pub taken_b : List Pair → ℕ → Bool
taken_b pairs j = any (λ p. p.b_index == j) pairs

abbrev pub is_empty_key : List ℕ → Bool
is_empty_key [] = true
is_empty_key (c ∷ cs) = false

abbrev pub Waiting : Type 0
Waiting = List (List ℕ × ℕ)

unfoldable pub waiting : List Pair → ℕ → List (List ℕ) → Waiting
waiting pairs i [] = []
waiting pairs i (key ∷ keys) =
    let rest = waiting pairs (suc i) keys in
    if not (taken_a pairs i) && not (is_empty_key key) then (key, i) ∷ rest else rest

-- `queues.get(key)` and its `pop(0)`
unfoldable pub pop_first : List ℕ → Waiting → Option (ℕ × Waiting)
pop_first key [] = none
pop_first key ((k, i) ∷ queue) =
    let rest = pop_first key queue in
    if bytes_eq key k
    then some (i, queue)
    else (elim rest [ none ↦ none | some (x, left) ↦ some (x, (k, i) ∷ left) ])

-- One pass of B.
unfoldable pub pair_one : Bool → ℕ → List ℕ → Waiting × List Pair → Waiting × List Pair
pair_one explain j key (queue, pairs) =
    if taken_b pairs j || is_empty_key key then (queue, pairs) else (elim (pop_first key queue) [
      | none ↦ (queue, pairs)
      | some (other, left) ↦ (
        left,
        record { a_index = other; b_index = j; explained = if explain then some key else none }
            ∷ pairs,
      )
    ])

unfoldable pub pair_from : Bool → ℕ → List (List ℕ) → Waiting × List Pair → List Pair
pair_from explain j [] state = state.1
pair_from explain j (key ∷ keys) state =
    pair_from explain (suc j) keys (pair_one explain j key state)

unfoldable pub pair_by : Bool → List (List ℕ) → List (List ℕ) → List Pair → List Pair
pair_by explain keys_a keys_b pairs = pair_from explain 0 keys_b (waiting pairs 0 keys_a, pairs)

abbrev pub path_keys : List MarkerPass → List (List ℕ)
path_keys passes = map (λ p. codes p.path) passes

abbrev pub leaf_keys : List MarkerPass → List (List ℕ)
leaf_keys passes = map (λ p. leaf (codes p.path)) passes

unfoldable pub pairs_of : List MarkerPass → List MarkerPass → List Pair
pairs_of a b =
    pair_by true (leaf_keys a) (leaf_keys b) (pair_by false (path_keys a) (path_keys b) [])

pub data RowStatus : Type 0 where
  same added removed renamed : RowStatus

-- What a row's note says, with the numbers and names that it prints.
pub data RowNote : Type 0 where
  path_differs : List ℕ → RowNote
  moved depth_changed calls_changed chunks_shifted : ℕ → ℕ → RowNote
  same_slot : ℕ → List ℕ → ℕ → RowNote

pub record PassRow : Type 0 where
  pub status : RowStatus
  pub path : String
  pub a : Option MarkerPass
  pub b : Option MarkerPass
  pub a_index : Option ℕ
  pub b_index : Option ℕ
  pub notes : List RowNote

abbrev pub removed_row : ℕ → MarkerPass → PassRow
removed_row i entry = record {
  status = removed;
  path = entry.path;
  a = some entry;
  b = none;
  a_index = some i;
  b_index = none;
  notes = [];
}

abbrev pub note_if_changed : (ℕ → ℕ → RowNote) → ℕ → ℕ → List RowNote
note_if_changed note x y = if x == y then [] else note x y ∷ []

abbrev pub same_row : ℕ → MarkerPass → Pair → MarkerPass → PassRow
same_row i entry p other = record {
  status = same;
  path = entry.path;
  a = some entry;
  b = some other;
  a_index = some i;
  b_index = some p.b_index;
  notes =
      elim p.explained [ none ↦ [] | some key ↦ path_differs key ∷ [] ]
      ++ (note_if_changed moved i p.b_index
          ++ (note_if_changed depth_changed entry.depth other.depth
              ++ (note_if_changed calls_changed entry.calls other.calls
                  ++ note_if_changed chunks_shifted entry.first_chunk other.first_chunk)));
}

-- `none` is the IndexError of a place outside B.
unfoldable pub row_of : List MarkerPass → List Pair → ℕ → MarkerPass → Option PassRow
row_of b pairs i entry = elim (find (λ p. p.a_index == i) pairs) [
  | none ↦ some (removed_row i entry)
  | some p ↦ elim (get_elem? b p.b_index) [
    | none ↦ none
    | some other ↦ some (same_row i entry p other)
  ]
]

unfoldable pub rows_from : List MarkerPass → List Pair → ℕ → List MarkerPass → Option (List PassRow)
rows_from b pairs i [] = some []
rows_from b pairs i (entry ∷ a) = do
  row ← row_of b pairs i entry
  rows ← rows_from b pairs (suc i) a
  some (row ∷ rows)

-- The passes of B that no pair takes, with their places.
unfoldable pub added_from : List Pair → ℕ → List MarkerPass → List (ℕ × MarkerPass)
added_from pairs j [] = []
added_from pairs j (entry ∷ b) =
    let rest = added_from pairs (suc j) b in if taken_b pairs j then rest else (j, entry) ∷ rest

abbrev pub is_among : ℕ → List ℕ → Bool
is_among x xs = any (λ y. y == x) xs

-- The addition in the place of a removed pass, unless it is consumed, with the pass.
unfoldable pub addition_at :
    List (ℕ × MarkerPass) → List ℕ → MarkerPass → ℕ → Option (ℕ × MarkerPass × MarkerPass)
addition_at additions consumed entry i = elim (find (λ (j, other). j == i) additions) [
  | none ↦ none
  | some (j, other) ↦ if is_among i consumed then none else some (i, entry, other)
]

-- `row.status != 'removed' or row.a is None` passes a row over, and so does a place that is none.
unfoldable pub candidate :
    List (ℕ × MarkerPass) → List ℕ → PassRow → Option (ℕ × MarkerPass × MarkerPass)
candidate additions consumed row = elim row.status [
  | removed ↦ do entry ← row.a; i ← row.a_index; addition_at additions consumed entry i
  | _ ↦ none
]

abbrev pub is_renamed : MarkerPass → MarkerPass → Bool
is_renamed entry other =
    not (is_empty_key (parent (codes entry.path)))
    && (other.calls == entry.calls
        && bytes_eq (parent (codes other.path)) (parent (codes entry.path)))

abbrev pub renamed_row : ℕ → MarkerPass → MarkerPass → PassRow
renamed_row i entry other = record {
  status = renamed;
  path = append entry.path (append "  ->  " other.path);
  a = some entry;
  b = some other;
  a_index = some i;
  b_index = some i;
  notes = same_slot i (parent (codes other.path)) other.calls ∷ [];
}

unfoldable pub rename_row : List (ℕ × MarkerPass) → PassRow → List ℕ → PassRow × List ℕ
rename_row additions row consumed = elim (candidate additions consumed row) [
  | none ↦ (row, consumed)
  | some (i, entry, other) ↦
      if is_renamed entry other then (renamed_row i entry other, i ∷ consumed) else (row, consumed)
]

unfoldable pub rename_from : List (ℕ × MarkerPass) → List PassRow → List ℕ → List PassRow × List ℕ
rename_from additions [] consumed = ([], consumed)
rename_from additions (row ∷ rows) consumed =
    let (now, taken) = rename_row additions row consumed in
    let (rest, last) = rename_from additions rows taken in (now ∷ rest, last)

abbrev pub added_row : ℕ → MarkerPass → PassRow
added_row j entry = record {
  status = added;
  path = entry.path;
  a = none;
  b = some entry;
  a_index = none;
  b_index = some j;
  notes = [];
}

unfoldable pub added_rows : List (ℕ × MarkerPass) → List ℕ → List PassRow
added_rows [] consumed = []
added_rows ((j, entry) ∷ additions) consumed =
    let rest = added_rows additions consumed in
    if is_among j consumed then rest else added_row j entry ∷ rest

unfoldable pub align_passes : List MarkerPass → List MarkerPass → Option (List PassRow)
align_passes a b = do
  let pairs = pairs_of a b
  rows ← rows_from b pairs 0 a
  let additions = added_from pairs 0 b
  let (renames, consumed) = rename_from additions rows []
  some (renames ++ added_rows additions consumed)
