-- ===== src/Passes/Markers/Tree.antt =====
-- The passes of a frame as a tree of scopes, which the walk of the markers is read against.
use Prim.Native.String.{String}
use rdc_tools.Prelude.{
  ℕ, suc, ◌+◌, ◌≡◌, refl, ap, ◌∙◌, List, [], ◌∷◌, ◌++◌, ◌==◌, length, if◌then◌else◌,
}
use rdc_tools.Passes.Markers.{
  MarkerPass, Marker, push_marker, pop_marker, draw_call, other_chunk, join_path,
}

-- A stretch of the stream whose scopes are all closed.
pub data Forest : Type 0 where
  nothing : Forest
  call : Forest → Forest
  other : Forest → Forest
  scope : String → Forest → Forest → Forest

-- A stretch whose last scopes may be cut off by the stream's end.
pub data Cut : Type 0 where
  closed : Forest → Cut
  unclosed : Forest → String → Cut → Cut

-- A whole stream: a pop with no scope unclosed closes nothing.
pub data Whole : Type 0 where
  cut : Cut → Whole
  stray : Forest → Whole → Whole

-- The chunks of each, before those that follow.
abbrev pub forest_chunks : Forest → List Marker → List Marker
forest_chunks nothing k = k
forest_chunks (call f) k = draw_call ∷ forest_chunks f k
forest_chunks (other f) k = other_chunk ∷ forest_chunks f k
forest_chunks (scope name inner f) k =
    push_marker name ∷ forest_chunks inner (pop_marker ∷ forest_chunks f k)

abbrev pub cut_chunks : Cut → List Marker
cut_chunks (closed f) = forest_chunks f []
cut_chunks (unclosed f name c) = forest_chunks f (push_marker name ∷ cut_chunks c)

abbrev pub whole_chunks : Whole → List Marker
whole_chunks (cut c) = cut_chunks c
whole_chunks (stray f r) = forest_chunks f (pop_marker ∷ whole_chunks r)

-- The number of the chunk behind a stretch that starts at one.
abbrev pub behind : ℕ → Forest → ℕ
behind i nothing = i
behind i (call f) = behind (suc i) f
behind i (other f) = behind (suc i) f
behind i (scope name inner f) = behind (suc (behind (suc i) inner)) f

abbrev pub calls_in : Forest → ℕ
calls_in nothing = 0
calls_in (call f) = suc (calls_in f)
calls_in (other f) = calls_in f
calls_in (scope name inner f) = calls_in inner + calls_in f

-- The number of the last call, or one given where there is none.
abbrev pub last_call : ℕ → ℕ → Forest → ℕ
last_call i d nothing = d
last_call i d (call f) = last_call (suc i) i f
last_call i d (other f) = last_call (suc i) d f
last_call i d (scope name inner f) =
    last_call (suc (behind (suc i) inner)) (last_call (suc i) d inner) f

-- The pass of a scope with its calls and its last one, under the names around it.
abbrev pub scope_pass : List String → String → ℕ → ℕ → ℕ → List MarkerPass
scope_pass around name i last calls =
    if calls == 0
    then []
    else (record {
      path = join_path around name;
      name = name;
      depth = length around;
      first_chunk = i;
      last_chunk = last;
      calls = calls;
    }
        ∷ [])

-- A scope's own pass comes behind those inside it.
abbrev pub forest_passes : List String → ℕ → Forest → List MarkerPass
forest_passes around i nothing = []
forest_passes around i (call f) = forest_passes around (suc i) f
forest_passes around i (other f) = forest_passes around (suc i) f
forest_passes around i (scope name inner f) =
    forest_passes (name ∷ around) (suc i) inner
    ++ (scope_pass around name i (last_call (suc i) i inner) (calls_in inner)
        ++ forest_passes around (suc (behind (suc i) inner)) f)

abbrev pub cut_calls : Cut → ℕ
cut_calls (closed f) = calls_in f
cut_calls (unclosed f name c) = calls_in f + cut_calls c

abbrev pub cut_last : ℕ → ℕ → Cut → ℕ
cut_last i d (closed f) = last_call i d f
cut_last i d (unclosed f name c) = cut_last (suc (behind i f)) (last_call i d f) c

abbrev pub cut_passes : List String → ℕ → Cut → List MarkerPass
cut_passes around i (closed f) = forest_passes around i f
cut_passes around i (unclosed f name c) =
    forest_passes around i f
    ++ (cut_passes (name ∷ around) (suc (behind i f)) c
        ++ scope_pass around name (behind i f) (cut_last (suc (behind i f)) (behind i f) c)
            (cut_calls c))

abbrev pub whole_passes : ℕ → Whole → List MarkerPass
whole_passes i (cut c) = cut_passes [] i c
whole_passes i (stray f r) = forest_passes [] i f ++ whole_passes (suc (behind i f)) r

-- The tree of a list of chunks, read from its end.
abbrev pub read_call : Whole → Whole
read_call (cut (closed f)) = cut (closed (call f))
read_call (cut (unclosed f name c)) = cut (unclosed (call f) name c)
read_call (stray f r) = stray (call f) r

abbrev pub read_other : Whole → Whole
read_other (cut (closed f)) = cut (closed (other f))
read_other (cut (unclosed f name c)) = cut (unclosed (other f) name c)
read_other (stray f r) = stray (other f) r

abbrev pub in_front : String → Forest → Whole → Whole
in_front name inner (cut (closed f)) = cut (closed (scope name inner f))
in_front name inner (cut (unclosed f other_name c)) =
    cut (unclosed (scope name inner f) other_name c)
in_front name inner (stray f r) = stray (scope name inner f) r

abbrev pub read_push : String → Whole → Whole
read_push name (cut c) = cut (unclosed nothing name c)
read_push name (stray inner r) = in_front name inner r

unfoldable pub tree_of : List Marker → Whole
tree_of [] = cut (closed nothing)
tree_of (push_marker name ∷ chunks) = read_push name (tree_of chunks)
tree_of (pop_marker ∷ chunks) = stray nothing (tree_of chunks)
tree_of (draw_call ∷ chunks) = read_call (tree_of chunks)
tree_of (other_chunk ∷ chunks) = read_other (tree_of chunks)

chunks-read_call : (r : Whole) → whole_chunks (read_call r) ≡ draw_call ∷ whole_chunks r
chunks-read_call (cut (closed f)) = refl
chunks-read_call (cut (unclosed f name c)) = refl
chunks-read_call (stray f r) = refl

chunks-read_other : (r : Whole) → whole_chunks (read_other r) ≡ other_chunk ∷ whole_chunks r
chunks-read_other (cut (closed f)) = refl
chunks-read_other (cut (unclosed f name c)) = refl
chunks-read_other (stray f r) = refl

chunks-read_push :
    (name : String) (r : Whole)
    → whole_chunks (read_push name r) ≡ push_marker name ∷ whole_chunks r
chunks-read_push name (cut c) = refl
chunks-read_push name (stray inner (cut (closed f))) = refl
chunks-read_push name (stray inner (cut (unclosed f n c))) = refl
chunks-read_push name (stray inner (stray f r)) = refl

-- Every list of chunks is that of its tree.
pub whole_chunks-tree_of : (chunks : List Marker) → whole_chunks (tree_of chunks) ≡ chunks
unfolding tree_of
whole_chunks-tree_of [] = refl
whole_chunks-tree_of (push_marker name ∷ chunks) =
    chunks-read_push name (tree_of chunks)
    ∙ ap (λ cs. push_marker name ∷ cs) (whole_chunks-tree_of chunks)
whole_chunks-tree_of (pop_marker ∷ chunks) =
    ap (λ cs. pop_marker ∷ cs) (whole_chunks-tree_of chunks)
whole_chunks-tree_of (draw_call ∷ chunks) =
    chunks-read_call (tree_of chunks) ∙ ap (λ cs. draw_call ∷ cs) (whole_chunks-tree_of chunks)
whole_chunks-tree_of (other_chunk ∷ chunks) =
    chunks-read_other (tree_of chunks) ∙ ap (λ cs. other_chunk ∷ cs) (whole_chunks-tree_of chunks)
