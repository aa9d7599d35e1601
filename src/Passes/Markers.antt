-- ===== src/Passes/Markers.antt =====
-- `marker_passes` and `_close_pass` of src/py/rdc_passdiff.py: the passes that a stream's markers name. The
-- stack of open markers stands innermost first. The table of chunk names is an argument, and so is
-- `chunk_strings`, with the stream and a chunk, for a least length of 3 and one string.
pub mod Tree
pub mod Refine
use Prim.Native.String.{String, ◌++◌ as append}
use rdc_tools.Prelude.{
  ℕ, zero, suc, ◌+◌, Bool, true, false, ◌||◌, Option, none, some, List, [], ◌∷◌, ◌++◌, map, ◌==◌,
  length, if◌then◌else◌,
}
use rdc_tools.Names.{ChunkNames, push_marker_chunks, pop_marker_chunks, draw_chunks, is_in, name_of}
use rdc_tools.Stream.Frame.{ChunkInfo}
use rdc_tools.Stream.Walk.{
  Walk, Ending, returned, raised, raised_struct_error, out_of_fuel, iter_chunks,
}

pub record MarkerPass : Type 0 where
  pub path : String
  pub name : String
  pub depth : ℕ
  pub first_chunk : ℕ
  pub last_chunk : ℕ
  pub calls : ℕ

pub record OpenMarker : Type 0 where
  pub name : String
  pub chunk : ℕ
  pub last : ℕ
  pub calls : ℕ

-- `_OpenMarker(name, chunk)`
abbrev pub opened : String → ℕ → OpenMarker
opened name chunk = record { name = name; chunk = chunk; last = chunk; calls = 0 }

-- What a chunk is to the walk.
pub data Marker : Type 0 where
  push_marker : String → Marker
  pop_marker draw_call other_chunk : Marker

abbrev pub unnamed : String
unnamed = "<unnamed>"

abbrev pub first_or_unnamed : List String → String
first_or_unnamed [] = unnamed
first_or_unnamed (s ∷ ss) = s

unfoldable pub marker_of : String → List String → Marker
marker_of name strings =
    if is_in name push_marker_chunks
    then push_marker (first_or_unnamed strings)
    else if is_in name pop_marker_chunks
    then pop_marker
    else if is_in name draw_chunks
    then draw_call
    else other_chunk

-- `' > '.join(...)`, of the names around an innermost one.
abbrev pub join_path : List String → String → String
join_path [] name = name
join_path (outer ∷ names) name = append (join_path names outer) (append " > " name)

abbrev pub names_of : List OpenMarker → List String
names_of [] = []
names_of (m ∷ ms) = m.name ∷ names_of ms

unfoldable pub close_pass : List MarkerPass → List OpenMarker → OpenMarker → List MarkerPass
close_pass passes stack frame =
    if frame.calls == 0
    then passes
    else (passes
        ++ (record {
          path = join_path (names_of stack) frame.name;
          name = frame.name;
          depth = length stack;
          first_chunk = frame.chunk;
          last_chunk = frame.last;
          calls = frame.calls;
        }
            ∷ []))

abbrev pub drawn : ℕ → OpenMarker → OpenMarker
drawn index frame = record {
  name = frame.name;
  chunk = frame.chunk;
  last = index;
  calls = frame.calls + 1;
}

abbrev pub drawn_all : ℕ → List OpenMarker → List OpenMarker
drawn_all index stack = map (drawn index) stack

unfoldable pub close_all : List MarkerPass → List OpenMarker → List MarkerPass
close_all passes [] = passes
close_all passes (frame ∷ stack) = close_all (close_pass passes stack frame) stack

-- The loop from a chunk's number on, and the markers that are left open closed behind it.
unfoldable pub walk_markers : ℕ → List Marker → List MarkerPass → List OpenMarker → List MarkerPass
walk_markers index [] passes stack = close_all passes stack
walk_markers index (push_marker name ∷ chunks) passes stack =
    walk_markers (suc index) chunks passes (opened name index ∷ stack)
walk_markers index (pop_marker ∷ chunks) passes [] = walk_markers (suc index) chunks passes []
walk_markers index (pop_marker ∷ chunks) passes (frame ∷ stack) =
    walk_markers (suc index) chunks (close_pass passes stack frame) stack
walk_markers index (draw_call ∷ chunks) passes stack =
    walk_markers (suc index) chunks passes (drawn_all index stack)
walk_markers index (other_chunk ∷ chunks) passes stack =
    walk_markers (suc index) chunks passes stack

-- `no_names` is None; `failed` an exception of the walk.
pub data MarkerPasses : Type 0 where
  found : List MarkerPass → MarkerPasses
  no_names : MarkerPasses
  failed : Ending → MarkerPasses

abbrev pub unless_failed : Ending → List MarkerPass → MarkerPasses
unless_failed returned passes = found passes
unless_failed (raised e) passes = failed (raised e)
unless_failed raised_struct_error passes = failed raised_struct_error
unless_failed out_of_fuel passes = failed out_of_fuel

-- `if not names`
abbrev pub has_names : ChunkNames → Bool
has_names [] = false
has_names (n ∷ ns) = true

module _ (names : ChunkNames) (chunk_strings : List ℕ → ChunkInfo → List String) where
  unfoldable pub markers_of : List ℕ → List ChunkInfo → List Marker
  markers_of stream [] = []
  markers_of stream (ch ∷ chunks) =
      marker_of (name_of names ch.id) (chunk_strings stream ch) ∷ markers_of stream chunks

  unfoldable pub marker_passes : List ℕ → MarkerPasses
  marker_passes stream =
      let walked = iter_chunks stream 0 false in
      if has_names names
      then unless_failed walked.ending (walk_markers 1 (markers_of stream walked.chunks) [] [])
      else no_names
