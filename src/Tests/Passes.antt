-- ===== src/Tests/Passes.antt =====
-- Runs on the markers of a small stream.
use Prim.Native.String.{String}
use rdc_tools.Prelude.{
  All, ◌<◌, some, ℕ, ◌≡◌, refl, arith, none, false, List, [], ◌∷◌, ◌++◌, replicate,
}
use rdc_tools.Names.{ChunkNames}
use rdc_tools.Stream.Words.{bytes_of}
use rdc_tools.Stream.Frame.{ChunkInfo, align_up}
use rdc_tools.Stream.Frame.Format.{
  Chunk, IsWritable, header_length, callstack_bytes, words8, optional8, size_bytes,
}
use rdc_tools.Stream.Walk.RoundTrip.{write_stream, written_infos, short}
use rdc_tools.Passes.Markers.{
  MarkerPass, found, push_marker, pop_marker, draw_call, walk_markers, close_pass, close_all,
  marker_passes, markers_of,
}
use rdc_tools.Passes.Align.{PassRow, align_passes}
use rdc_tools.Passes.Align.Places.{a_places, count_up, hits}
use rdc_tools.Passes.Align.Whole.{align_passes_total}
use rdc_tools.Passes.Align.Matched.{IsMatched, align_passes-IsMatched}
use rdc_tools.Passes.Markers.Tree.{whole_passes, whole_chunks, tree_of}
use rdc_tools.Passes.Markers.Refine.{marker_passes-write_stream}

abbrev chunk_of : ℕ → Chunk
chunk_of id = record {
  id = id;
  callstack = [];
  threadid = none;
  duration = none;
  timestamp = none;
  size64 = false;
  payload = 65 ∷ 66 ∷ 67 ∷ [];
  padding = replicate 53 0;
}

push_chunk-IsWritable : IsWritable (chunk_of 1000)
unfolding header_length callstack_bytes words8 optional8 size_bytes bytes_of align_up
push_chunk-IsWritable = record {
  has_id = omega arith;
  id_fits = omega arith;
  callstack_fits = omega arith;
  payload_fits = omega arith;
  padded = refl;
}

call_chunk-IsWritable : IsWritable (chunk_of 1001)
unfolding header_length callstack_bytes words8 optional8 size_bytes bytes_of align_up
call_chunk-IsWritable = record {
  has_id = omega arith;
  id_fits = omega arith;
  callstack_fits = omega arith;
  payload_fits = omega arith;
  padded = refl;
}

abbrev marker_names : ChunkNames
marker_names = (1000, "PushMarker") ∷ (1001, "List_DrawInstanced") ∷ []

abbrev sky : List ℕ → ChunkInfo → List String
sky stream ch = "Sky" ∷ []

abbrev marked_chunks : List Chunk
marked_chunks = chunk_of 1000 ∷ chunk_of 1001 ∷ []

marker_passes-write_stream_example :
    (marker_passes marker_names sky (write_stream marked_chunks ++ [])
      ≡ found (
          whole_passes 1 (
            tree_of (
              markers_of marker_names sky
                (write_stream marked_chunks ++ [])
                (written_infos 0 marked_chunks)))))
    × (whole_chunks (
          tree_of (
            markers_of marker_names sky
              (write_stream marked_chunks ++ [])
              (written_infos 0 marked_chunks)))
        ≡ markers_of marker_names sky
            (write_stream marked_chunks ++ [])
            (written_infos 0 marked_chunks))
marker_passes-write_stream_example =
    marker_passes-write_stream marker_names sky marked_chunks [] refl
      (push_chunk-IsWritable, (call_chunk-IsWritable, tt)) (short [] (omega arith))

-- A marker around another, with a call in each, the outer one cut off.
two_passes :
    walk_markers 1
      (push_marker "A" ∷ draw_call ∷ push_marker "B" ∷ draw_call ∷ pop_marker ∷ [])
      []
      []
    ≡ record { path = "A > B"; name = "B"; depth = 1; first_chunk = 3; last_chunk = 4; calls = 1 }
      ∷ record { path = "A"; name = "A"; depth = 0; first_chunk = 1; last_chunk = 4; calls = 2 }
      ∷ []
unfolding walk_markers close_pass close_all
two_passes = refl

abbrev sky_pass : MarkerPass
sky_pass = record {
  path = "Scene > Sky";
  name = "Sky";
  depth = 1;
  first_chunk = 3;
  last_chunk = 4;
  calls = 1;
}

abbrev fog_pass : MarkerPass
fog_pass = record {
  path = "Scene > Fog";
  name = "Fog";
  depth = 1;
  first_chunk = 6;
  last_chunk = 7;
  calls = 1;
}

align_passes_total_example :
    (rows : List PassRow) × (align_passes (sky_pass ∷ fog_pass ∷ []) (sky_pass ∷ []) ≡ some rows)
    × (a_places rows ≡ count_up 0 2)
    × ((j : ℕ) → j < 1 → hits j rows ≡ 1)
align_passes_total_example = align_passes_total (sky_pass ∷ fog_pass ∷ []) (sky_pass ∷ [])

align_passes-IsMatched_example :
    (rows : List PassRow) × (align_passes (sky_pass ∷ fog_pass ∷ []) (sky_pass ∷ []) ≡ some rows)
    × All IsMatched rows
align_passes-IsMatched_example = align_passes-IsMatched (sky_pass ∷ fog_pass ∷ []) (sky_pass ∷ [])
