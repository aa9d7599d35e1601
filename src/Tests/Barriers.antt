-- ===== src/Tests/Barriers.antt =====
-- Barrier payloads, and a stream of one barrier chunk.
use rdc_tools.Prelude.{
  ℕ, ◌≡◌, refl, arith, none, some, false, List, [], ◌∷◌, ◌++◌, replicate, map, codes, ◌↔◌,
}
use rdc_tools.Names.{ChunkNames}
use rdc_tools.Stream.Words.{u32, u64, little}
use rdc_tools.Stream.Frame.{
  align_up, skip_metadata, skip_callstack, place_payload, read_payload, read_chunk, read_frame,
  chunk_payload,
}
use rdc_tools.Stream.Walk.{walk_round, walk_from, iter_chunks}
use rdc_tools.Barriers.{
  parsed, parse_barriers, barriers_from, at_the_end, read_entry, read_arm, read_transition,
}
use rdc_tools.Barriers.RoundTrip.{
  Barrier, transition_of, aliasing_of, uav_of, info_of, write_barriers,
  parse_barriers-write_barriers,
}
use rdc_tools.Uses.{any, vb, UseInfo, read, ResourceUse, committed}
use mathlib.Core.List.{Memᴰ}
use rdc_tools.Uses.Provenance.{strip_prefix}
use rdc_tools.Barriers.Words.{state_text, names_of_bits}
use rdc_tools.Hazards.States.{
  certain, without_list, check_state, needed_for, bits, bits_from, state_for_use, is_read_use,
}
use rdc_tools.Hazards.Track.{
  list_at, state_from, Claim, Tracked, all_subresources, claims_from, state_track, state_at,
  list_of, payload_claims, entry_claims, claim_all, claim, append_row, rows_of, disagrees,
}
use rdc_tools.Hazards.Track.Latest.{last_claim, state_at-state_track}
use rdc_tools.Hazards.Track.Clash.{contains, has_clash, ambiguous-state_track}
use rdc_tools.Hazards.Scan.{
  HazardFinding, state_kind, HazardCounts, scan_states, scan_uses, scan_use, lists_of, scan_hazards,
}
use rdc_tools.Hazards.Scan.Found.{IsFound, scan_hazards_iff}

abbrev some_barriers : List Barrier
some_barriers = transition_of 0 7 all_subresources 0 0x400 ∷ uav_of 0 9 ∷ aliasing_of 0 3 4 ∷ []

parse_barriers-write_barriers_example :
    parse_barriers (write_barriers 5 some_barriers) ≡ parsed (map info_of some_barriers)
parse_barriers-write_barriers_example =
    parse_barriers-write_barriers 5 some_barriers
      (
        (omega arith, omega arith, omega arith, omega arith),
        (omega arith, ((omega arith, omega arith), tt)),
      )
      (omega arith)

abbrev small_names : ChunkNames
small_names = (1000, "List_ResourceBarrier") ∷ (1001, "List_DrawInstanced") ∷ []

-- Command list 5 leaves resource 7 in the state CopyDest, and draws.
abbrev barrier_stream : List ℕ
barrier_stream =
    (0xe8 ∷ 3 ∷ 0 ∷ 0 ∷ 48 ∷ 0 ∷ 0 ∷ 0 ∷ [])
    ++ ((5 ∷ 0 ∷ 0 ∷ 0 ∷ 0 ∷ 0 ∷ 0 ∷ 0 ∷ 1 ∷ 0 ∷ 0 ∷ 0 ∷ 1 ∷ 0 ∷ 0 ∷ 0 ∷ 0 ∷ 0 ∷ 0 ∷ 0 ∷ [])
        ++ ((0 ∷ 0 ∷ 0 ∷ 0 ∷ 0 ∷ 0 ∷ 0 ∷ 0 ∷ 7 ∷ 0 ∷ 0 ∷ 0 ∷ 0 ∷ 0 ∷ 0 ∷ 0 ∷ [])
            ++ ((255 ∷ 255 ∷ 255 ∷ 255 ∷ 0 ∷ 0 ∷ 0 ∷ 0 ∷ 0 ∷ 4 ∷ 0 ∷ 0 ∷ [])
                ++ (replicate 8 0
                    ++ ((0xe9 ∷ 3 ∷ 0 ∷ 0 ∷ 8 ∷ 0 ∷ 0 ∷ 0 ∷ 5 ∷ []) ++ replicate 55 0)))))

abbrev small_track : Tracked
small_track = record {
  track = (5, 7, record { row_eid = 1; sub = all_subresources; word = 0x400 } ∷ []) ∷ [];
  ambiguous = [];
  transitions = 1;
}

small_tracked : state_track small_names barrier_stream ≡ some small_track
unfolding state_track iter_chunks walk_from walk_round read_frame u32 little read_chunk
    skip_callstack read_payload skip_metadata place_payload align_up claims_from list_of u64
    chunk_payload payload_claims at_the_end barriers_from parse_barriers read_arm read_entry
    read_transition append_row claim claim_all disagrees entry_claims rows_of any
small_tracked = refl

state_at-state_track_example :
    (cs : List Claim) × (claims_from small_names barrier_stream 1
        (iter_chunks barrier_stream 0 false).chunks
      ≡ some cs)
    × (state_at small_track.track 7 5 3 ≡ last_claim 5 7 3 none cs)
state_at-state_track_example =
    state_at-state_track small_names barrier_stream small_track 7 5 3 small_tracked

ambiguous-state_track_example :
    (cs : List Claim) × (claims_from small_names barrier_stream 1
        (iter_chunks barrier_stream 0 false).chunks
      ≡ some cs)
    × (contains 7 small_track.ambiguous ≡ has_clash 7 [] cs)
ambiguous-state_track_example =
    ambiguous-state_track small_names barrier_stream small_track 7 small_tracked

abbrev vertex_use : UseInfo
vertex_use = record { eid = 2; access = read; how = vb; call = "List_DrawInstanced"; detail = [] }

abbrev one_resource : List (ℕ × ResourceUse)
one_resource =
    (7, record { created = 0; placement = committed; heap = 0; offset = 0; uses = vertex_use ∷ [] })
    ∷ []

abbrev no_table : ℕ → List ℕ
no_table rid = []

abbrev vertex_finding : HazardFinding
vertex_finding = record {
  kind = state_kind;
  certainty = certain;
  rid = 7;
  name = [];
  eid = 2;
  call = codes "DrawInstanced";
  how = vb;
  detail = [];
  state = codes "CopyDest";
  needed = codes "VertexAndConstantBuffer";
}

abbrev one_finding : HazardCounts
one_finding = record { findings = vertex_finding ∷ []; uses = 1; unknown = 0 }

-- The vertex buffer of the call is left in the state CopyDest.
small_scanned : scan_hazards small_names barrier_stream no_table one_resource ≡ parsed one_finding
unfolding scan_hazards state_track iter_chunks walk_from walk_round read_frame u32 little read_chunk
    skip_callstack read_payload skip_metadata place_payload align_up claims_from list_of u64
    chunk_payload payload_claims at_the_end barriers_from parse_barriers read_arm read_entry
    read_transition append_row claim claim_all disagrees entry_claims rows_of any scan_states
    scan_uses scan_use list_at state_at state_from check_state needed_for state_for_use is_read_use
    bits bits_from state_text names_of_bits without_list strip_prefix
small_scanned = refl

scan_hazards_iff_example :
    (t : Tracked) × (state_track small_names barrier_stream ≡ some t)
    × (Memᴰ vertex_finding one_finding.findings
        ↔ IsFound t (lists_of small_names barrier_stream) no_table one_resource vertex_finding)
scan_hazards_iff_example =
    scan_hazards_iff small_names barrier_stream no_table one_resource one_finding vertex_finding
      small_scanned
