-- ===== src/Passes/Markers/Refine.antt =====
-- The walk of the markers gives the passes of the stream's tree.
use Prim.Native.String.{String}
use rdc_tools.Prelude.{
  ℕ, suc, ◌+◌, ◌≡◌, refl, sym, ap, ◌∙◌, arith, true, false, List, [], ◌∷◌, ◌++◌, ◌==◌, length, map,
  append-nil, append_assoc, if_cases,
}
use rdc_tools.Names.{ChunkNames}
use rdc_tools.Passes.Markers.{
  MarkerPass, OpenMarker, opened, Marker, push_marker, pop_marker, draw_call, other_chunk, names_of,
  close_pass, markers_of, marker_passes, has_names, found, close_all, drawn, walk_markers,
}
use rdc_tools.Stream.Frame.{ChunkInfo}
use rdc_tools.Stream.Frame.Format.{Chunk}
use rdc_tools.Stream.Walk.RoundTrip.{
  write_stream, written_infos, AllWritable, IsTail, iter_chunks-write_stream,
}
use rdc_tools.Passes.Markers.Tree.{
  Forest, nothing, call, other, scope, Cut, closed, unclosed, Whole, cut, stray, forest_chunks,
  cut_chunks, whole_chunks, behind, calls_in, last_call, scope_pass, forest_passes, cut_calls,
  cut_last, cut_passes, whole_passes, tree_of, whole_chunks-tree_of,
}

abbrev marked : ℕ → ℕ → OpenMarker → OpenMarker
marked last calls m = record { name = m.name; chunk = m.chunk; last = last; calls = calls }

-- An open marker behind chunks with some calls.
abbrev after : ℕ → ℕ → OpenMarker → OpenMarker
after last calls m = marked last (m.calls + calls) m

abbrev past : ℕ → Forest → OpenMarker → OpenMarker
past i f m = after (last_call i m.last f) (calls_in f) m

abbrev past_cut : ℕ → Cut → OpenMarker → OpenMarker
past_cut i c m = after (cut_last i m.last c) (cut_calls c) m

length-names_of : (st : List OpenMarker) → length (names_of st) ≡ length st
length-names_of [] = refl
length-names_of (m ∷ st) = ap suc (length-names_of st)

module _ (g : OpenMarker → OpenMarker) where
  map-same : ((m : OpenMarker) → g m ≡ m) → (st : List OpenMarker) → map g st ≡ st
  map-same h [] = refl
  map-same h (m ∷ st) = rw (h m, map-same h st)

  names-map :
      ((m : OpenMarker) → (g m).name ≡ m.name)
      → (st : List OpenMarker) → names_of (map g st) ≡ names_of st
  names-map h [] = refl
  names-map h (m ∷ st) = rw (h m, names-map h st)

  map-map :
      (f h : OpenMarker → OpenMarker)
      → ((m : OpenMarker) → g (f m) ≡ h m)
      → (st : List OpenMarker) → map g (map f st) ≡ map h st
  map-map f h e [] = refl
  map-map f h e (m ∷ st) = rw (e m, map-map f h e st)

after_none : (m : OpenMarker) → after m.last 0 m ≡ m
after_none m = let e : m.calls + 0 ≡ m.calls = omega arith in ap (λ n. marked m.last n m) e

after_both : (l k c d e : ℕ) (m : OpenMarker) → c + d ≡ e → after k d (after l c m) ≡ after k e m
after_both l k c d e m h =
    let s : m.calls + c + d ≡ m.calls + e = omega (arith, h) in ap (λ n. marked k n m) s

close_pass_lem :
    (ps : List MarkerPass) (st : List OpenMarker) (m : OpenMarker)
    → close_pass ps st m ≡ ps ++ scope_pass (names_of st) m.name m.chunk m.last m.calls
unfolding close_pass
close_pass_lem ps st m =
    if_cases (λ r. r ≡ ps ++ scope_pass (names_of st) m.name m.chunk m.last m.calls) (m.calls == 0)
      _ _ (λ e. rw (e, append-nil ps)) (λ e. rw (e, length-names_of st))

module _ (i : ℕ) (k : List Marker) (ps : List MarkerPass) (st : List OpenMarker) where
  step_push :
      (name : String)
      → walk_markers i (push_marker name ∷ k) ps st ≡ walk_markers (suc i) k ps (opened name i ∷ st)
  unfolding walk_markers
  step_push name = refl

  step_pop :
      (m : OpenMarker)
      → walk_markers i (pop_marker ∷ k) ps (m ∷ st) ≡ walk_markers (suc i) k (close_pass ps st m) st
  unfolding walk_markers
  step_pop m = refl

  step_stray : walk_markers i (pop_marker ∷ k) ps [] ≡ walk_markers (suc i) k ps []
  unfolding walk_markers
  step_stray = refl

  step_call : walk_markers i (draw_call ∷ k) ps st ≡ walk_markers (suc i) k ps (map (drawn i) st)
  unfolding walk_markers
  step_call = refl

  step_other : walk_markers i (other_chunk ∷ k) ps st ≡ walk_markers (suc i) k ps st
  unfolding walk_markers
  step_other = refl

walk_cong :
    (i : ℕ) (k : List Marker) {ps qs : List MarkerPass} {st tt : List OpenMarker}
    → ps ≡ qs
    → st ≡ tt
    → walk_markers i k ps st ≡ walk_markers i k qs tt
walk_cong i k {ps} {qs} {st} {tt} e h = rw (e, h)

-- The pass of a scope whose inside has been walked.
close_inner :
    (ps qs : List MarkerPass) (st : List OpenMarker) (g : OpenMarker → OpenMarker) (name : String)
    (i l c : ℕ)
    → ((m : OpenMarker) → (g m).name ≡ m.name)
    → close_pass (ps ++ qs) (map g st) (after l c (opened name i))
      ≡ ps ++ (qs ++ scope_pass (names_of st) name i l c)
close_inner ps qs st g name i l c h =
    let z : 0 + c ≡ c = omega arith in
    close_pass_lem (ps ++ qs) (map g st) (after l c (opened name i))
    ∙ rw (names-map g h st, z, append_assoc ps qs (scope_pass (names_of st) name i l c))

-- The state behind a stretch of the stream.
walk_forest :
    (i : ℕ) (f : Forest) (k : List Marker) (ps : List MarkerPass) (st : List OpenMarker)
    → walk_markers i (forest_chunks f k) ps st
      ≡ walk_markers (behind i f) k (ps ++ forest_passes (names_of st) i f) (map (past i f) st)
walk_forest i nothing k ps st =
    walk_cong i k (sym (append-nil ps)) (sym (map-same (past i nothing) after_none st))
walk_forest i (call f) k ps st =
    let names = names-map (drawn i) (λ m. refl) st in
    let marks =
      map-map (past (suc i) f) (drawn i) (past i (call f))
        (λ m.
          after_both i (last_call (suc i) i f) 1 (calls_in f) (suc (calls_in f)) m (omega arith))
        st in
    step_call i (forest_chunks f k) ps st
    ∙ walk_forest (suc i) f k ps (map (drawn i) st)
    ∙ walk_cong (behind (suc i) f) k (ap (λ ns. ps ++ forest_passes ns (suc i) f) names) marks
walk_forest i (other f) k ps st =
    step_other i (forest_chunks f k) ps st ∙ walk_forest (suc i) f k ps st
walk_forest i (scope name inner f) k ps st =
    let j = behind (suc i) inner in
    let ins = forest_passes (name ∷ names_of st) (suc i) inner in
    let own = scope_pass (names_of st) name i (last_call (suc i) i inner) (calls_in inner) in
    let outs = forest_passes (names_of st) (suc j) f in
    let done = map (past (suc i) inner) st in
    let passes = close_pass (ps ++ ins) done (past (suc i) inner (opened name i)) in
    let closes =
      close_inner ps ins st (past (suc i) inner) name i (last_call (suc i) i inner) (calls_in inner)
        (λ m. refl) in
    let marks =
      map-map (past (suc j) f) (past (suc i) inner) (past i (scope name inner f))
        (λ m.
          after_both (last_call (suc i) m.last inner)
            (last_call (suc j) (last_call (suc i) m.last inner) f) (calls_in inner) (calls_in f)
            (calls_in inner + calls_in f) m refl)
        st in
    let listed : passes ++ forest_passes (names_of done) (suc j) f ≡ ps ++ (ins ++ (own ++ outs)) =
      rw (closes, names-map (past (suc i) inner) (λ m. refl) st, append_assoc, append_assoc) in
    step_push i (forest_chunks inner (pop_marker ∷ forest_chunks f k)) ps st name
    ∙ walk_forest (suc i) inner (pop_marker ∷ forest_chunks f k) ps (opened name i ∷ st)
    ∙ step_pop j (forest_chunks f k) (ps ++ ins) done (past (suc i) inner (opened name i))
    ∙ walk_forest (suc j) f k passes done
    ∙ walk_cong (behind (suc j) f) k listed marks

module _ (ps : List MarkerPass) (m : OpenMarker) (st : List OpenMarker) where
  close_all_more : close_all ps (m ∷ st) ≡ close_all (close_pass ps st m) st
  unfolding close_all
  close_all_more = refl

close_cong :
    {ps qs : List MarkerPass} {st tt : List OpenMarker}
    → ps ≡ qs
    → st ≡ tt
    → close_all ps st ≡ close_all qs tt
close_cong {ps} {qs} {st} {tt} e h = rw (e, h)

-- The cut scopes are closed first, and then those around them.
walk_cut :
    (i : ℕ) (c : Cut) (ps : List MarkerPass) (st : List OpenMarker)
    → walk_markers i (cut_chunks c) ps st
      ≡ close_all (ps ++ cut_passes (names_of st) i c) (map (past_cut i c) st)
walk_cut i (closed f) ps st = walk_forest i f [] ps st ∙ unfold walk_markers in refl
walk_cut i (unclosed f name c) ps st =
    let j = behind i f in
    let fronts = forest_passes (names_of st) i f in
    let done = map (past i f) st in
    let ins = cut_passes (name ∷ names_of done) (suc j) c in
    let inner = past_cut (suc j) c in
    let names = names-map (past i f) (λ m. refl) st in
    let closes =
      close_inner (ps ++ fronts) ins done inner name j (cut_last (suc j) j c) (cut_calls c)
        (λ m. refl) in
    let marks =
      map-map inner (past i f) (past_cut i (unclosed f name c))
        (λ m.
          after_both (last_call i m.last f) (cut_last (suc j) (last_call i m.last f) c) (calls_in f)
            (cut_calls c) (calls_in f + cut_calls c) m refl)
        st in
    let passes = close_pass ((ps ++ fronts) ++ ins) (map inner done) (inner (opened name j)) in
    let listed : passes ≡ ps ++ cut_passes (names_of st) i (unclosed f name c) =
      closes ∙ rw (names, append_assoc) in
    walk_forest i f (push_marker name ∷ cut_chunks c) ps st
    ∙ step_push j (cut_chunks c) (ps ++ fronts) done name
    ∙ walk_cut (suc j) c (ps ++ fronts) (opened name j ∷ done)
    ∙ close_all_more ((ps ++ fronts) ++ ins) (inner (opened name j)) (map inner done)
    ∙ close_cong listed marks

close_all_none : (ps : List MarkerPass) → close_all ps [] ≡ ps
unfolding close_all
close_all_none ps = refl

walk_whole :
    (i : ℕ) (r : Whole) (ps : List MarkerPass)
    → walk_markers i (whole_chunks r) ps [] ≡ ps ++ whole_passes i r
walk_whole i (cut c) ps = walk_cut i c ps [] ∙ close_all_none (ps ++ cut_passes [] i c)
walk_whole i (stray f r) ps =
    walk_forest i f (pop_marker ∷ whole_chunks r) ps []
    ∙ step_stray (behind i f) (whole_chunks r) (ps ++ forest_passes [] i f) []
    ∙ walk_whole (suc (behind i f)) r (ps ++ forest_passes [] i f)
    ∙ append_assoc ps (forest_passes [] i f) (whole_passes (suc (behind i f)) r)

-- The walk gives the passes of the tree of its chunks.
pub walk_markers-tree_of :
    (chunks : List Marker) → walk_markers 1 chunks [] [] ≡ whole_passes 1 (tree_of chunks)
walk_markers-tree_of chunks =
    ap (λ cs. walk_markers 1 cs [] []) (sym (whole_chunks-tree_of chunks))
    ∙ walk_whole 1 (tree_of chunks) []

module _ (names : ChunkNames) (chunk_strings : List ℕ → ChunkInfo → List String) where
  -- Of a stream laid out as the format says, with a table of names, marker_passes finds the passes of
  -- the tree of its markers: each scope with a call in it is one, behind those inside it, with the
  -- names around it, its own chunk, its last call and its count of calls; and the tree's chunks are
  -- the stream's, with no scope added or lost.
  pub marker_passes-write_stream :
      (cs : List Chunk) (t : List ℕ)
      → has_names names ≡ true
      → AllWritable cs
      → IsTail t
      → (marker_passes names chunk_strings (write_stream cs ++ t)
          ≡ found (
              whole_passes 1 (
                tree_of
                  (markers_of names chunk_strings (write_stream cs ++ t) (written_infos 0 cs)))))
        × (whole_chunks
              (tree_of (markers_of names chunk_strings (write_stream cs ++ t) (written_infos 0 cs)))
            ≡ markers_of names chunk_strings (write_stream cs ++ t) (written_infos 0 cs))
  unfolding marker_passes
  marker_passes-write_stream cs t h w tl =
      let ms = markers_of names chunk_strings (write_stream cs ++ t) (written_infos 0 cs) in
      (
        rw (iter_chunks-write_stream cs t false w tl, h, walk_markers-tree_of ms),
        whole_chunks-tree_of ms,
      )
