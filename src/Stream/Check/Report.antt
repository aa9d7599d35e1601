-- ===== src/Stream/Check/Report.antt =====
-- `check_stream` against the strict walk.
use Prim.Native.String.{String}
use mathlib.Core.Option
use rdc_tools.Prelude.{
  ℕ, zero, suc, ◌+◌, ◌≤◌, ◌≡◌, refl, ap, sym, ◌∙◌, arith, inl, inr, true, false, Option, none, some,
  List, [], ◌∷◌, ◌++◌, append_assoc, append-nil, length, length-append, not, ◌&&◌, ltb, ◌==◌, leb,
  Bool-cases,
}
use rdc_tools.Stream.Frame.{
  ChunkInfo, Frame, chunk_at, end_of_stream, frame_error, struct_error, read_frame,
}
use rdc_tools.Stream.Frame.Bounds.{read_frame-IsFramed}
use rdc_tools.Stream.Walk.{
  Walk, Ending, returned, raised, raised_struct_error, out_of_fuel, walk_round, walk_from,
  walk_from_more, walk_from_done, iter_chunks,
}
use rdc_tools.Stream.Check.{
  Problem, Note, closing_notes, bad_frame, CheckState, CheckRun, checked, check_struct_error,
  check_out_of_fuel, visit, check_round, check_from, check_start, report_of, check_stream,
  length_problem, non_zero, pad_of, stale_note,
}

-- The length problems of chunks that are numbered from `n + 1`.
unfoldable pub length_problems : (ℕ → Option String) → ℕ → List ChunkInfo → List Problem
length_problems names n [] = []
length_problems names n (ch ∷ chs) =
    length_problem names (n + 1) ch ++ length_problems names (n + 1) chs

-- What is reported of a walk that ends so, with these length problems.
unfoldable pub reported : Ending → List Problem → Option (List Problem)
reported returned ps = some ps
reported (raised e) ps = some (ps ++ bad_frame e ∷ [])
reported raised_struct_error ps = none
reported out_of_fuel ps = none

module _ (s : List ℕ) (names : ℕ → Option String) (samples : ℕ) where
  -- The state after a walk over chunks.
  visit_all : CheckState → List ChunkInfo → CheckState
  visit_all st [] = st
  visit_all st (ch ∷ chs) = visit_all (visit s names samples st ch (ch.pad_start + ch.pad_len)) chs

  -- The state and the outcome after a walk that ends as it does.
  close : Ending → CheckState → CheckRun
  close returned st = checked st
  close (raised e) st =
      checked (record st { problems = st.problems ++ bad_frame e ∷ []; broken = true })
  close raised_struct_error st = check_struct_error
  close out_of_fuel st = check_out_of_fuel

  check_round-walk_round :
      (st : CheckState) (k : ℕ) (a : CheckState → CheckRun) (b : ℕ → ℕ → Walk)
      → ((st' : CheckState) (j : ℕ)
          → a st' ≡ close (b st'.pos j).ending (visit_all st' (b st'.pos j).chunks))
      → (f : Frame)
      → ((ch : ChunkInfo) (next : ℕ) → f ≡ chunk_at ch next → ch.pad_start + ch.pad_len ≡ next)
      → check_round s names samples st a f
        ≡ close (walk_round 0 true k b f).ending (visit_all st (walk_round 0 true k b f).chunks)
  unfolding check_round walk_round visit_all close visit
  check_round-walk_round st k a b h (chunk_at ch next) p =
      rw (p ch next refl) (h (visit s names samples st ch next) (k + 1))
  check_round-walk_round st k a b h end_of_stream p = refl
  check_round-walk_round st k a b h (frame_error e) p = refl
  check_round-walk_round st k a b h struct_error p = refl

  module _ (fuel : ℕ) (st : CheckState) where
    check_from_more :
        leb (st.pos + 4) (length s) ≡ true
        → check_from (suc fuel) s names samples st
          ≡ check_round s names samples st (check_from fuel s names samples) (read_frame s st.pos)
    unfolding check_from
    check_from_more e = rw (check_from, e)

    check_from_done :
        leb (st.pos + 4) (length s) ≡ false → check_from (suc fuel) s names samples st ≡ checked st
    unfolding check_from
    check_from_done e = rw (check_from, e)

  check_from-walk_from :
      (fuel : ℕ) (st : CheckState) (k : ℕ)
      → check_from fuel s names samples st
        ≡ close
            (walk_from fuel s 0 true st.pos k).ending
            (visit_all st (walk_from fuel s 0 true st.pos k).chunks)
  check_from-walk_from zero st k = unfold check_from walk_from close visit_all in refl
  check_from-walk_from (suc fuel) st k = elim (Bool-cases (leb (st.pos + 4) (length s))) [
    | inl e ↦
        rw (check_from_more fuel st e, walk_from_more fuel s 0 true st.pos k e)
          (check_round-walk_round st k (check_from fuel s names samples) (walk_from fuel s 0 true)
            (λ st' j. check_from-walk_from fuel st' j) (read_frame s st.pos)
            (λ ch next r. (read_frame-IsFramed s st.pos ch next r).pad_ends))
    | inr e ↦
        rw (check_from_done fuel st e, walk_from_done fuel s 0 true st.pos k e)
          (unfold close visit_all in refl)
  ]

  problems-visit_all :
      (st : CheckState) (chs : List ChunkInfo)
      → (visit_all st chs).problems ≡ st.problems ++ length_problems names st.n chs
  unfolding visit_all length_problems
  problems-visit_all st [] = sym (append-nil st.problems)
  problems-visit_all st (ch ∷ chs) =
      problems-visit_all (visit s names samples st ch (ch.pad_start + ch.pad_len)) chs
      ∙ unfold visit in append_assoc st.problems (length_problem names (st.n + 1) ch) _

  problems-close :
      (e : Ending) (st : CheckState)
      → Option.map (λ (r : List Problem × List Note). r.0) (report_of s (close e st))
        ≡ reported e st.problems
  unfolding close reported report_of
  problems-close returned st = refl
  problems-close (raised e) st = refl
  problems-close raised_struct_error st = refl
  problems-close out_of_fuel st = refl

  -- `verify` reports, for every stream, what the strict walk finds: a length problem for each chunk,
  -- in order, whose length the decoder does not expect, and behind them the frame error by which the
  -- strict walk ends, if it ends by one: one such error at most, and nothing of what stands behind it.
  -- It raises `struct.error` exactly where that walk does.
  pub check_stream_problems :
      Option.map (λ (r : List Problem × List Note). r.0) (check_stream s names samples)
      ≡ reported
          (iter_chunks s 0 true).ending
          (length_problems names 0 (iter_chunks s 0 true).chunks)
  unfolding check_stream iter_chunks
  check_stream_problems =
      rw (check_from-walk_from (length s + 1) check_start 0)
        (problems-close _ _ ∙ ap (reported _) (problems-visit_all check_start _))

  length-notes-visit :
      (st : CheckState) (ch : ChunkInfo) (next : ℕ)
      → length st.notes ≤ samples
      → length (visit s names samples st ch next).notes ≤ samples
  unfolding visit
  length-notes-visit st ch next h =
      elim (Bool-cases (not (non_zero (pad_of s ch) == 0) && ltb (length st.notes) samples)) [
        | inl e ↦ rw e (ground (arith, length-append st.notes (stale_note s names (st.n + 1) ch)))
        | inr e ↦ rw e (omega (arith, length-append st.notes []))
      ]

  length-notes-visit_all :
      (st : CheckState) (chs : List ChunkInfo)
      → length st.notes ≤ samples
      → length (visit_all st chs).notes ≤ samples
  unfolding visit_all
  length-notes-visit_all st [] h = h
  length-notes-visit_all st (ch ∷ chs) h =
      let next : ℕ = ch.pad_start + ch.pad_len in
      length-notes-visit_all (visit s names samples st ch next) chs
        (length-notes-visit st ch next h)

  length-closing_notes : (st : CheckState) → length (closing_notes s st) ≤ 2
  unfolding closing_notes
  length-closing_notes st = ground arith

  length-notes-close :
      (e : Ending) (st : CheckState) (ps : List Problem) (ns : List Note)
      → report_of s (close e st) ≡ some (ps, ns)
      → length ns ≤ length st.notes + 2
  unfolding close report_of
  length-notes-close returned st ps ns h =
      ground (arith, length-append st.notes (closing_notes s st), length-closing_notes st)
  length-notes-close (raised e) st ps ns h =
      let st' : CheckState = record st {
        problems = st.problems ++ bad_frame e ∷ [];
        broken = true;
      } in
      ground (arith, length-append st.notes (closing_notes s st'), length-closing_notes st')
  length-notes-close raised_struct_error st ps ns h = cc
  length-notes-close out_of_fuel st ps ns h = cc

  -- However many chunks have stale padding, `verify` prints two notes more than the samples at most.
  check_stream_notes :
      (ps : List Problem) (ns : List Note)
      → check_stream s names samples ≡ some (ps, ns)
      → length ns ≤ samples + 2
  unfolding check_stream
  check_stream_notes ps ns h =
      let w : Walk = walk_from (length s + 1) s 0 true 0 0 in
      omega (
        arith,
        length-notes-close w.ending (visit_all check_start w.chunks) ps ns
            (rw (check_from-walk_from (length s + 1) check_start 0) at h),
        length-notes-visit_all check_start w.chunks (omega arith),
      )
