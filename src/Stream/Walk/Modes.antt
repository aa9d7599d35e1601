-- ===== src/Stream/Walk/Modes.antt =====
-- The strict walk and the lenient one, and the limit.
use rdc_tools.Prelude.{
  ℕ, zero, suc, ◌+◌, ◌≡◌, refl, arith, inl, inr, Bool, true, false, List, length, leb, take,
  Bool-cases,
}
use rdc_tools.Stream.Frame.{Frame, chunk_at, end_of_stream, frame_error, struct_error, read_frame}
use rdc_tools.Stream.Walk.{
  Walk, Ending, returned, raised, raised_struct_error, out_of_fuel, walk_round, walk_from,
  walk_from_more, walk_from_done, iter_chunks,
}

-- A walk that forgets the `FrameError` that it ended by.
unfoldable pub forgive : Ending → Ending
forgive (raised e) = returned
forgive returned = returned
forgive raised_struct_error = raised_struct_error
forgive out_of_fuel = out_of_fuel

abbrev pub lenient_of : Walk → Walk
lenient_of w = record { chunks = w.chunks; ending = forgive w.ending }

walk_round_lenient :
    (limit n : ℕ) (a b : ℕ → ℕ → Walk)
    → ((pos k : ℕ) → a pos k ≡ lenient_of (b pos k))
    → (f : Frame) → walk_round limit false n a f ≡ lenient_of (walk_round limit true n b f)
unfolding walk_round forgive
walk_round_lenient limit n a b h (chunk_at ch next) = ground (arith, h next (n + 1))
walk_round_lenient limit n a b h end_of_stream = refl
walk_round_lenient limit n a b h (frame_error e) = refl
walk_round_lenient limit n a b h struct_error = refl

walk_from_lenient :
    (fuel : ℕ) (s : List ℕ) (limit pos n : ℕ)
    → walk_from fuel s limit false pos n ≡ lenient_of (walk_from fuel s limit true pos n)
walk_from_lenient zero s limit pos n = unfold walk_from forgive in refl
walk_from_lenient (suc fuel) s limit pos n = elim (Bool-cases (leb (pos + 4) (length s))) [
  | inl e ↦
      rw (walk_from_more fuel s limit false pos n e, walk_from_more fuel s limit true pos n e)
        (walk_round_lenient limit n _ _ (walk_from_lenient fuel s limit) (read_frame s pos))
  | inr e ↦
      rw (walk_from_done fuel s limit false pos n e, walk_from_done fuel s limit true pos n e)
        (unfold forgive in refl)
]

-- The lenient walk yields the very chunks of the strict one, and ends as it does, but that it
-- returns where the strict one raises `FrameError`.
pub iter_chunks_lenient :
    (s : List ℕ) (limit : ℕ) → iter_chunks s limit false ≡ lenient_of (iter_chunks s limit true)
unfolding iter_chunks
iter_chunks_lenient s limit = walk_from_lenient (length s + 1) s limit 0 0

-- After `n` chunks of a limit of `n + k + 1`, the limited walk yields the next `k + 1` at most.
walk_round_limit :
    (limit n k : ℕ) (strict : Bool) (a b : ℕ → ℕ → Walk)
    → limit ≡ n + suc k
    → ((pos : ℕ) (j : ℕ) → k ≡ suc j → (a pos (n + 1)).chunks ≡ take k (b pos (n + 1)).chunks)
    → (f : Frame)
    → (walk_round limit strict n a f).chunks ≡ take (suc k) (walk_round 0 strict n b f).chunks
unfolding walk_round
walk_round_limit limit n zero strict a b e h (chunk_at ch next) = ground arith
walk_round_limit limit n (suc k) strict a b e h (chunk_at ch next) = ground (arith, h next k refl)
walk_round_limit limit n k strict a b e h end_of_stream = refl
walk_round_limit limit n k strict a b e h (frame_error err) = refl
walk_round_limit limit n k strict a b e h struct_error = refl

walk_from_limit :
    (fuel : ℕ) (s : List ℕ) (limit : ℕ) (strict : Bool) (pos n k : ℕ)
    → limit ≡ n + suc k
    → (walk_from fuel s limit strict pos n).chunks
      ≡ take (suc k) (walk_from fuel s 0 strict pos n).chunks
walk_from_limit zero s limit strict pos n k e = unfold walk_from in refl
walk_from_limit (suc fuel) s limit strict pos n k e = elim (Bool-cases (leb (pos + 4) (length s))) [
  | inl t ↦
      rw (walk_from_more fuel s limit strict pos n t, walk_from_more fuel s 0 strict pos n t)
        (walk_round_limit limit n k strict _ _ e
          (λ next j r. rw r (walk_from_limit fuel s limit strict next (n + 1) j (omega arith)))
          (read_frame s pos))
  | inr t ↦ rw (walk_from_done fuel s limit strict pos n t, walk_from_done fuel s 0 strict pos n t)
]

-- With a limit of one or more, the walk yields the first chunks of the walk without a limit, and as
-- many as the limit says or as there are.
iter_chunks_limit :
    (s : List ℕ) (k : ℕ) (strict : Bool)
    → (iter_chunks s (suc k) strict).chunks ≡ take (suc k) (iter_chunks s 0 strict).chunks
unfolding iter_chunks
iter_chunks_limit s k strict = walk_from_limit (length s + 1) s (suc k) strict 0 0 k (omega arith)
