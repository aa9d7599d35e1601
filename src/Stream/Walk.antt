-- ===== src/Stream/Walk.antt =====
-- `iter_chunks` of src/py/rdc_stream.py: the walk over all chunks. A generator is what it yields and
-- how it ends. A round of the loop moves past a header of eight bytes at least, so as many rounds as
-- the stream has bytes, and one, are enough.
pub mod Order
pub mod Modes
pub mod RoundTrip
use rdc_tools.Prelude.{
  ℕ, zero, suc, ◌+◌, Bool, true, false, List, [], ◌∷◌, ◌&&◌, not, ◌≡◌, length, leb, ◌==◌,
  if◌then◌else◌,
}
use rdc_tools.Stream.Frame.{
  ChunkInfo, Frame, FrameError, chunk_at, end_of_stream, frame_error, struct_error, read_frame,
}

pub data Ending : Type 0 where
  returned : Ending
  raised : FrameError → Ending
  raised_struct_error : Ending
  out_of_fuel : Ending

pub record Walk : Type 0 where
  pub chunks : List ChunkInfo
  pub ending : Ending

abbrev pub ends_with : Ending → Walk
ends_with e = record { chunks = []; ending = e }

abbrev pub yields : ChunkInfo → Walk → Walk
yields ch w = record { chunks = ch ∷ w.chunks; ending = w.ending }

-- `limit and n >= limit`
abbrev pub limit_reached : ℕ → ℕ → Bool
limit_reached limit n = not (limit == 0) && leb limit n

-- One round, with `again` the rounds that follow it, at a position and a count of chunks.
unfoldable pub walk_round : ℕ → Bool → ℕ → (ℕ → ℕ → Walk) → Frame → Walk
walk_round limit strict n again (chunk_at ch pos) =
    yields ch (if limit_reached limit (n + 1) then ends_with returned else again pos (n + 1))
walk_round limit strict n again end_of_stream = ends_with returned
walk_round limit strict n again (frame_error e) = ends_with (if strict then raised e else returned)
walk_round limit strict n again struct_error = ends_with raised_struct_error

unfoldable pub walk_from : ℕ → List ℕ → ℕ → Bool → ℕ → ℕ → Walk
walk_from zero stream limit strict pos n = ends_with out_of_fuel
walk_from (suc fuel) stream limit strict pos n = elim (leb (pos + 4) (length stream)) [
  | true ↦ walk_round limit strict n (walk_from fuel stream limit strict) (read_frame stream pos)
  | false ↦ ends_with returned
]

unfoldable pub iter_chunks : List ℕ → ℕ → Bool → Walk
iter_chunks stream limit strict = walk_from (length stream + 1) stream limit strict 0 0

-- The two cases of the loop's test.
module _ (fuel : ℕ) (s : List ℕ) (limit : ℕ) (strict : Bool) (pos n : ℕ) where
  pub walk_from_more :
      leb (pos + 4) (length s) ≡ true
      → walk_from (suc fuel) s limit strict pos n
        ≡ walk_round limit strict n (walk_from fuel s limit strict) (read_frame s pos)
  unfolding walk_from
  walk_from_more e = rw (walk_from, e)

  pub walk_from_done :
      leb (pos + 4) (length s) ≡ false
      → walk_from (suc fuel) s limit strict pos n ≡ ends_with returned
  unfolding walk_from
  walk_from_done e = rw (walk_from, e)
