-- ===== src/Stream/Walk/Order.antt =====
-- The walk ends on every stream, and the chunks that it yields lie in order inside the stream.
use rdc_tools.Prelude.{
  ℕ, zero, suc, ◌+◌, ◌-◌, ◌<◌, ◌≡◌, ◌≢◌, arith, inl, inr, Bool, List, [], ◌∷◌, length, leb,
  Bool-cases, if_both, refl,
}
use rdc_tools.Stream.Frame.{
  ChunkInfo, Frame, chunk_at, end_of_stream, frame_error, struct_error, read_frame, chunk_at,
}
use rdc_tools.Stream.Frame.Bounds.{IsFramed, read_frame-IsFramed}
use rdc_tools.Stream.Walk.{
  Walk, out_of_fuel, limit_reached, walk_round, walk_from, walk_from_more, walk_from_done,
  iter_chunks,
}

-- Chunks that follow one another from position `pos` of a stream of `size` bytes: each is framed at
-- the place where the padding of the one before it ends.
abbrev pub InOrder : ℕ → ℕ → List ChunkInfo → Type 0
InOrder size pos [] = Unit {0}
InOrder size pos (ch ∷ chs) =
    IsFramed size pos ch (ch.pad_start + ch.pad_len) × InOrder size (ch.pad_start + ch.pad_len) chs

-- What a round says about a frame carries over to the walk.
module _ (size pos limit n : ℕ) (strict : Bool) (again : ℕ → ℕ → Walk) where
  walk_round-InOrder :
      (f : Frame)
      → ((ch : ChunkInfo) (next : ℕ) → f ≡ chunk_at ch next → IsFramed size pos ch next)
      → ((next : ℕ) → InOrder size next (again next (n + 1)).chunks)
      → InOrder size pos (walk_round limit strict n again f).chunks
  unfolding walk_round
  walk_round-InOrder (chunk_at ch next) framed rest =
      let here : IsFramed size pos ch next = framed ch next refl in
      let same : ch.pad_start + ch.pad_len ≡ next = here.pad_ends in
      rw same (
        here,
        if_both (λ (w : Walk). InOrder size next w.chunks) (limit_reached limit (n + 1)) _ _ tt
            (rest next),
      )
  walk_round-InOrder end_of_stream framed rest = tt
  walk_round-InOrder (frame_error e) framed rest = tt
  walk_round-InOrder struct_error framed rest = tt

  walk_round-ne-out_of_fuel :
      (f : Frame)
      → ((ch : ChunkInfo) (next : ℕ)
          → f ≡ chunk_at ch next
          → (again next (n + 1)).ending ≢ out_of_fuel)
      → (walk_round limit strict n again f).ending ≢ out_of_fuel
  unfolding walk_round
  walk_round-ne-out_of_fuel (chunk_at ch next) rest =
      if_both (λ (w : Walk). w.ending ≢ out_of_fuel) (limit_reached limit (n + 1)) _ _ (λ e. cc)
        (rest ch next refl)
  walk_round-ne-out_of_fuel end_of_stream rest = λ e. cc
  walk_round-ne-out_of_fuel (frame_error e) rest = ground arith
  walk_round-ne-out_of_fuel struct_error rest = λ e. cc

walk_from-InOrder :
    (fuel : ℕ) (s : List ℕ) (limit : ℕ) (strict : Bool) (pos n : ℕ)
    → InOrder (length s) pos (walk_from fuel s limit strict pos n).chunks
walk_from-InOrder zero s limit strict pos n = unfold walk_from in tt
walk_from-InOrder (suc fuel) s limit strict pos n = elim (Bool-cases (leb (pos + 4) (length s))) [
  | inl e ↦ rw (walk_from_more fuel s limit strict pos n e) (
      walk_round-InOrder (length s) pos limit n strict (walk_from fuel s limit strict)
        (read_frame s pos) (λ ch next. read_frame-IsFramed s pos ch next)
        (λ next. walk_from-InOrder fuel s limit strict next (n + 1)))
  | inr e ↦ rw (walk_from_done fuel s limit strict pos n e) tt
]

-- Whatever the stream, the chunks that the walk yields are framed one behind the other: every header
-- and payload is inside the stream, a chunk starts where the padding of the one before it ends, and
-- the first starts at 0.
pub iter_chunks-InOrder :
    (s : List ℕ) (limit : ℕ) (strict : Bool)
    → InOrder (length s) 0 (iter_chunks s limit strict).chunks
unfolding iter_chunks
iter_chunks-InOrder s limit strict = walk_from-InOrder (length s + 1) s limit strict 0 0

walk_from-ne-out_of_fuel :
    (fuel : ℕ) (s : List ℕ) (limit : ℕ) (strict : Bool) (pos n : ℕ)
    → length s - pos < fuel
    → (walk_from fuel s limit strict pos n).ending ≢ out_of_fuel
walk_from-ne-out_of_fuel zero s limit strict pos n h = absurd (omega arith)
walk_from-ne-out_of_fuel (suc fuel) s limit strict pos n h =
    elim (Bool-cases (leb (pos + 4) (length s))) [
      | inl e ↦ rw (walk_from_more fuel s limit strict pos n e) (
          walk_round-ne-out_of_fuel (length s) pos limit n strict (walk_from fuel s limit strict)
            (read_frame s pos)
            λ ch next r.
              let framed = read_frame-IsFramed s pos ch next r in
              walk_from-ne-out_of_fuel fuel s limit strict next (n + 1) (ground arith))
      | inr e ↦ rw (walk_from_done fuel s limit strict pos n e) (λ q. cc)
    ]

-- The walk ends on every stream, in either mode: its loop never runs out of rounds.
pub iter_chunks-ne-out_of_fuel :
    (s : List ℕ) (limit : ℕ) (strict : Bool) → (iter_chunks s limit strict).ending ≢ out_of_fuel
unfolding iter_chunks
iter_chunks-ne-out_of_fuel s limit strict =
    walk_from-ne-out_of_fuel (length s + 1) s limit strict 0 0 (omega arith)
