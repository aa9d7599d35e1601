-- ===== src/Uses/Provenance/Writer.antt =====
-- `_previous_writer` against its description.
use rdc_tools.Prelude.{
  All, ℕ, ◌≤◌, ◌<◌, ◌≡◌, refl, arith, inl, inr, Bool, ◌&&◌, Option, none, some, List, [], ◌∷◌, leb,
  ltb, Bool-cases, if◌then◌else◌, ◌∙◌,
}
use rdc_tools.Uses.{UseInfo}
use rdc_tools.Uses.Tally.{find_last}
use rdc_tools.Uses.Provenance.{ends_or_writes, previous_from, previous_writer}

-- A use list in the order of its events.
abbrev pub IsSorted : List UseInfo → Type 0
IsSorted [] = Unit {0}
IsSorted (u ∷ us) = All (λ v. u.eid ≤ v.eid) us × IsSorted us

abbrev pub earlier_writer : ℕ → UseInfo → Bool
earlier_writer before u = ltb u.eid before && ends_or_writes u

abbrev pub or_else {ℓ} : {A : Type ℓ} → Option A → Option A → Option A
or_else none y = y
or_else (some x) y = some x

none_later :
    (before : ℕ) (u : UseInfo) (us : List UseInfo)
    → before ≤ u.eid
    → All (λ v. u.eid ≤ v.eid) us
    → find_last (earlier_writer before) us ≡ none
none_later before u [] h a = refl
none_later before u (v ∷ vs) h (a, rest) = ground (arith, none_later before u vs h rest)

previous_from-find_last :
    (before : ℕ) (best : Option UseInfo) (us : List UseInfo)
    → IsSorted us
    → previous_from before best us ≡ or_else (find_last (earlier_writer before) us) best
unfolding previous_from
previous_from-find_last before best [] s = refl
previous_from-find_last before best (u ∷ us) (a, s) = elim (Bool-cases (leb before u.eid)) [
  | inl e ↦ ground (arith, none_later before u us (ground arith) a)
  | inr e ↦
      ground
        (arith, previous_from-find_last before (if ends_or_writes u then some u else best) us s)
]

-- In a use list in the order of events, the previous writer is the last use, of those before the
-- event, that discards the resource or writes it by a call, a clear, a copy or a resolve.
pub previous_writer-find_last :
    (uses : List UseInfo) (before : ℕ)
    → IsSorted uses
    → previous_writer uses before ≡ find_last (λ u. ltb u.eid before && ends_or_writes u) uses
unfolding previous_writer
previous_writer-find_last uses before s =
    previous_from-find_last before none uses s ∙ none_else (find_last (earlier_writer before) uses)
  where
    none_else : (o : Option UseInfo) → or_else o none ≡ o
    none_else none = refl
    none_else (some x) = refl

previous_from-lt :
    (before : ℕ) (best : Option UseInfo) (us : List UseInfo) {w : UseInfo}
    → ((b : UseInfo) → best ≡ some b → b.eid < before)
    → previous_from before best us ≡ some w
    → w.eid < before
unfolding previous_from
previous_from-lt before best [] {w} hb h = hb w h
previous_from-lt before best (u ∷ us) {w} hb h = elim (Bool-cases (leb before u.eid)) [
  | inl e ↦ hb w (ground arith)
  | inr e ↦
      previous_from-lt before (if ends_or_writes u then some u else best) us {w = w}
        (λ b q. elim (Bool-cases (ends_or_writes u)) [
          | inl t ↦ ground arith
          | inr t ↦ hb b (ground arith)
        ])
        (ground arith)
]

-- It lies strictly before the event, in any use list.
pub previous_writer-lt :
    (uses : List UseInfo) (before : ℕ) {w : UseInfo}
    → previous_writer uses before ≡ some w
    → w.eid < before
unfolding previous_writer
previous_writer-lt uses before h = previous_from-lt before none uses (λ b q. cc) h
