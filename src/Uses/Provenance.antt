-- ===== src/Uses/Provenance.antt =====
-- `_previous_writer`, `_copy_source` and `walk_provenance` of src/py/rdc_uses.py: the chain of writers
-- behind one use. The ledger's resources are a function of the id. Each hop goes to a strictly earlier
-- event, so as many hops as the first event's number, and one, are enough.
pub mod Writer
pub mod Trace
use rdc_tools.Prelude.{
  ℕ, zero, suc, ◌+◌, ◌*◌, ◌-◌, Bool, true, false, not, ◌&&◌, ◌||◌, Option, none, some, List, [],
  ◌∷◌, ◌++◌, leb, ◌==◌, if◌then◌else◌,
}
use rdc_tools.Uses.{
  UseInfo, ResourceUse, How, discard, clear, copy_dst, resolve_dst, is_writer_how, writes, find,
}

-- `use['how'] == 'discard' or (use['how'] in WRITER_HOWS and use['access'] in (...))`
abbrev pub is_discard_how : How → Bool
is_discard_how discard = true
is_discard_how _ = false

unfoldable pub ends_or_writes : UseInfo → Bool
ends_or_writes u = is_discard_how u.how || (is_writer_how u.how && writes u.access)

unfoldable pub previous_from : ℕ → Option UseInfo → List UseInfo → Option UseInfo
previous_from before best [] = best
previous_from before best (u ∷ us) =
    if leb before u.eid
    then best
    else previous_from before (if ends_or_writes u then some u else best) us

unfoldable pub previous_writer : List UseInfo → ℕ → Option UseInfo
previous_writer uses before = previous_from before none uses

-- `re.match(r'from res(\d+)', detail)`, on the ASCII digits that the walk of the stream prints.
unfoldable pub strip_prefix : List ℕ → List ℕ → Option (List ℕ)
strip_prefix [] s = some s
strip_prefix (p ∷ ps) [] = none
strip_prefix (p ∷ ps) (c ∷ cs) = let rest = strip_prefix ps cs in if p == c then rest else none

abbrev pub is_digit : ℕ → Bool
is_digit c = leb b'0' c && leb c b'9'

unfoldable pub digits : ℕ → List ℕ → ℕ
digits n [] = n
digits n (c ∷ cs) = let more = digits (n * 10 + (c - b'0')) cs in if is_digit c then more else n

-- b'from res'
abbrev pub from_res : List ℕ
from_res = b'f' ∷ b'r' ∷ b'o' ∷ b'm' ∷ b' ' ∷ b'r' ∷ b'e' ∷ b's' ∷ []

-- No digits read as 0, which no resource has.
unfoldable pub copy_source : UseInfo → ℕ
copy_source u = elim (strip_prefix from_res u.detail) [ none ↦ 0 | some rest ↦ digits 0 rest ]

pub record ProvenanceStep : Type 0 where
  pub rid : ℕ
  pub use_info : UseInfo
  pub source : ℕ

pub data EndKind : Type 0 where
  no_writer created_here discarded cleared lost called : EndKind

pub record Provenance : Type 0 where
  pub rid : ℕ
  pub start : UseInfo
  pub steps : List ProvenanceStep
  pub ending : EndKind
  pub end_rid : ℕ
  pub end_use : Option UseInfo
  pub end_eid : ℕ

-- `absent` is None; `key_error` the KeyError of a resource that the ledger does not hold.
pub data Walked : Type 0 where
  traced : Provenance → Walked
  absent : Walked
  key_error : Walked
  out_of_fuel : Walked

abbrev pub Resources : Type 0
Resources = ℕ → Option ResourceUse

abbrev pub holds : Resources → ℕ → Bool
holds resources rid = elim (resources rid) [ none ↦ false | some rec ↦ true ]

module _ (resources : Resources) (rid : ℕ) (start : UseInfo) where
  -- The walk stops at `here` with the steps made so far.
  abbrev pub stop : List ProvenanceStep → EndKind → ℕ → Option UseInfo → ℕ → Walked
  stop steps ending here used eid = traced (record {
    rid = rid;
    start = start;
    steps = steps;
    ending = ending;
    end_rid = here;
    end_use = used;
    end_eid = eid;
  })

  -- A copy's or a resolve's destination, `again` the hops behind it.
  unfoldable pub follow_copy :
      (List ProvenanceStep → ℕ → ℕ → Walked) → List ProvenanceStep → ℕ → UseInfo → Walked
  follow_copy again steps here w =
      let source = copy_source w in
      if source == 0 || not (holds resources source)
      then stop (steps ++ record { rid = here; use_info = w; source = 0 } ∷ []) lost here (some w)
          w.eid
      else again (steps ++ record { rid = here; use_info = w; source = source } ∷ []) source w.eid

  -- What the walk does with the nearest earlier writer.
  unfoldable pub follow_write :
      (List ProvenanceStep → ℕ → ℕ → Walked) → List ProvenanceStep → ℕ → How → UseInfo → Walked
  follow_write again steps here discard w = stop steps discarded here (some w) w.eid
  follow_write again steps here clear w = stop steps cleared here (some w) w.eid
  follow_write again steps here copy_dst w = follow_copy again steps here w
  follow_write again steps here resolve_dst w = follow_copy again steps here w
  follow_write again steps here _ w = stop steps called here (some w) w.eid

  unfoldable pub follow_none : List ProvenanceStep → ℕ → ℕ → Walked
  follow_none steps here created =
      if created == 0
      then stop steps no_writer here none 0
      else stop steps created_here here none created

  unfoldable pub hop : (List ProvenanceStep → ℕ → ℕ → Walked) → List ProvenanceStep → ℕ → ℕ → Walked
  hop again steps here before = elim (resources here) [
    | none ↦ key_error
    | some rec ↦ elim (previous_writer rec.uses before) [
      | none ↦ follow_none steps here rec.created
      | some w ↦ follow_write again steps here w.how w
    ]
  ]

  unfoldable pub walk_from : ℕ → List ProvenanceStep → ℕ → ℕ → Walked
  walk_from zero steps here before = out_of_fuel
  walk_from (suc fuel) steps here before = hop (walk_from fuel) steps here before

unfoldable pub walk_provenance : Resources → ℕ → ℕ → Walked
walk_provenance resources rid eid = elim (resources rid) [
  | none ↦ absent
  | some rec ↦ elim (find (λ u. u.eid == eid) rec.uses) [
    | none ↦ absent
    | some start ↦ walk_from resources rid start (eid + 1) [] rid eid
  ]
]
