-- ===== src/Uses.antt =====
-- src/py/rdc_uses.py: the use ledger and the questions that `deps`, `memory` and `provenance` ask of
-- it. A use's `how` is one of the words that the walk of the stream records; `call` and `detail` are
-- texts, `detail` by its code points. `tally` and what reads a tally take the resource's use list,
-- which `walk_uses` leaves sorted by event.
pub mod Tally
pub mod Ledger
pub mod Memory
pub mod Record
pub mod Provenance
pub mod Alias
pub mod Overlap
use Prim.Native.String.{String}
use rdc_tools.Prelude.{
  ℕ, zero, suc, ◌+◌, ◌*◌, ◌-◌, bit_and, Bool, true, false, not, ◌&&◌, ◌||◌, Option, none, some,
  List, [], ◌∷◌, ◌++◌, leb, ltb, ◌==◌, if◌then◌else◌,
}

pub data Access : Type 0 where
  read write read_write discards : Access

pub data How : Type 0 where
  cbv srv uav vb ib rtv dsv clear copy_dst copy_src resolve_dst resolve_src discard barrier : How

pub record UseInfo : Type 0 where
  pub eid : ℕ
  pub access : Access
  pub how : How
  pub call : String
  pub detail : List ℕ

pub data Placement : Type 0 where
  committed placed reserved external : Placement

pub record ResourceUse : Type 0 where
  pub created : ℕ
  pub placement : Placement
  pub heap : ℕ
  pub offset : ℕ
  pub uses : List UseInfo

-- `access in ('write', 'read+write')` and `access in ('read', 'read+write')`
abbrev pub writes : Access → Bool
writes write = true
writes read_write = true
writes _ = false

abbrev pub reads : Access → Bool
reads read = true
reads read_write = true
reads _ = false

abbrev pub is_discard : Access → Bool
is_discard discards = true
is_discard _ = false

-- `how in WRITER_HOWS`
unfoldable pub is_writer_how : How → Bool
is_writer_how rtv = true
is_writer_how dsv = true
is_writer_how uav = true
is_writer_how clear = true
is_writer_how copy_dst = true
is_writer_how resolve_dst = true
is_writer_how _ = false

-- `none` is ''.
unfoldable pub access_of : ℕ → ℕ → ℕ → Option Access
access_of write_bits read_bits word =
    let writing = not (bit_and word write_bits == 0) in
    let reading = not (bit_and word read_bits == 0) in
    if writing && reading
    then some read_write
    else if writing
    then some write
    else if reading
    then some read
    else none

module _ {ℓ} {A : Type ℓ} where
  -- A comprehension with a condition.
  unfoldable pub keep : (A → Bool) → List A → List A
  keep p [] = []
  keep p (x ∷ xs) = if p x then x ∷ keep p xs else keep p xs

  -- `any(...)`
  unfoldable pub any : (A → Bool) → List A → Bool
  any p [] = false
  any p (x ∷ xs) = p x || any p xs

  -- `next((x for x in xs if p(x)), None)`
  unfoldable pub find : (A → Bool) → List A → Option A
  find p [] = none
  find p (x ∷ xs) = if p x then some x else find p xs

  -- `xs[0]` and `xs[-1]`, where there are any.
  abbrev pub first? : List A → Option A
  first? [] = none
  first? (x ∷ xs) = some x

  abbrev pub last_or : A → List A → A
  last_or x [] = x
  last_or x (y ∷ ys) = last_or y ys

  abbrev pub last? : List A → Option A
  last? [] = none
  last? (x ∷ xs) = some (last_or x xs)

abbrev pub eid_or_zero : Option UseInfo → ℕ
eid_or_zero none = 0
eid_or_zero (some u) = u.eid

pub record UseTally : Type 0 where
  pub rid : ℕ
  pub write_uses : List UseInfo
  pub read_uses : List UseInfo
  pub discard_uses : List UseInfo
  pub first : ℕ
  pub last : ℕ

unfoldable pub tally : ℕ → ResourceUse → UseTally
tally rid record' = record {
  rid = rid;
  write_uses = keep (λ u. writes u.access) record'.uses;
  read_uses = keep (λ u. reads u.access) record'.uses;
  discard_uses = keep (λ u. is_discard u.access) record'.uses;
  first = eid_or_zero (first? record'.uses);
  last = eid_or_zero (last? record'.uses);
}

-- `(first read, first write or 0)`
unfoldable pub read_before_write : UseTally → Option (UseInfo × ℕ)
read_before_write count = elim (first? count.read_uses) [
  | none ↦ none
  | some r ↦
      if any (λ w. leb w.eid r.eid) count.write_uses
      then none
      else some (r, eid_or_zero (first? count.write_uses))
]

-- `(last write, discards after it)`
unfoldable pub write_never_read : UseTally → Option (UseInfo × List UseInfo)
write_never_read count = elim (last? count.write_uses) [
  | none ↦ none
  | some w ↦
      if any (λ r. ltb w.eid r.eid) count.read_uses
      then none
      else some (w, keep (λ d. ltb w.eid d.eid) count.discard_uses)
]

pub data DepFlag : Type 0 where
  read_before_write_flag discarded_flag write_never_read_flag : DepFlag

abbrev pub dead_flag : List UseInfo → DepFlag
dead_flag [] = write_never_read_flag
dead_flag (d ∷ ds) = discarded_flag

unfoldable pub dep_flags : UseTally → List DepFlag
dep_flags count =
    (elim (read_before_write count) [ none ↦ [] | some found ↦ read_before_write_flag ∷ [] ])
    ++ (elim (write_never_read count) [ none ↦ [] | some dead ↦ dead_flag dead.1 ∷ [] ])
