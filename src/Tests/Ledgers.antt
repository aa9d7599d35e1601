-- ===== src/Tests/Ledgers.antt =====
-- Runs on small ledgers: src/py/rdc_uses.py.
use rdc_tools.Prelude.{
  All, ℕ, ◌<◌, ◌≤◌, ◌≡◌, ◌↔◌, arith, true, ◌&&◌, none, some, List, [], ◌∷◌, ltb, ◌==◌,
  if◌then◌else◌,
}
use rdc_tools.Uses.{
  Access, read, write, discards, How, srv, rtv, copy_dst, UseInfo, ResourceUse, UseTally, committed,
  reads, writes, is_discard, keep, find, eid_or_zero, tally, read_before_write, write_never_read,
}
use rdc_tools.Uses.Tally.{find_last, read_before_write_iff, write_never_read_iff}
use rdc_tools.Uses.Provenance.{ends_or_writes, previous_writer, Resources}
use rdc_tools.Uses.Provenance.Writer.{previous_writer-find_last}
use rdc_tools.Uses.Ledger.{Table, Extent}

abbrev use_at : ℕ → Access → How → List ℕ → UseInfo
use_at eid access how detail = record {
  eid = eid;
  access = access;
  how = how;
  call = "Draw";
  detail = detail;
}

abbrev reading_at : ℕ → UseInfo
reading_at eid = use_at eid read srv []

abbrev writing_at : ℕ → UseInfo
writing_at eid = use_at eid write rtv []

abbrev resource_of : List UseInfo → ResourceUse
resource_of us = record { created = 1; placement = committed; heap = 0; offset = 0; uses = us }

-- Read at event 3, written at 5 and discarded at 8.
abbrev early_read : ResourceUse
early_read = resource_of (reading_at 3 ∷ writing_at 5 ∷ use_at 8 discards How.discard [] ∷ [])

read_before_write_iff_example :
    (read_before_write (tally 4 early_read) ≡ some (reading_at 3, 5)) ↔ (
      (find (λ u. reads u.access) early_read.uses ≡ some (reading_at 3))
      × All (λ u. writes u.access ≡ true → 3 < u.eid) early_read.uses
      × (eid_or_zero (find (λ u. writes u.access) early_read.uses) ≡ 5))
read_before_write_iff_example = read_before_write_iff 4 early_read (reading_at 3) 5

write_never_read_iff_example :
    (write_never_read (tally 4 early_read)
      ≡ some (writing_at 5, use_at 8 discards How.discard [] ∷ []))
    ↔ ((find_last (λ u. writes u.access) early_read.uses ≡ some (writing_at 5))
        × All (λ u. reads u.access ≡ true → u.eid ≤ 5) early_read.uses
        × (keep (λ u. is_discard u.access && ltb 5 u.eid) early_read.uses
            ≡ use_at 8 discards How.discard [] ∷ []))
write_never_read_iff_example =
    write_never_read_iff 4 early_read (writing_at 5) (use_at 8 discards How.discard [] ∷ [])

previous_writer-find_last_example :
    previous_writer early_read.uses 8
    ≡ find_last (λ u. ltb u.eid 8 && ends_or_writes u) early_read.uses
previous_writer-find_last_example =
    previous_writer-find_last early_read.uses 8
      ((omega arith, (omega arith, tt)), ((omega arith, tt), (tt, tt)))

-- Resource 4 is copied from resource 9 at event 6, which a draw wrote at 5.
abbrev copy : UseInfo
copy = use_at 6 write copy_dst (b'f' ∷ b'r' ∷ b'o' ∷ b'm' ∷ b' ' ∷ b'r' ∷ b'e' ∷ b's' ∷ b'9' ∷ [])

abbrev copied : Resources
copied rid =
    if rid == 4
    then some (resource_of (copy ∷ reading_at 7 ∷ []))
    else if rid == 9
    then some (resource_of (writing_at 5 ∷ []))
    else none

-- Two resources that share bytes: the one written at 5, the other read at 3 and 7.
abbrev writer_tally : UseTally
writer_tally = record {
  rid = 1;
  write_uses = writing_at 5 ∷ [];
  read_uses = [];
  discard_uses = [];
  first = 5;
  last = 5;
}

abbrev reader_tally : UseTally
reader_tally = record {
  rid = 2;
  write_uses = [];
  read_uses = reading_at 3 ∷ reading_at 7 ∷ [];
  discard_uses = [];
  first = 3;
  last = 7;
}

abbrev small_table : Table
small_table = (4, early_read) ∷ []

abbrev two_buffers : List (ℕ × Extent)
two_buffers =
    (4, record { gpu_address = 0x1000; size = 256 })
    ∷ (5, record { gpu_address = 0x2000; size = 16 })
    ∷ []
