-- ===== src/Tests/Heaps.antt =====
-- Two resources that are placed over each other in one heap.
use rdc_tools.Prelude.{
  ◌≤◌, inl, inr, arith, sorted_by, insert_sorted, All, ℕ, ◌≡◌, refl, map, some, List, [], ◌∷◌,
}
use rdc_tools.Uses.{ResourceUse, placed, keep}
use rdc_tools.Uses.Alias.{pair_conflicts, direction, write_while_read, first_conflict}
use rdc_tools.Uses.Overlap.{
  buffer, Infos, Tallies, AliasPair, alias_conflicts, pairs_in, heap_pairs, pairs_with, alias_pair,
  declared_for, heaps_of, insert_once, resource_bytes,
}
use rdc_tools.Uses.Memory.{Window, peak_live, sweep, sweep_change}
use rdc_tools.Uses.Memory.Changes.{live_at}
use rdc_tools.Uses.Memory.Peak.{peak_live_lem}
use rdc_tools.Uses.Overlap.Sound.{IsShared, alias_conflicts_sound}

abbrev heap_infos : Infos
heap_infos rid = some (record { kind = buffer; size = 100; width = 0; height = 0; depth = 0 })

abbrev heap_rows : Tallies
heap_rows rid = some (record {
  rid = rid;
  write_uses = [];
  read_uses = [];
  discard_uses = [];
  first = rid;
  last = 9;
})

abbrev placed_at : ℕ → ResourceUse
placed_at offset = record { created = 1; placement = placed; heap = 3; offset = offset; uses = [] }

abbrev heap_resources : List (ℕ × ResourceUse)
heap_resources = (4, placed_at 0) ∷ (6, placed_at 60) ∷ (7, placed_at 500) ∷ []

alias_conflicts_sound_example :
    All
      (IsShared heap_infos heap_rows heap_resources)
      (alias_conflicts heap_infos heap_rows ((2, 6, 4) ∷ []) heap_resources 20)
alias_conflicts_sound_example =
    alias_conflicts_sound heap_infos heap_rows ((2, 6, 4) ∷ []) heap_resources 20
      ((refl, (refl, tt)), ((refl, tt), (tt, tt)))

abbrev numbers : AliasPair → List ℕ
numbers p = p.a ∷ p.b ∷ p.overlap ∷ p.first ∷ []

one_pair :
    map numbers (alias_conflicts heap_infos heap_rows ((2, 6, 4) ∷ []) heap_resources 20)
    ≡ (4 ∷ 6 ∷ 40 ∷ 6 ∷ []) ∷ []
unfolding alias_conflicts pairs_in heap_pairs pairs_with alias_pair heaps_of insert_once sorted_by
    insert_sorted resource_bytes keep declared_for pair_conflicts direction write_while_read
    first_conflict
one_pair = refl

-- Two windows that overlap at event 4, and one that is not known.
abbrev some_windows : List Window
some_windows =
    record { first = 2; last = 4; size = 10 }
    ∷ record { first = 4; last = 6; size = 7 }
    ∷ record { first = 0; last = 0; size = 1 }
    ∷ []

peak_live_lem_example :
    ((peak_live some_windows 9).0 ≡ live_at some_windows 9 (peak_live some_windows 9).1)
    × ((e : ℕ) → live_at some_windows 9 e ≤ (peak_live some_windows 9).0)
peak_live_lem_example =
    peak_live_lem some_windows 9 (inr (omega arith), (inr (omega arith), (inl refl, tt)))

peak_of_windows : peak_live some_windows 9 ≡ (18, 4)
unfolding peak_live sweep sweep_change sorted_by insert_sorted
peak_of_windows = refl
