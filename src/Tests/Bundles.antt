-- ===== src/Tests/Bundles.antt =====
-- A bundle of four calls and two resources.
use rdc_tools.Prelude.{
  ℕ, ◌≡◌, ◌↔◌, ◌<◌, ◌≤◌, refl, ◌∙◌, true, ◌&&◌, leb, none, some, List, [], ◌∷◌, map, All,
  IsAscending, codes, bytes_eq, length, arith, sorted_by, insert_sorted,
}
use mathlib.Core.List.{Perm}
use rdc_tools.Uses.{any, keep, find}
use rdc_tools.Bundle.Rows.{BundleEvent, BundleResource, BundleUsage, md, split_from}
use rdc_tools.Bundle.Passes.{
  ReportPass, touch, touched, reconstruct_passes, group_events, group_event, boundary, changed,
  add_event,
}
use rdc_tools.Bundle.Passes.Runs.{runs, passes_of, reconstruct_passes-runs}
use rdc_tools.Bundle.Passes.Touched.{touched_lem}
use rdc_tools.Bundle.Usage.{
  can_judge, usage_judged, per_event, add_usage, add_name, usage_name, usage_chain, usage_chain_map,
  chain_of, usage_reads, usage_writes, usage_targets,
}
use rdc_tools.Bundle.Usage.Chain.{is_of}
use rdc_tools.Bundle.Usage.Shared.{chain_of-usage_chain_map}
use rdc_tools.Bundle.Detect.{
  first_read, flag_read_before_write, flag_write_never_read, flag_load_instead_of_clear,
  dead_binding,
}
use rdc_tools.Bundle.Detect.Found.{IsFirst, IsLast}
use rdc_tools.Bundle.Detect.Steps.{read_of, write_of, target_of, has}
use rdc_tools.Bundle.Detect.Rules.{
  flag_read_before_write_iff, flag_write_never_read_iff, flag_load_instead_of_clear_iff,
  dead_binding_iff,
}

abbrev a_draw : ℕ → BundleEvent
a_draw eid = record {
  eid = eid;
  marker = codes "Scene";
  pso = codes "12";
  pso_kind = none;
  shaders = codes "vs 3 | ps 4";
  targets = codes "7" ∷ [];
  depth = some (codes "8");
  volume = some (record { vertices = 30; instances = 1; triangles = 10; threads = 0 });
}

abbrev a_dispatch : ℕ → BundleEvent
a_dispatch eid = record (a_draw eid) { pso_kind = some (codes "compute"); volume = none }

abbrev some_events : List BundleEvent
some_events = a_draw 3 ∷ a_draw 5 ∷ a_dispatch 6 ∷ a_draw 9 ∷ []

abbrev a_texture : ℕ → ℕ → List BundleUsage → BundleResource
a_texture id first_event usage = record {
  resource = id;
  kind = codes "texture";
  first_event = first_event;
  usage = usage;
}

abbrev read_first : BundleResource
read_first = a_texture 7 3 (record { eid = 3; usage = 17 } ∷ record { eid = 5; usage = 43 } ∷ [])

abbrev written_last : BundleResource
written_last = a_texture 9 5 (record { eid = 5; usage = 32 } ∷ record { eid = 6; usage = 27 } ∷ [])

abbrev some_resources : List BundleResource
some_resources = written_last ∷ read_first ∷ []

reconstruct_passes-runs_example :
    reconstruct_passes some_events some_resources
    ≡ map (touch some_resources) (passes_of 1 none (runs some_events))
reconstruct_passes-runs_example = reconstruct_passes-runs some_events some_resources

touched_lem_example :
    Perm
      (touched some_resources 3 5)
      (keep (λ r. leb 3 r.first_event && leb r.first_event 5) some_resources)
    × IsAscending (λ r. r.resource) (touched some_resources 3 5)
touched_lem_example = touched_lem some_resources 3 5

chain_of-usage_chain_map_example :
    chain_of read_first (some (usage_chain_map some_resources)) ≡ chain_of read_first none
chain_of-usage_chain_map_example =
    chain_of-usage_chain_map read_first some_resources
      (λ h. absurd (omega (arith, h)), (λ h. refl, tt))

read_first_judged : can_judge read_first ≡ true
unfolding bytes_eq
read_first_judged = refl

written_last_judged : can_judge written_last ≡ true
unfolding bytes_eq
written_last_judged = refl

built : (resource : BundleResource) → chain_of resource none ≡ usage_chain resource
unfolding chain_of
built resource = refl

flag_read_before_write_iff_example :
    (read_of (flag_read_before_write (some (usage_chain_map some_resources)) read_first) ≡ some 3)
    ↔ (IsFirst usage_reads 3 read_first.usage
        × All (λ u. is_of usage_writes u ≡ true → 3 < u.eid) read_first.usage)
flag_read_before_write_iff_example =
    flag_read_before_write_iff read_first (some (usage_chain_map some_resources)) read_first_judged
      (chain_of-usage_chain_map_example ∙ built read_first) 3

flag_write_never_read_iff_example :
    (write_of (flag_write_never_read none written_last) ≡ some 6) ↔ (
      (0 < 6)
      × IsLast usage_writes 6 written_last.usage
      × All (λ u. is_of usage_reads u ≡ true → u.eid ≤ 6) written_last.usage)
flag_write_never_read_iff_example =
    flag_write_never_read_iff written_last none written_last_judged (built written_last) 6

flag_load_instead_of_clear_iff_example :
    (target_of (flag_load_instead_of_clear none written_last) ≡ some 5) ↔ (
      IsFirst usage_targets 5 written_last.usage
      × All (λ u. is_of usage_writes u ≡ true → 5 ≤ u.eid) written_last.usage)
flag_load_instead_of_clear_iff_example =
    flag_load_instead_of_clear_iff written_last none written_last_judged (built written_last) 5

dead_binding_iff_example : (has (dead_binding none 6 6 written_last) ≡ true) ↔ (
    (any
        (λ u. (leb 6 u.eid && leb u.eid 6) && is_of (codes "CS_RWResource" ∷ []) u)
        written_last.usage
      ≡ true)
    × All (λ u. is_of usage_reads u ≡ true → u.eid ≤ 6) written_last.usage)
dead_binding_iff_example =
    dead_binding_iff written_last none written_last_judged (built written_last) 6 6

abbrev shown : ReportPass → List ℕ
shown p = p.first_eid ∷ p.last_eid ∷ p.work.events ∷ p.work.vertices ∷ length p.first_touched ∷ []

-- Three passes: the dispatch ends the first, and the draw behind it starts the last.
passes_of_the_frame :
    map shown (reconstruct_passes some_events some_resources)
    ≡ (3 ∷ 5 ∷ 2 ∷ 60 ∷ 2 ∷ []) ∷ (6 ∷ 6 ∷ 1 ∷ 0 ∷ 0 ∷ []) ∷ (9 ∷ 9 ∷ 1 ∷ 30 ∷ 0 ∷ []) ∷ []
unfolding reconstruct_passes group_events group_event boundary changed add_event touched bytes_eq md
    split_from sorted_by insert_sorted
passes_of_the_frame = refl

read_is_flagged : read_of (flag_read_before_write none read_first) ≡ some 3
unfolding flag_read_before_write usage_judged chain_of usage_chain per_event add_usage add_name
    usage_name bytes_eq first_read any find sorted_by insert_sorted
read_is_flagged = refl
