-- ===== src/Bundle/Passes.antt =====
-- `reconstruct_passes` and `_pass_structure` of src/py/rdc_passes.py: the runs of events that agree on the
-- call kind and the bound targets. The list of passes is the newest first while it is filled.
pub mod Runs
pub mod Touched
use rdc_tools.Prelude.{
  ℕ, zero, suc, ◌+◌, Bool, true, false, not, ◌&&◌, Option, none, some, List, [], ◌∷◌, ◌++◌, map,
  length, leb, ltb, codes, bytes_eq, take, drop, sorted_by, if◌then◌else◌,
}
use rdc_tools.Bundle.Rows.{Text, Volume, BundleEvent, BundleResource, texts_eq, md, is_resource}

abbrev pub kind_of : BundleEvent → Text
kind_of event = elim event.pso_kind [ none ↦ codes "graphics" | some kind ↦ kind ]

abbrev pub depth_of : BundleEvent → Text
depth_of event = elim event.depth [ none ↦ codes "0" | some depth ↦ depth ]

abbrev pub dispatch_of : BundleEvent → Text
dispatch_of event = event.pso ++ (codes " " ++ md event.shaders)

abbrev pub is_compute : Text → Bool
is_compute kind = bytes_eq kind (codes "compute")

-- The reason of a pass, with the texts that it names.
pub data Reason : Type 0 where
  first_event dispatch_changed : Reason
  kind_changed depth_changed : Text → Text → Reason
  targets_changed : List Text → List Text → Reason

-- The texts of `_pass_structure`.
pub data Structure : Type 0 where
  compute_only depth_only colour_only multi_target single_target no_targets : Structure

unfoldable pub pass_structure : Text → List Text → Text → Structure
pass_structure kind targets depth =
    if is_compute kind
    then compute_only
    else if leb (length targets) 0 && is_resource depth
    then depth_only
    else if ltb 0 (length targets) && not (is_resource depth)
    then colour_only
    else if leb 2 (length targets)
    then multi_target
    else if ltb 0 (length targets)
    then single_target
    else no_targets

-- What a pass sums over its events.
pub record Work : Type 0 where
  pub events : ℕ
  pub graphics : ℕ
  pub compute : ℕ
  pub volume_calls : ℕ
  pub vertices : ℕ
  pub instances : ℕ
  pub triangles : ℕ
  pub threads : ℕ

-- The fields that the grouping fills. `first_touched` has the rows that `_describe` prints.
pub record ReportPass : Type 0 where
  pub index : ℕ
  pub first_eid : ℕ
  pub last_eid : ℕ
  pub kind : Text
  pub reason : Reason
  pub marker : Text
  pub targets : List Text
  pub depth : Text
  pub structure : Structure
  pub work : Work
  pub first_touched : List BundleResource

pub record Grouping : Type 0 where
  pub passes : List ReportPass
  pub last_kind : Text
  pub last_targets : List Text
  pub last_depth : Text
  pub last_dispatch : Text

abbrev pub nothing_grouped : Grouping
nothing_grouped = record {
  passes = [];
  last_kind = [];
  last_targets = [];
  last_depth = [];
  last_dispatch = [];
}

-- Whether an event starts a pass where there is one before it, and why.
unfoldable pub changed : Grouping → BundleEvent → Option Reason
changed g event =
    if not (bytes_eq g.last_kind (kind_of event))
    then some (kind_changed g.last_kind (kind_of event))
    else if is_compute (kind_of event)
    then (if bytes_eq (dispatch_of event) g.last_dispatch then none else some dispatch_changed)
    else if not (texts_eq event.targets g.last_targets)
    then some (targets_changed g.last_targets event.targets)
    else if not (bytes_eq (depth_of event) g.last_depth)
    then some (depth_changed g.last_depth (depth_of event))
    else none

unfoldable pub boundary : Grouping → BundleEvent → Option Reason
boundary g event = elim g.passes [ [] ↦ some first_event | p ∷ ps ↦ changed g event ]

abbrev pub no_work : Work
no_work = record {
  events = 0;
  graphics = 0;
  compute = 0;
  volume_calls = 0;
  vertices = 0;
  instances = 0;
  triangles = 0;
  threads = 0;
}

abbrev pub new_pass : ℕ → BundleEvent → Reason → ReportPass
new_pass index event reason = record {
  index = index;
  first_eid = event.eid;
  last_eid = event.eid;
  kind = kind_of event;
  reason = reason;
  marker = event.marker;
  targets = event.targets;
  depth = depth_of event;
  structure = pass_structure (kind_of event) event.targets (depth_of event);
  work = no_work;
  first_touched = [];
}

abbrev pub add_volume : Option Volume → Work → Work
add_volume none w = w
add_volume (some v) w = record {
  events = w.events;
  graphics = w.graphics;
  compute = w.compute;
  volume_calls = w.volume_calls + 1;
  vertices = w.vertices + v.vertices;
  instances = w.instances + v.instances;
  triangles = w.triangles + v.triangles;
  threads = w.threads + v.threads;
}

abbrev pub add_call : Text → Work → Work
add_call kind w =
    if is_compute kind
    then record w { events = w.events + 1; compute = w.compute + 1 }
    else record w { events = w.events + 1; graphics = w.graphics + 1 }

unfoldable pub add_event : BundleEvent → ReportPass → ReportPass
add_event event p = record p {
  last_eid = event.eid;
  work = add_volume event.volume (add_call (kind_of event) p.work);
}

-- `current = passes[-1]`, which is there once a pass has been started.
abbrev pub add_to_last : BundleEvent → List ReportPass → List ReportPass
add_to_last event [] = []
add_to_last event (p ∷ ps) = add_event event p ∷ ps

abbrev pub started : List ReportPass → BundleEvent → Option Reason → List ReportPass
started passes event none = passes
started passes event (some reason) = new_pass (length passes + 1) event reason ∷ passes

unfoldable pub group_event : Grouping → BundleEvent → Grouping
group_event g event = record {
  passes = add_to_last event (started g.passes event (boundary g event));
  last_kind = kind_of event;
  last_targets = event.targets;
  last_depth = depth_of event;
  last_dispatch = dispatch_of event;
}

unfoldable pub group_events : Grouping → List BundleEvent → Grouping
group_events g [] = g
group_events g (event ∷ events) = group_events (group_event g event) events

-- `bisect.bisect_left` and `bisect.bisect_right` on ascending numbers.
abbrev pub bisect_left : List ℕ → ℕ → ℕ
bisect_left [] x = 0
bisect_left (y ∷ ys) x = let rest = bisect_left ys x in if ltb y x then suc rest else 0

abbrev pub bisect_right : List ℕ → ℕ → ℕ
bisect_right [] x = 0
bisect_right (y ∷ ys) x = let rest = bisect_right ys x in if leb y x then suc rest else 0

-- `by_first`
abbrev pub by_first : List BundleResource → List BundleResource
by_first resources = sorted_by (λ r s. leb r.first_event s.first_event) resources

-- `resources[lo:hi]` in the order of their first events, then by their ids.
unfoldable pub touched : List BundleResource → ℕ → ℕ → List BundleResource
touched resources first last =
    let ordered = map (λ r. r.first_event) (by_first resources) in
    sorted_by (λ r s. leb r.resource s.resource)
      (drop (bisect_left ordered first) (take (bisect_right ordered last) (by_first resources)))

abbrev pub touch : List BundleResource → ReportPass → ReportPass
touch resources p = record p { first_touched = touched resources p.first_eid p.last_eid }

-- The passes in the order in which they were started.
abbrev pub oldest_first : List ReportPass → List ReportPass → List ReportPass
oldest_first [] later = later
oldest_first (p ∷ ps) later = oldest_first ps (p ∷ later)

unfoldable pub reconstruct_passes : List BundleEvent → List BundleResource → List ReportPass
reconstruct_passes events resources =
    map (touch resources) (oldest_first (group_events nothing_grouped events).passes [])
