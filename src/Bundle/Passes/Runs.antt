-- ===== src/Bundle/Passes/Runs.antt =====
-- `reconstruct_passes` against the runs of the events: a list of events is cut where two neighbours do not
-- agree, and each run is summed up by itself.
use rdc_tools.Prelude.{
  ℕ, ◌+◌, ◌≡◌, refl, arith, inl, inr, Bool, true, false, not, ◌&&◌, Option, none, some, List, [],
  ◌∷◌, map, length, sum_of, bytes_eq, ap, sym, ◌∙◌, if◌then◌else◌, Bool-cases,
}
use mathlib.Core.Path.{ap₂}
use rdc_tools.Bundle.Rows.{Volume, BundleEvent, BundleResource, texts_eq}
use rdc_tools.Bundle.Passes.{
  Work, ReportPass, no_work, Grouping, Reason, first_event, kind_of, depth_of, dispatch_of,
  is_compute, changed, boundary, new_pass, add_call, add_volume, add_event, group_event,
  group_events, oldest_first, touch, reconstruct_passes, pass_structure,
}

-- Two neighbours of one pass: of one kind, and dispatches by the pipeline and the shaders, draws by the
-- render targets and the depth target.
abbrev pub agrees : BundleEvent → BundleEvent → Bool
agrees a b =
    bytes_eq (kind_of a) (kind_of b)
    && (if is_compute (kind_of b)
        then bytes_eq (dispatch_of b) (dispatch_of a)
        else texts_eq b.targets a.targets && bytes_eq (depth_of b) (depth_of a))

-- A run is its first event and those behind it.
abbrev pub Run : Type 0
Run = BundleEvent × List BundleEvent

-- What is left of the run of `a`, and the runs behind it.
unfoldable pub cut_behind : BundleEvent → List BundleEvent → List BundleEvent × List Run
cut_behind a [] = ([], [])
cut_behind a (b ∷ events) =
    let (run, later) = cut_behind b events in
    if agrees a b then (b ∷ run, later) else ([], (b, run) ∷ later)

unfoldable pub runs : List BundleEvent → List Run
runs [] = []
runs (a ∷ events) = let (run, later) = cut_behind a events in (a, run) ∷ later

abbrev pub last_of : BundleEvent → List BundleEvent → BundleEvent
last_of a [] = a
last_of a (b ∷ events) = last_of b events

abbrev pub one_if : Bool → ℕ
one_if true = 1
one_if false = 0

abbrev pub has_volume : BundleEvent → ℕ
has_volume event = elim event.volume [ none ↦ 0 | some v ↦ 1 ]

abbrev pub volume_of : (Volume → ℕ) → BundleEvent → ℕ
volume_of f event = elim event.volume [ none ↦ 0 | some v ↦ f v ]

-- The sums over some events, on top of others.
abbrev pub summed : Work → List BundleEvent → Work
summed w events = record {
  events = w.events + length events;
  graphics = w.graphics + sum_of (λ e. one_if (not (is_compute (kind_of e)))) events;
  compute = w.compute + sum_of (λ e. one_if (is_compute (kind_of e))) events;
  volume_calls = w.volume_calls + sum_of has_volume events;
  vertices = w.vertices + sum_of (volume_of λ v. v.vertices) events;
  instances = w.instances + sum_of (volume_of λ v. v.instances) events;
  triangles = w.triangles + sum_of (volume_of λ v. v.triangles) events;
  threads = w.threads + sum_of (volume_of λ v. v.threads) events;
}

abbrev add_work : BundleEvent → Work → Work
add_work e w = add_volume e.volume (add_call (kind_of e) w)

Work-eq :
    {a b : Work}
    → a.events ≡ b.events
    → a.graphics ≡ b.graphics
    → a.compute ≡ b.compute
    → a.volume_calls ≡ b.volume_calls
    → a.vertices ≡ b.vertices
    → a.instances ≡ b.instances
    → a.triangles ≡ b.triangles
    → a.threads ≡ b.threads
    → a ≡ b
Work-eq e g c n v j t h = λ i. record {
  events = e i;
  graphics = g i;
  compute = c i;
  volume_calls = n i;
  vertices = v i;
  instances = j i;
  triangles = t i;
  threads = h i;
}

summed-nil : (w : Work) → summed w [] ≡ w
summed-nil w =
    Work-eq (omega arith) (omega arith) (omega arith) (omega arith) (omega arith) (omega arith)
      (omega arith) (omega arith)

summed-cons :
    (w : Work) (e : BundleEvent) (events : List BundleEvent)
    → summed (add_work e w) events ≡ summed w (e ∷ events)
summed-cons w e events =
    Work-eq (ground arith) (ground arith) (ground arith) (ground arith) (ground arith)
      (ground arith) (ground arith) (ground arith)

-- A pass with some more events.
abbrev extended : ReportPass → BundleEvent → List BundleEvent → ReportPass
extended p last run = record p { last_eid = last.eid; work = summed p.work run }

-- The texts of the last event, which the next is compared with.
abbrev seen : List ReportPass → BundleEvent → Grouping
seen passes e = record {
  passes = passes;
  last_kind = kind_of e;
  last_targets = e.targets;
  last_depth = depth_of e;
  last_dispatch = dispatch_of e;
}

abbrev pub why : Option BundleEvent → BundleEvent → Reason
why none b = first_event
why (some a) b = elim (changed (seen [] a) b) [ none ↦ first_event | some reason ↦ reason ]

-- The pass of a run: its number, the event before it, its first event and those behind it.
abbrev pub pass_of : ℕ → Option BundleEvent → Run → ReportPass
pass_of index before (a, run) = record {
  index = index;
  first_eid = a.eid;
  last_eid = (last_of a run).eid;
  kind = kind_of a;
  reason = why before a;
  marker = a.marker;
  targets = a.targets;
  depth = depth_of a;
  structure = pass_structure (kind_of a) a.targets (depth_of a);
  work = summed no_work (a ∷ run);
  first_touched = [];
}

unfoldable pub passes_of : ℕ → Option BundleEvent → List Run → List ReportPass
passes_of index before [] = []
passes_of index before ((a, run) ∷ later) =
    pass_of index before (a, run) ∷ passes_of (index + 1) (some (last_of a run)) later

changed-agrees :
    (ps : List ReportPass) (a b : BundleEvent)
    → changed (seen ps a) b ≡ (if agrees a b then none else some (why (some a) b))
unfolding changed
changed-agrees ps a b = ground arith

extended-new :
    (n : ℕ) (before : Option BundleEvent) (a : BundleEvent) (run : List BundleEvent)
    → extended (add_event a (new_pass n a (why before a))) (last_of a run) run
      ≡ pass_of n before (a, run)
unfolding add_event
extended-new n before a run =
    ap (λ w. record (pass_of n before (a, run)) { work = w }) (summed-cons no_work a run)

extended-add :
    (p : ReportPass) (a last : BundleEvent) (run : List BundleEvent)
    → extended (add_event a p) last run ≡ extended p last (a ∷ run)
unfolding add_event
extended-add p a last run =
    ap (λ w. record p { last_eid = last.eid; work = w }) (summed-cons p.work a run)

group_same :
    (p : ReportPass) (done : List ReportPass) (a b : BundleEvent)
    → agrees a b ≡ true
    → group_event (seen (p ∷ done) a) b ≡ seen (add_event b p ∷ done) b
unfolding group_event boundary
group_same p done a b h = rw (changed-agrees (p ∷ done) a b, h) refl

group_new :
    (p : ReportPass) (done : List ReportPass) (a b : BundleEvent)
    → agrees a b ≡ false
    → group_event (seen (p ∷ done) a) b
      ≡ seen (add_event b (new_pass (length (p ∷ done) + 1) b (why (some a) b)) ∷ p ∷ done) b
unfolding group_event boundary
group_new p done a b h = rw (changed-agrees (p ∷ done) a b, h) refl

cut_same :
    (a b : BundleEvent) (events : List BundleEvent)
    → agrees a b ≡ true
    → cut_behind a (b ∷ events) ≡ (b ∷ (cut_behind b events).0, (cut_behind b events).1)
unfolding cut_behind
cut_same a b events h = rw h refl

cut_new :
    (a b : BundleEvent) (events : List BundleEvent)
    → agrees a b ≡ false
    → cut_behind a (b ∷ events) ≡ ([], (b, (cut_behind b events).0) ∷ (cut_behind b events).1)
unfolding cut_behind
cut_new a b events h = rw h refl

abbrev rest_of : ℕ → BundleEvent → ReportPass → List BundleEvent × List Run → List ReportPass
rest_of n a p (run, later) =
    extended p (last_of a run) run ∷ passes_of n (some (last_of a run)) later

extended-none : (p : ReportPass) (a : BundleEvent) → extended (add_event a p) a [] ≡ add_event a p
unfolding add_event
extended-none p a =
    ap (λ w. record p { last_eid = a.eid; work = w }) (summed-nil (add_work a p.work))

rest_same :
    (n : ℕ) (p : ReportPass) (a b : BundleEvent) (events : List BundleEvent)
    → agrees a b ≡ true
    → rest_of n b (add_event b p) (cut_behind b events) ≡ rest_of n a p (cut_behind a (b ∷ events))
rest_same n p a b events t = rw (cut_same a b events t) (
    ap (λ x. x ∷ passes_of n (some (last_of b (cut_behind b events).0)) (cut_behind b events).1)
      (extended-add p b (last_of b (cut_behind b events).0) (cut_behind b events).0))

rest_new :
    (n m : ℕ) (q : ReportPass) (a b : BundleEvent) (events : List BundleEvent)
    → m ≡ n + 1
    → agrees a b ≡ false
    → add_event a q
        ∷ rest_of m b (add_event b (new_pass n b (why (some a) b))) (cut_behind b events)
      ≡ rest_of n a (add_event a q) (cut_behind a (b ∷ events))
unfolding passes_of
rest_new n m q a b events e t =
    rw (e, cut_new a b events t)
      (ap₂
        (λ x y.
          x
          ∷ y
          ∷ passes_of (n + 1) (some (last_of b (cut_behind b events).0)) (cut_behind b events).1)
        (sym (extended-none q a)) (extended-new n (some a) b (cut_behind b events).0))

rest_none :
    (n : ℕ) (q : ReportPass) (a : BundleEvent)
    → add_event a q ∷ [] ≡ rest_of n a (add_event a q) (cut_behind a [])
unfolding cut_behind passes_of
rest_none n q a = ap (λ p. p ∷ []) (sym (extended-none q a))

grouped :
    (q : ReportPass) (done : List ReportPass) (a : BundleEvent) (events : List BundleEvent)
    → oldest_first (group_events (seen (add_event a q ∷ done) a) events).passes []
      ≡ oldest_first done (rest_of (length (q ∷ done) + 1) a (add_event a q) (cut_behind a events))
unfolding group_events passes_of
grouped q done a [] = ap (oldest_first done) (rest_none (length (q ∷ done) + 1) q a)
grouped q done a (b ∷ events) =
    let p = add_event a q in
    elim (Bool-cases (agrees a b)) [
      | inl t ↦
          ap (λ g. oldest_first (group_events g events).passes []) (group_same p done a b t)
          ∙ grouped p done b events
          ∙ ap (oldest_first done) (rest_same (length (q ∷ done) + 1) p a b events t)
      | inr t ↦
          let new = new_pass (length (p ∷ done) + 1) b (why (some a) b) in
          ap (λ g. oldest_first (group_events g events).passes []) (group_new p done a b t)
          ∙ grouped new (p ∷ done) b events
          ∙ ap (oldest_first done) (
              rest_new (length (q ∷ done) + 1) (length (new ∷ p ∷ done) + 1) q a b events
                (omega arith) t)
    ]

-- The passes are those of the runs of events, in order: a run ends where the next event is of another
-- kind, or is a dispatch with another pipeline or shaders, or a draw with other targets or another depth
-- target. Each has the numbers and texts of its run: the first and the last event, the reason by the
-- event before it, and the sums over its events.
pub reconstruct_passes-runs :
    (events : List BundleEvent) (resources : List BundleResource)
    → reconstruct_passes events resources ≡ map (touch resources) (passes_of 1 none (runs events))
unfolding reconstruct_passes group_events runs passes_of group_event boundary
reconstruct_passes-runs [] resources = refl
reconstruct_passes-runs (a ∷ events) resources = ap (map (touch resources)) (
    grouped (new_pass 1 a first_event) [] a events
    ∙ ap (λ p. p ∷ passes_of 2 (some (last_of a (cut_behind a events).0)) (cut_behind a events).1)
        (extended-new 1 none a (cut_behind a events).0))
