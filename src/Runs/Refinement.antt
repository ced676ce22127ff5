-- ===== src/Runs/Refinement.antt =====
-- Refinement: the tables of src/services/agent-runs.ts under the operator's controls of one run behave as
-- a machine whose state is the run's status and whether it has started.
use wordclaw.Shared.{
  ℕ, ◌≡◌, refl, sym, ap, ◌∙◌, Bool, true, false, ◌||◌, Option, none, some, List, [], ◌∷◌, arith,
  Bool-cases, inl, inr, ◌⊎◌, not, ◌&&◌, first-update, Option-cases, if◌then◌else◌, update, is_some,
  nat_eq, string_eq, any, by_branch, length, keep, ltb,
}
use mathlib.Core.Option.{none-ne-some}
use wordclaw.Runs.Status.{
  RunStatus, queued, planning, waiting_approval, running, succeeded, failed, cancelled,
  ControlAction, read_status, read_action, action_text, resolve_agent_run_transition, same_status,
  is_non_terminal, read_status-status_text, approve, pause, resume, cancel,
}
use wordclaw.Runs.Store.{Run, Runs, is_run, find_run, add_checkpoint, of_type, is_failed}
use wordclaw.Runs.Plan.{Flavor, flavor_of, plan_actions, start_work, retry_failed, skip_open}
use wordclaw.Runs.Control.{
  or_now, with_control, should_update, control_effects, apply_control, control_known, control_run,
}

-- The abstract state of a run.
abbrev pub View : Type 0
View = RunStatus × Bool

abbrev pub with_status : Bool → Option RunStatus → Option View
with_status started none = none
with_status started (some c) = some (c, started)

abbrev pub view_of : Option Run → Option View
view_of none = none
view_of (some r) = with_status (is_some r.started_at) (read_status r.status)

unfoldable pub view : ℕ → ℕ → Runs → Option View
view domain_id run_id s = view_of (find_run domain_id run_id s)

abbrev pub moved_to : View → Option RunStatus → View
moved_to v none = v
moved_to (c, started) (some next) = (next, started || same_status next running)

-- The abstract machine's step: a transition that is not allowed changes nothing.
abbrev pub abstract_step : View → ControlAction → View
abstract_step (c, started) action =
    moved_to (c, started) (resolve_agent_run_transition c action started)

pub action-known : (a : ControlAction) → read_action (action_text a) ≡ some a
unfolding read_action action_text
action-known approve = refl
action-known pause = refl
action-known resume = refl
action-known cancel = refl

plan_actions-runs :
    (now : ℕ) (r : Run) (f : Flavor) (s : Runs) → (plan_actions now r f s).runs ≡ s.runs
unfolding plan_actions add_checkpoint
plan_actions-runs now r f s = elim (Bool-cases (any (of_type f.action_type r) s.steps)) [
  | inl h ↦ rw h refl
  | inr h ↦ rw h refl
]

start_work-runs : (now : ℕ) (r : Run) (s : Runs) → (start_work now r s).runs ≡ s.runs
unfolding start_work
start_work-runs now r s = elim (Option-cases (flavor_of r.run_type)) [
  | inl e ↦ rw (e, start_work) refl
  | inr (f, e) ↦ rw (e, start_work) (plan_actions-runs now r f _)
]

retry_failed-runs : (now : ℕ) (r : Run) (s : Runs) → (retry_failed now r s).runs ≡ s.runs
unfolding retry_failed add_checkpoint
retry_failed-runs now r s = elim (Option-cases (flavor_of r.run_type)) [
  | inl e ↦ rw (e, retry_failed) refl
  | inr (f, e) ↦
      rw (e, retry_failed)
        (by_branch (λ (o : Runs). o.runs ≡ s.runs)
          (ltb 0 (length (keep (λ t. of_type f.action_type r t && is_failed t.status) s.steps)))
          refl refl)
]

pub control_effects-runs :
    (now : ℕ) (current next : RunStatus) (r : Run) (s : Runs)
    → (control_effects now current next r s).runs ≡ s.runs
unfolding control_effects skip_open
control_effects-runs now current running r s = start_work-runs now r s
control_effects-runs now failed queued r s = retry_failed-runs now r s
control_effects-runs now current cancelled r s = refl
control_effects-runs now current _ r s = refl

started_after :
    (now : ℕ) (b : Bool) (o : Option ℕ) → is_some (if b then or_now now o else o) ≡ (is_some o || b)
started_after now true none = refl
started_after now true (some t) = refl
started_after now false none = refl
started_after now false (some t) = refl

with_control-view :
    (now : ℕ) (next : RunStatus) (r : Run)
    → view_of (some (with_control now next r))
      ≡ some (next, is_some r.started_at || same_status next running)
unfolding with_control
with_control-view now next r =
    rw (read_status-status_text next)
      (ap (λ b. some (next, b)) (started_after now (same_status next running) r.started_at))

same_status-eq : (a b : RunStatus) → same_status a b ≡ true → a ≡ b
same_status-eq queued queued h = refl
same_status-eq planning planning h = refl
same_status-eq waiting_approval waiting_approval h = refl
same_status-eq running running h = refl
same_status-eq succeeded succeeded h = refl
same_status-eq failed failed h = refl
same_status-eq cancelled cancelled h = refl
same_status-eq _ _ h = ground arith

unwritten :
    (same now_running started ended again : Bool)
    → (not same || (now_running && not started) || ended || again) ≡ false
    → (same ≡ true) × ((started || now_running) ≡ started)
unwritten same now_running started ended again h = ground arith

-- Nothing is to be written where the machine stays.
unchanged :
    (current next : RunStatus) (r : Run)
    → should_update current next r ≡ false
    → moved_to (current, is_some r.started_at) (some next) ≡ (current, is_some r.started_at)
unfolding should_update
unchanged current next r h =
    let (same, started) =
      unwritten (same_status next current) (same_status next running) (is_some r.started_at)
        (same_status next cancelled && not (is_some r.completed_at))
        (is_non_terminal next && is_some r.completed_at) h in
    rw (same_status-eq next current same)
      (ap (λ b. (current, b)) (rw (same_status-eq next current same) at started))

apply_control-view :
    (now domain_id run_id : ℕ) (action : ControlAction) (current next : RunStatus) (r : Run)
    (s : Runs)
    → find_run domain_id run_id s ≡ some r
    → read_status r.status ≡ some current
    → view domain_id run_id (apply_control now domain_id run_id action current next r s).1
      ≡ some (moved_to (current, is_some r.started_at) (some next))
unfolding apply_control view find_run add_checkpoint
apply_control-view now domain_id run_id action current next r s found known =
    elim (Bool-cases (should_update current next r)) [
      | inl h ↦ rw h (
          rw
            (control_effects-runs now current next (with_control now next r)
              (record s { runs = update (is_run run_id domain_id) (with_control now next) s.runs }))
            (rw
              (first-update (is_run run_id domain_id) (with_control now next)
                (λ a. unfold with_control in refl) s.runs)
              (rw found (with_control-view now next r))))
      | inr h ↦ rw h (rw found (rw known (ap some (sym (unchanged current next r h)))))
    ]

known_view :
    (domain_id run_id : ℕ) (s : Runs) (v : View)
    → view domain_id run_id s ≡ some v
    → (r : Run) × (find_run domain_id run_id s ≡ some r)
      × (read_status r.status ≡ some v.0)
      × (is_some r.started_at ≡ v.1)
unfolding view
known_view domain_id run_id s v h = elim (Option-cases (find_run domain_id run_id s)) [
  | inl e ↦ absurd (none-ne-some v (sym (ap view_of e) ∙ h))
  | inr (r, e) ↦ elim (Option-cases (read_status r.status)) [
    | inl e' ↦
        absurd
          (none-ne-some v (sym (ap view_of e ∙ ap (with_status (is_some r.started_at)) e') ∙ h))
    | inr (c, e') ↦
        let same : some (c, is_some r.started_at) ≡ some v =
          sym (ap view_of e ∙ ap (with_status (is_some r.started_at)) e') ∙ h in
        (r, e, cc, cc)
  ]
]

control_known-view :
    (now domain_id run_id : ℕ) (action : ControlAction) (s : Runs) (v : View)
    → view domain_id run_id s ≡ some v
    → view domain_id run_id (control_known now domain_id run_id action s).1
      ≡ some (abstract_step v action)
unfolding control_known view
control_known-view now domain_id run_id action s v h =
    let (r, found, known, started) = known_view domain_id run_id s v h in
    by_transition r found known started (Option-cases (resolve_agent_run_transition v.0 action v.1))
  where
    by_transition :
        (r : Run)
        → (find_run domain_id run_id s ≡ some r)
        → (read_status r.status ≡ some v.0)
        → (is_some r.started_at ≡ v.1)
        → (resolve_agent_run_transition v.0 action v.1 ≡ none)
          ⊎ ((next : RunStatus) × (resolve_agent_run_transition v.0 action v.1 ≡ some next))
        → view domain_id run_id (control_known now domain_id run_id action s).1
          ≡ some (abstract_step v action)
    by_transition r found known started (inl e) =
        rw (found, control_known)
          (rw known (rw started (rw e (rw (found, view) (rw known (rw started refl))))))
    by_transition r found known started (inr (next, e)) =
        rw (found, control_known)
          (rw known (
            rw started (
              rw e (
                rw (sym started)
                  (apply_control-view now domain_id run_id action v.0 next r s found known)))))

-- A request: its time and the action's name.
abbrev pub Request : Type 0
Request = ℕ × ControlAction

-- The tables after the requests for one run, in their order.
unfoldable pub control_all : ℕ → ℕ → List Request → Runs → Runs
control_all domain_id run_id [] s = s
control_all domain_id run_id ((now, action) ∷ rs) s =
    control_all domain_id run_id rs (control_run now domain_id run_id (action_text action) s).1

unfoldable pub abstract_run : View → List Request → View
abstract_run v [] = v
abstract_run v ((now, action) ∷ rs) = abstract_run (abstract_step v action) rs

-- However a run is controlled, and at whatever times, its status and whether it has started are those
-- of the abstract machine after the same actions; a refused action is a step that changes nothing.
pub control_all-view :
    (domain_id run_id : ℕ) (rs : List Request) (s : Runs) (v : View)
    → view domain_id run_id s ≡ some v
    → view domain_id run_id (control_all domain_id run_id rs s) ≡ some (abstract_run v rs)
unfolding control_all abstract_run control_run
control_all-view domain_id run_id [] s v h = h
control_all-view domain_id run_id ((now, action) ∷ rs) s v h =
    control_all-view domain_id run_id rs _ (abstract_step v action)
      (rw (action-known action, control_run) (control_known-view now domain_id run_id action s v h))

-- A run that waits for its approval and has not started is running after two resumptions, at whatever
-- times and with no approval between them.
pub resumed_without_approval :
    (domain_id run_id t u : ℕ) (s : Runs)
    → view domain_id run_id s ≡ some (waiting_approval, false)
    → view domain_id run_id (control_all domain_id run_id ((t, resume) ∷ (u, resume) ∷ []) s)
      ≡ some (running, true)
resumed_without_approval domain_id run_id t u s h =
    control_all-view domain_id run_id _ s (waiting_approval, false) h
    ∙ (unfold abstract_run resolve_agent_run_transition in refl)
