-- ===== src/Runs/Timing.antt =====
-- The times on the rows of src/services/agent-runs.ts agree with their statuses.
use wordclaw.Shared.{
  ℕ, String, ◌≡◌, refl, Bool, true, not, ◌&&◌, Option, none, some, [], ◌∷◌, inl, inr, Bool-cases,
  Option-cases, All, All-append, ◌++◌, non_empty, by_branch, trim, All-update, update, is_some,
  nat_eq, string_eq,
}
use wordclaw.Shared.Json.{Json, Fields}
use wordclaw.Runs.Status.{
  RunStatus, running, succeeded, failed, cancelled, ControlAction, read_status, read_action,
  resolve_agent_run_transition, read_status-status_text,
}
use wordclaw.Runs.Store.{Definition, Run, Runs, is_run, find_run, add_checkpoint}
use wordclaw.Runs.Plan.{flavor_of}
use wordclaw.Runs.Control.{
  or_now, with_control, should_update, apply_control, control_known, control_run,
}
use wordclaw.Runs.Create.{
  CreateInput, find_definition, insert_run, create_from, create_run, with_definition, new_run,
  run_metadata, initial_status, CreateResult,
}
use wordclaw.Runs.Refinement.{control_effects-runs}

-- A run under way has a start, a cancelled run an end, and a run that has not ended no end.
abbrev pub times_fit : RunStatus → Option ℕ → Option ℕ → Bool
times_fit running start finish = is_some start && not (is_some finish)
times_fit cancelled start finish = is_some finish
times_fit succeeded start finish = true
times_fit failed start finish = true
times_fit _ start finish = not (is_some finish)

abbrev pub fits : Option RunStatus → Run → Bool
fits none r = true
fits (some c) r = times_fit c r.started_at r.completed_at

abbrev pub IsTimed : Run → Type 0
IsTimed r = fits (read_status r.status) r ≡ true

is_some-or_now : (now : ℕ) (o : Option ℕ) → is_some (or_now now o) ≡ true
is_some-or_now now none = refl
is_some-or_now now (some t) = refl

with_control-IsTimed : (now : ℕ) (next : RunStatus) (r : Run) → IsTimed (with_control now next r)
unfolding with_control
with_control-IsTimed now running r =
    rw (read_status-status_text running) (rw (is_some-or_now now r.started_at) refl)
with_control-IsTimed now cancelled r =
    rw (read_status-status_text cancelled) (is_some-or_now now r.completed_at)
with_control-IsTimed now next r = rw (read_status-status_text next) refl

apply_control-IsTimed :
    (now domain_id run_id : ℕ) (action : ControlAction) (current next : RunStatus) (r : Run)
    (s : Runs)
    → All IsTimed s.runs
    → All IsTimed (apply_control now domain_id run_id action current next r s).1.runs
unfolding apply_control add_checkpoint
apply_control-IsTimed now domain_id run_id action current next r s h =
    elim (Bool-cases (should_update current next r)) [
      | inl e ↦ rw e (
          rw
            (control_effects-runs now current next (with_control now next r)
              (record s { runs = update (is_run run_id domain_id) (with_control now next) s.runs }))
            (All-update {P = IsTimed} {Q = IsTimed} (is_run run_id domain_id)
              (with_control now next) (λ a _ _. with_control-IsTimed now next a) (λ a t _. t) s.runs
              h))
      | inr e ↦ rw e h
    ]

control_known-IsTimed :
    (now domain_id run_id : ℕ) (action : ControlAction) (s : Runs)
    → All IsTimed s.runs
    → All IsTimed (control_known now domain_id run_id action s).1.runs
unfolding control_known
control_known-IsTimed now domain_id run_id action s h =
    elim (Option-cases (find_run domain_id run_id s)) [
      | inl e ↦ rw (e, control_known) h
      | inr (r, e) ↦ elim (Option-cases (read_status r.status)) [
        | inl e' ↦ rw (e, control_known) (rw e' h)
        | inr (c, e') ↦
            elim (Option-cases (resolve_agent_run_transition c action (is_some r.started_at))) [
              | inl f ↦ rw (e, control_known) (rw e' (rw f h))
              | inr (next, f) ↦
                  rw (e, control_known)
                    (rw e' (rw f (apply_control-IsTimed now domain_id run_id action c next r s h)))
            ]
      ]
    ]

control_run-IsTimed :
    (now domain_id run_id : ℕ) (action : String) (s : Runs)
    → All IsTimed s.runs
    → All IsTimed (control_run now domain_id run_id action s).1.runs
unfolding control_run
control_run-IsTimed now domain_id run_id action s h = elim (Option-cases (read_action action)) [
  | inl e ↦ rw (e, control_run) h
  | inr (a, e) ↦ rw (e, control_run) (control_known-IsTimed now domain_id run_id a s h)
]

module _ (snapshot : String → ℕ → Fields → Json) where
  insert_run-runs :
      (now : ℕ) (metadata : Fields) (r : Run) (s : Runs)
      → (insert_run snapshot now metadata r s).runs ≡ s.runs ++ r ∷ []
  unfolding insert_run add_checkpoint
  insert_run-runs now metadata r s = elim (Option-cases (flavor_of r.run_type)) [
    | inl e ↦ rw (e, insert_run) refl
    | inr (f, e) ↦ rw (e, insert_run) refl
  ]

  -- A new run waits, without times.
  new_run-IsTimed :
      (now domain_id : ℕ) (input : CreateInput) (d : Option Definition) (id : ℕ)
      → IsTimed (new_run now domain_id input d id)
  unfolding new_run
  new_run-IsTimed now domain_id input d id =
      rw (read_status-status_text (initial_status input))
        (by_branch (λ c. times_fit c none none ≡ true) input.require_approval refl refl)

  create_from-IsTimed :
      (now domain_id : ℕ) (input : CreateInput) (d : Option Definition) (s : Runs)
      → All IsTimed s.runs
      → All IsTimed (create_from snapshot now domain_id input d s).1.runs
  unfolding create_from
  create_from-IsTimed now domain_id input d s h =
      rw (insert_run-runs now (run_metadata input d) (new_run now domain_id input d s.next_run) s)
        (All-append IsTimed s.runs _ h (new_run-IsTimed now domain_id input d s.next_run, tt))

  create_run-IsTimed :
      (now domain_id : ℕ) (input : CreateInput) (s : Runs)
      → All IsTimed s.runs
      → All IsTimed (create_run snapshot now domain_id input s).1.runs
  unfolding create_run with_definition
  create_run-IsTimed now domain_id input s h =
      by_branch HoldsAfter (non_empty (trim input.goal)) (by_definition input.definition_id) h
    where
      HoldsAfter : CreateResult × Runs → Type 0
      HoldsAfter o = All IsTimed o.1.runs

      by_definition : (o : Option ℕ) → HoldsAfter (with_definition snapshot now domain_id input o s)
      by_definition none =
          unfold with_definition in create_from-IsTimed now domain_id input none s h
      by_definition (some id) = elim (Option-cases (find_definition domain_id id s)) [
        | inl e ↦ rw (e, with_definition) h
        | inr (d, e) ↦
            rw (e, with_definition)
              (by_branch HoldsAfter d.active (create_from-IsTimed now domain_id input (some d) s h)
                h)
      ]

  -- The tables that creations and controls reach.
  pub data Reachable : Runs → Type 0 where
    reach_start : (s : Runs) → s.runs ≡ [] → Reachable s
    reach_create :
        (now domain_id : ℕ) (input : CreateInput) (s : Runs)
        → Reachable s
        → Reachable (create_run snapshot now domain_id input s).1
    reach_control :
        (now domain_id run_id : ℕ) (action : String) (s : Runs)
        → Reachable s
        → Reachable (control_run now domain_id run_id action s).1

  -- In tables reached by creations and controls of whatever runs, from tables without runs, a running run has a start and no end, a cancelled run has an end, and a run that waits has no end.
  pub Reachable-IsTimed : (s : Runs) → Reachable s → All IsTimed s.runs
  Reachable-IsTimed s (reach_start _ e) = rw e tt
  Reachable-IsTimed _ (reach_create now domain_id input s r) =
      create_run-IsTimed now domain_id input s (Reachable-IsTimed s r)
  Reachable-IsTimed _ (reach_control now domain_id run_id action s r) =
      control_run-IsTimed now domain_id run_id action s (Reachable-IsTimed s r)
