-- ===== src/Runtime/Execution/Zoomed.antt =====
-- Calls on a part of a run's state leave the other parts as they are.
use region_sensitivity.Outcome.{Exception, Result, ok, err}
use region_sensitivity.Outcome.Exec.{Exec, Post, Ensures}
use region_sensitivity.Runtime.Environment.{Environment, Run}
use region_sensitivity.Runtime.Run.{zoom, on_writer, on_caller, on_planner}

-- a call on a part of the state
pub zoom_rule :
    {S T A : Type 0} {P : A → S → Type 0} {Q : Exception → S → Type 0} (part : S → T)
    (set : T → S → S) (m : Exec T A) (s : S)
    → Ensures (λ a t. P a (set t s)) (λ e t. Q e (set t s)) m (part s)
    → Ensures P Q (zoom part set m) s
unfolding zoom
zoom_rule {P} {Q} part set m s h = record { holds = go (m (part s)).0 (m (part s)).1 h.holds }
  where
    go :
        (r : Result _) (t : _)
        → Post (λ a u. P a (set u s)) (λ e u. Q e (set u s)) (r, t)
        → Post P Q (r, set t s)
    go (ok a) t h = h
    go (err e) t h = h

module _ (env : Environment) {A : Type 0} {P : A → Run env → Type 0}
    {Q : Exception → Run env → Type 0} where
  pub on_writer_rule :
      (m : Exec env.WriterState A) (s : Run env)
      → Ensures
          (λ a d. P a (record s { writer = d }))
          (λ e d. Q e (record s { writer = d }))
          m
          s.writer
      → Ensures P Q (on_writer env m) s
  unfolding on_writer
  on_writer_rule m s h = zoom_rule _ (λ d s. record s { writer = d }) m s h

  pub on_planner_rule :
      (m : Exec env.PlannerState A) (s : Run env)
      → Ensures
          (λ a b. P a (record s { planner_state = b }))
          (λ e b. Q e (record s { planner_state = b }))
          m
          s.planner_state
      → Ensures P Q (on_planner env m) s
  unfolding on_planner
  on_planner_rule m s h = zoom_rule _ (λ b s. record s { planner_state = b }) m s h

  pub on_caller_rule :
      (m : Exec env.CallerState A) (s : Run env)
      → Ensures
          (λ a c. P a (record s { caller = c }))
          (λ e c. Q e (record s { caller = c }))
          m
          s.caller
      → Ensures P Q (on_caller env m) s
  unfolding on_caller
  on_caller_rule m s h = zoom_rule _ (λ c s. record s { caller = c }) m s h
