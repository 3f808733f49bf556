-- ===== src/Supervisor/Operations/Clears.antt =====
-- What a successful Stop leaves.
use opencode_advance.Prelude.{
  ℤ, String, ◌≡◌, inl, inr, Bool, true, false, ◌&&◌, not, Option, none, some, refl, ◌∙◌, arith,
  Option-cases, if◌then◌else◌,
}
use opencode_advance.Config.Sections.Types.{TemporalSection, enabled_or_absent}
use opencode_advance.Supervisor.Types.{
  State, Metadata, Status, MetaFile, Signal, Act, World, Env, Trace,
}
use opencode_advance.Supervisor.Status.{evaluate_status, evaluate_file, configured_status}
use opencode_advance.Supervisor.Operations.{
  Outcome, did, remove_metadata, wait_stopped, send, forget, stopped_status, gone_status,
  after_kill, after_term, stop_process, stop_file, stop_from, stop,
}

-- Either an error, or no metadata and the state `stopped`.
pub data Clears (o : Outcome) : Type 0 where
  failed : (e : String) → o.failure ≡ some e → Clears o
  cleared : o.world.file ≡ MetaFile.missing → o.status.state ≡ State.stopped → Clears o

if-Clears : (b : Bool) {x y : Outcome} → Clears x → Clears y → Clears (if b then x else y)
if-Clears true p q = p
if-Clears false p q = q

else-Clears : (b : Bool) (x y : Outcome) → b ≡ true → Clears y → Clears (if not b then x else y)
else-Clears true x y p q = q
else-Clears false x y p q = absurd (ground (arith, p))

success-Clears :
    (o : Outcome)
    → Clears o
    → o.failure ≡ none
    → (o.world.file ≡ MetaFile.missing) × (o.status.state ≡ State.stopped)
success-Clears o (Clears.failed e p) q = absurd (ground (arith, p, q))
success-Clears o (Clears.cleared p s) q = (p, s)

module _ (env : Env) where
  forget-Clears :
      (s after : Status) (w : World) → after.state ≡ State.stopped → Clears (forget env s w after)
  forget-Clears s after w p = elim (Option-cases (env.remove_error w.trace)) [
    | inl e ↦ rw (e, forget, remove_metadata) (Clears.cleared refl p)
    | inr (m, e) ↦ rw (e, forget, remove_metadata) (Clears.failed m refl)
  ]

  send-Clears :
      (pid : ℤ) (sig : Signal) (s : Status) (w : World) (next : World → Outcome)
      → ((v : World) → Clears (next v))
      → Clears (send env pid sig s w next)
  send-Clears pid sig s w next f = elim (Option-cases (env.signal_error w.trace pid sig)) [
    | inl e ↦ rw (e, send) (f (did (Act.signal pid sig none) w))
    | inr (m, e) ↦ rw (e, send) (Clears.failed m refl)
  ]

  after_term-Clears : (meta : Metadata) (s : Status) (w : World) → Clears (after_term env meta s w)
  after_term-Clears meta s w =
      if-Clears (wait_stopped env env.polls 0 w.trace meta.pid)
        (forget-Clears s (gone_status env s) w refl)
        (send-Clears meta.pid Signal.sigkill s w (after_kill env s)
          λ v. forget-Clears s (gone_status env s) v refl)

  stop_process-Clears :
      (meta : Metadata) (s : Status) (w : World) → Clears (stop_process env meta s w)
  unfolding stop_process
  stop_process-Clears meta s w =
      if-Clears (not (env.pid_alive 0 w.trace meta.pid))
        (forget-Clears s (stopped_status env s) w refl)
        (send-Clears meta.pid Signal.sigterm s w (after_term env meta s) (after_term-Clears meta s))

  stop_file-Clears :
      (s : Status) (w : World) (file : MetaFile) → w.file ≡ file → Clears (stop_file env s w file)
  stop_file-Clears s w (MetaFile.unreadable e) p = Clears.failed e refl
  stop_file-Clears s w MetaFile.missing p = Clears.cleared p refl
  stop_file-Clears s w (MetaFile.held meta) p = stop_process-Clears meta s w

  stop_from-Clears :
      (w : World) (found : Option String × Status)
      → found.1.enabled ≡ true
      → Clears (stop_from env w found)
  stop_from-Clears w (some e, s) p = Clears.failed e refl
  stop_from-Clears w (none, s) p = else-Clears s.enabled _ _ p (
      if-Clears (s.reachable && not s.managed) (Clears.failed _ refl)
        (stop_file-Clears s w w.file refl))

  if-enabled :
      (c b : Bool) (x y : Option String × Status)
      → x.1.enabled ≡ c
      → y.1.enabled ≡ c
      → (if b then x else y).1.enabled ≡ c
  if-enabled c true x y p q = p
  if-enabled c false x y p q = q

  enabled-evaluate_file :
      (trace : Trace) (s : Status) (file : MetaFile)
      → (evaluate_file env trace s file).1.enabled ≡ s.enabled
  enabled-evaluate_file trace s (MetaFile.unreadable e) = refl
  enabled-evaluate_file trace s MetaFile.missing = refl
  enabled-evaluate_file trace s (MetaFile.held meta) =
      if-enabled s.enabled (not (env.alive trace meta.pid)) _ _ refl refl

  enabled-evaluate_status :
      (t : TemporalSection) (w : World)
      → (evaluate_status env (some t) w).1.enabled ≡ enabled_or_absent t.enabled
  unfolding evaluate_status
  enabled-evaluate_status t w =
      if-enabled (enabled_or_absent t.enabled) (not (enabled_or_absent t.enabled)) _ _ refl
        (enabled-evaluate_file w.trace (configured_status env t) w.file)

  -- Where the section is enabled and Stop returns no error, no metadata file is left and the state
  -- that it returns is `stopped`.
  pub success-stop :
      (t : TemporalSection) (w : World)
      → enabled_or_absent t.enabled ≡ true
      → (stop env (some t) w).failure ≡ none
      → ((stop env (some t) w).world.file ≡ MetaFile.missing)
        × ((stop env (some t) w).status.state ≡ State.stopped)
  unfolding stop
  success-stop t w e ok =
      success-Clears (stop env (some t) w)
        (stop_from-Clears w (evaluate_status env (some t) w) (enabled-evaluate_status t w ∙ e)) ok
