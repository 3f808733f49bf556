-- ===== src/Supervisor/Operations/Acts.antt =====
-- What Start and Stop do: whom Stop signals, when Start starts a server, and what is left recorded.
use opencode_advance.Prelude.{
  ℤ, String, ◌≡◌, inl, inr, Bool, true, false, ◌&&◌, not, Option, none, some, ◌∷◌, refl,
  Option-cases, if◌then◌else◌,
}
use opencode_advance.Config.Sections.Types.{TemporalSection}
use opencode_advance.Supervisor.Types.{Metadata, Status, MetaFile, Signal, Act, Trace, World, Env}
use opencode_advance.Supervisor.Status.{evaluate_status}
use opencode_advance.Supervisor.Operations.{
  Outcome, failed_in, returned, remove_metadata, wait_stopped, send, forget, stopped_status,
  gone_status, after_kill, after_term, stop_process, stop_file, stop_from, stop,
}

-- A trace that acts satisfying `P` have extended.
pub data Extends (P : Act → Type 0) (old : Trace) : Trace → Type 0 where
  same : Extends P old old
  more : {a : Act} {trace : Trace} → P a → Extends P old trace → Extends P old (a ∷ trace)

-- A signal to the process `pid`, or a removal of the metadata.
abbrev pub IsOwn : ℤ → Act → Type 0
IsOwn pid (Act.signal p sig e) = p ≡ pid
IsOwn pid (Act.remove e) = Unit
IsOwn pid act = ⊥

-- The acts allowed to Stop, by the metadata file.
abbrev pub IsStopAct : MetaFile → Act → Type 0
IsStopAct (MetaFile.held meta) act = IsOwn meta.pid act
IsStopAct MetaFile.missing act = ⊥
IsStopAct (MetaFile.unreadable e) act = ⊥

-- What an operation did.
pub data Adds (P : Act → Type 0) (old : Trace) (o : Outcome) : Type 0 where
  adds : Extends P old o.world.trace → Adds P old o

module _ (env : Env) (P : Act → Type 0) (old : Trace) where
  remove_metadata-Adds :
      (w : World) (on_error : String → World → Outcome) (next : World → Outcome)
      → ((e : Option String) → P (Act.remove e))
      → Extends P old w.trace
      → ((e : String) (v : World) → Extends P old v.trace → Adds P old (on_error e v))
      → ((v : World) → Extends P old v.trace → Adds P old (next v))
      → Adds P old (remove_metadata env w on_error next)
  remove_metadata-Adds w on_error next p x f g = elim (Option-cases (env.remove_error w.trace)) [
    | inl e ↦ rw (e, remove_metadata) (g _ (Extends.more (p none) x))
    | inr (m, e) ↦ rw (e, remove_metadata) (f m _ (Extends.more (p (some m)) x))
  ]

  forget-Adds :
      (s after : Status) (w : World)
      → ((e : Option String) → P (Act.remove e))
      → Extends P old w.trace
      → Adds P old (forget env s w after)
  forget-Adds s after w p x =
      remove_metadata-Adds w (λ e v. failed_in s v e) (λ v. returned after v) p x
        (λ e v y. Adds.adds y) (λ v y. Adds.adds y)

  send-Adds :
      (pid : ℤ) (sig : Signal) (s : Status) (w : World) (next : World → Outcome)
      → ((e : Option String) → P (Act.signal pid sig e))
      → Extends P old w.trace
      → ((v : World) → Extends P old v.trace → Adds P old (next v))
      → Adds P old (send env pid sig s w next)
  send-Adds pid sig s w next p x f = elim (Option-cases (env.signal_error w.trace pid sig)) [
    | inl e ↦ rw (e, send) (f _ (Extends.more (p none) x))
    | inr (m, e) ↦ rw (e, send) (Adds.adds (Extends.more (p (some m)) x))
  ]

  if-Adds :
      (b : Bool) {x y : Outcome} → Adds P old x → Adds P old y → Adds P old (if b then x else y)
  if-Adds true p q = p
  if-Adds false p q = q

  trace-Adds : {o : Outcome} → Adds P old o → Extends P old o.world.trace
  trace-Adds (Adds.adds x) = x

module _ (env : Env) where
  module _ (meta : Metadata) (s : Status) (old : Trace) where
    abbrev Own : Act → Type 0
    Own = IsOwn meta.pid

    after_kill-Adds : (w : World) → Extends Own old w.trace → Adds Own old (after_kill env s w)
    after_kill-Adds w x = forget-Adds env Own old s (gone_status env s) w (λ e. tt) x

    after_term-Adds : (w : World) → Extends Own old w.trace → Adds Own old (after_term env meta s w)
    after_term-Adds w x =
        if-Adds env Own old (wait_stopped env env.polls 0 w.trace meta.pid)
          (forget-Adds env Own old s (gone_status env s) w (λ e. tt) x)
          (send-Adds env Own old meta.pid Signal.sigkill s w (after_kill env s) (λ e. refl) x
            after_kill-Adds)

  stop_process-Adds :
      (meta : Metadata) (s : Status) (w : World)
      → Adds (IsOwn meta.pid) w.trace (stop_process env meta s w)
  unfolding stop_process
  stop_process-Adds meta s w =
      let P = IsOwn meta.pid in
      if-Adds env P w.trace (not (env.pid_alive 0 w.trace meta.pid))
        (forget-Adds env P w.trace s (stopped_status env s) w (λ e. tt) Extends.same)
        (send-Adds env P w.trace meta.pid Signal.sigterm s w (after_term env meta s) (λ e. refl)
          Extends.same (after_term-Adds meta s w.trace))

  stop_file-Adds :
      (s : Status) (w : World) (file : MetaFile)
      → Adds (IsStopAct file) w.trace (stop_file env s w file)
  stop_file-Adds s w (MetaFile.unreadable e) = Adds.adds Extends.same
  stop_file-Adds s w MetaFile.missing = Adds.adds Extends.same
  stop_file-Adds s w (MetaFile.held meta) = stop_process-Adds meta s w

  stop_from-Adds :
      (w : World) (found : Option String × Status)
      → Adds (IsStopAct w.file) w.trace (stop_from env w found)
  stop_from-Adds w (some e, s) = Adds.adds Extends.same
  stop_from-Adds w (none, s) =
      if-Adds env (IsStopAct w.file) w.trace (not s.enabled) (Adds.adds Extends.same) (
        if-Adds env (IsStopAct w.file) w.trace (s.reachable && not s.managed)
          (Adds.adds Extends.same) (stop_file-Adds s w w.file))

  -- Whatever the machine answers: Stop starts nothing and writes no metadata. All it does is to
  -- signal the process group of the pid that the metadata file holds and to remove that file, and
  -- where the file is missing or cannot be read it does nothing at all.
  pub stop-Extends :
      (section : Option TemporalSection) (w : World)
      → Extends (IsStopAct w.file) w.trace (stop env section w).world.trace
  unfolding stop
  stop-Extends section w =
      trace-Adds env (IsStopAct w.file) w.trace (stop_from-Adds w (evaluate_status env section w))
