-- ===== src/Supervisor/Operations/Dead.antt =====
-- The state `stale` of EvaluateStatus: the metadata file names a process that is not alive.
use opencode_advance.Prelude.{
  String, ◌≡◌, Bool, true, false, ◌&&◌, not, Option, none, some, refl, arith, if◌then◌else◌,
}
use opencode_advance.Config.Sections.Types.{TemporalSection, enabled_or_absent}
use opencode_advance.Supervisor.Types.{State, Metadata, Status, MetaFile, World, Env}
use opencode_advance.Supervisor.Status.{
  evaluate_status, evaluate_file, configured_status, state_of, probe, managed_status,
}
use opencode_advance.Supervisor.Operations.{is_stale}

module _ (env : Env) where
  -- The metadata file names a process that is not alive.
  pub data IsDead (w : World) : Type 0 where
    dead :
        (meta : Metadata)
        → w.file ≡ MetaFile.held meta
        → env.alive w.trace meta.pid ≡ false
        → IsDead w

  if-is_stale :
      (b : Bool) (x y : State)
      → is_stale env x ≡ false
      → is_stale env y ≡ false
      → is_stale env (if b then x else y) ≡ false
  if-is_stale true x y p q = p
  if-is_stale false x y p q = q

  state_of-live : (s : Status) → is_stale env (state_of env s) ≡ false
  state_of-live s =
      if-is_stale (s.managed && (s.running && s.healthy)) _ _ refl
        (if-is_stale (s.managed && s.running) _ _ refl (if-is_stale s.reachable _ _ refl refl))

  -- Which branch of an `if` gave the state `stale`.
  else-stale :
      (b : Bool) (x y : Option String × Status)
      → is_stale env x.1.state ≡ false
      → is_stale env (if b then x else y).1.state ≡ true
      → is_stale env y.1.state ≡ true
  else-stale true x y p q = absurd (ground (arith, p, q))
  else-stale false x y p q = q

  not-stale :
      (b : Bool) (x y : Option String × Status)
      → is_stale env y.1.state ≡ false
      → is_stale env (if not b then x else y).1.state ≡ true
      → b ≡ false
  not-stale true x y p q = absurd (ground (arith, p, q))
  not-stale false x y p q = refl

  evaluate_file-IsDead :
      (s : Status) (w : World) (file : MetaFile)
      → w.file ≡ file
      → is_stale env (evaluate_file env w.trace s file).1.state ≡ true
      → IsDead w
  evaluate_file-IsDead s w (MetaFile.unreadable m) f x = absurd (ground (arith, x))
  evaluate_file-IsDead s w MetaFile.missing f x = absurd (
      ground (
        arith,
        x,
        state_of-live (record s {
          reachable = env.reachable 0 w.trace s.address;
          healthy = env.healthy w.trace;
        }),
      ))
  evaluate_file-IsDead s w (MetaFile.held meta) f x =
      let t = managed_status env meta (env.alive w.trace meta.pid) s in
      IsDead.dead meta f (
        not-stale (env.alive w.trace meta.pid) (none, record t { state = State.stale })
          (none, probe env w.trace t)
          (state_of-live (record t {
            reachable = env.reachable 0 w.trace s.address;
            healthy = env.healthy w.trace;
          }))
          x)

  pub evaluate_status-IsDead :
      (section : Option TemporalSection) (w : World)
      → is_stale env (evaluate_status env section w).1.state ≡ true
      → IsDead w
  unfolding evaluate_status
  evaluate_status-IsDead none w x = absurd (ground (arith, x))
  evaluate_status-IsDead (some t) w x =
      evaluate_file-IsDead (configured_status env t) w w.file refl (
        else-stale (not (enabled_or_absent t.enabled)) (none, configured_status env t)
          (evaluate_file env w.trace (configured_status env t) w.file) refl x)
