-- ===== src/Supervisor/Operations/Starts.antt =====
-- What Start does, on each of its ways out.
use opencode_advance.Prelude.{
  ℤ, String, ◌≡◌, inl, inr, Bool, true, false, ◌&&◌, not, Option, none, some, ◌∷◌, refl, Bool-cases,
  Option-cases, if◌then◌else◌,
}
use opencode_advance.Config.Sections.Types.{TemporalSection, enabled_or_absent}
use opencode_advance.Supervisor.Types.{
  Metadata, Status, MetaFile, Process, DetectResult, Result, Act, Trace, World, Env,
}
use opencode_advance.Supervisor.Status.{evaluate_status}
use opencode_advance.Supervisor.Operations.{
  Outcome, did, remove_metadata, wait_reachable, is_loopback_host, server_args, metadata_of,
  record_process, after_start, launch, start_at, is_stale, start_from, start,
}
use opencode_advance.Supervisor.Operations.Dead.{IsDead, evaluate_status-IsDead}

module _ (env : Env) where
  -- The world in which Start launches the server: the one it found, less stale metadata.
  pub data IsReady (w v : World) : Type 0 where
    as_found : v ≡ w → IsReady w v
    cleared :
        IsDead env w
        → v ≡ record { file = MetaFile.missing; trace = Act.remove none ∷ w.trace }
        → IsReady w v

  -- A launch on a loopback host, with the answer.
  pub data Launches (w : World) (r : Result Process) : World → Type 0 where
    launches :
        (v : World) (s : Status) (host : String) (port : ℤ) (cli : DetectResult)
        → IsReady w v
        → is_loopback_host env host ≡ true
        → Launches w r (did (Act.start cli.path (server_args env s host port) r) v)

  -- The ways in which Start can end.
  pub data Starts (w : World) (o : Outcome) : Type 0 where
    idle : o.world ≡ w → Starts w o
    stuck :
        (e : String)
        → IsDead env w
        → o.failure ≡ some e
        → o.world ≡ did (Act.remove (some e)) w
        → Starts w o
    refused : (v : World) (e : String) → IsReady w v → o.failure ≡ some e → o.world ≡ v → Starts w o
    not_started :
        (v : World) (e : String)
        → Launches w (Result.fail e) v
        → o.failure ≡ some e
        → o.world ≡ v
        → Starts w o
    killed :
        (v : World) (proc : Process) (e address : String)
        → Launches w (Result.done proc) v
        → wait_reachable env env.polls 1 v.trace address ≡ false
        → o.failure ≡ some e
        → o.world ≡ did (Act.kill_group proc.group) v
        → Starts w o
    unrecorded :
        (v : World) (proc : Process) (meta : Metadata) (e : String)
        → Launches w (Result.done proc) v
        → meta.pid ≡ proc.pid
        → o.failure ≡ some e
        → o.world ≡ did (Act.write meta (some e)) v
        → Starts w o
    recorded :
        (v : World) (proc : Process) (meta : Metadata)
        → Launches w (Result.done proc) v
        → meta.pid ≡ proc.pid
        → wait_reachable env env.polls 1 v.trace meta.address ≡ true
        → o.failure ≡ none
        → o.world ≡ record { file = MetaFile.held meta; trace = Act.write meta none ∷ v.trace }
        → Starts w o

  if-Starts :
      (w : World) (b : Bool) {x y : Outcome}
      → (b ≡ true → Starts w x)
      → (b ≡ false → Starts w y)
      → Starts w (if b then x else y)
  if-Starts w true f g = f refl
  if-Starts w false f g = g refl

  if-fst :
      (b : Bool) (x y : Option String × Status)
      → x.0 ≡ none
      → y.0 ≡ none
      → (if b then x else y).0 ≡ none
  if-fst true x y p q = p
  if-fst false x y p q = q

  -- Metadata that can be read give no error.
  evaluate_held :
      (section : Option TemporalSection) (meta : Metadata) (trace : Trace)
      → (evaluate_status env section (record { file = MetaFile.held meta; trace = trace })).0 ≡ none
  unfolding evaluate_status
  evaluate_held none meta trace = refl
  evaluate_held (some t) meta trace =
      if-fst (not (enabled_or_absent t.enabled)) _ _ refl
        (if-fst (not (env.alive trace meta.pid)) _ _ refl refl)

  module _ (section : Option TemporalSection) (w : World) where
    record_process-Starts :
        (s : Status) (host : String) (port : ℤ) (cli : DetectResult) (v : World) (proc : Process)
        → Launches w (Result.done proc) v
        → wait_reachable env env.polls 1 v.trace s.address ≡ true
        → Starts w (record_process env section s (metadata_of env s host port cli proc) v)
    record_process-Starts s host port cli v proc x r =
        let meta = metadata_of env s host port cli proc in
        elim (Option-cases (env.write_error v.trace meta)) [
          | inl e ↦
              rw (e, record_process)
                (Starts.recorded v proc meta x refl r (evaluate_held section meta _) refl)
          | inr (m, e) ↦ rw (e, record_process) (Starts.unrecorded v proc meta m x refl refl refl)
        ]

    after_start-Starts :
        (s : Status) (host : String) (port : ℤ) (cli : DetectResult) (v : World)
        (r : Result Process)
        → IsReady w v
        → is_loopback_host env host ≡ true
        → Starts w (after_start env section s host port cli v r)
    after_start-Starts s host port cli v (Result.fail e) x l =
        Starts.not_started _ e (Launches.launches v s host port cli x l) refl refl
    after_start-Starts s host port cli v (Result.done proc) x l =
        let y = Launches.launches v s host port cli x l in
        elim (Bool-cases (
          wait_reachable env env.polls 1
            (did (Act.start cli.path (server_args env s host port) (Result.done proc)) v).trace
            s.address)) [
              | inl e ↦ rw (e, after_start) (record_process-Starts s host port cli _ proc y e)
              | inr e ↦ rw (e, after_start) (Starts.killed _ proc _ s.address y e refl refl)
            ]

    launch-Starts :
        (s : Status) (host : String) (port : ℤ) (v : World) (r : Result DetectResult)
        → IsReady w v
        → is_loopback_host env host ≡ true
        → Starts w (launch env section s host port v r)
    launch-Starts s host port v (Result.fail e) x l = Starts.refused v e x refl refl
    launch-Starts s host port v (Result.done cli) x l = after_start-Starts s host port cli v _ x l

    start_at-Starts :
        (s : Status) (v : World) (r : Result (String × ℤ))
        → IsReady w v
        → Starts w (start_at env section s v r)
    start_at-Starts s v (Result.fail e) x = Starts.refused v e x refl refl
    start_at-Starts s v (Result.done (host, port)) x =
        elim (Bool-cases (is_loopback_host env host)) [
          | inl e ↦ rw (e, start_at) (launch-Starts s host port v (env.detect v.trace) x e)
          | inr e ↦ rw (e, start_at) (Starts.refused v _ x refl refl)
        ]

    clear-Starts :
        (s : Status)
        → IsDead env w
        → Starts w (
            remove_metadata env w
              (λ e v. record { failure = some e; status = s; world = v })
              (λ v. start_at env section s v (env.split_host_port s.address)))
    clear-Starts s d = elim (Option-cases (env.remove_error w.trace)) [
      | inl e ↦ rw (e, remove_metadata) (start_at-Starts s _ _ (IsReady.cleared d refl))
      | inr (m, e) ↦ rw (e, remove_metadata) (Starts.stuck m d refl refl)
    ]

    start_from-Starts :
        (found : Option String × Status)
        → (is_stale env found.1.state ≡ true → IsDead env w)
        → Starts w (start_from env section w found)
    start_from-Starts (some e, s) d = Starts.idle refl
    start_from-Starts (none, s) d =
        if-Starts w (not s.enabled) (λ x. Starts.idle refl)
          λ x.
            if-Starts w (s.managed && s.running) (λ y. Starts.idle refl)
              λ y.
                if-Starts w (is_stale env s.state) (λ z. clear-Starts s (d z))
                  λ z.
                    if-Starts w (s.reachable && not s.managed) (λ u. Starts.idle refl)
                      λ u. start_at-Starts s w _ (IsReady.as_found refl)

    -- Start ends in one of seven ways. It does nothing; or it cannot remove metadata of a dead
    -- process; or, with such metadata removed where they were found, it fails without a launch, or
    -- launches the server on a loopback host. Then the launch fails; or the server is not reachable
    -- and its group is signalled; or the metadata cannot be written; or Start succeeds, the server
    -- was seen reachable at the recorded address, and the file holds metadata with its pid.
    pub start-Starts : Starts w (start env section w)
    unfolding start
    start-Starts =
        start_from-Starts (evaluate_status env section w) (evaluate_status-IsDead env section w)
