-- ===== src/Maintain/Execute/Harmless.antt =====
-- A plan built under a blocked gate runs nothing.
use opencode_advance.Prelude.{
  String, ◌≡◌, ◌≢◌, ◌⊎◌, inl, inr, none, some, arith, true, false, not, Option, List, [], ◌∷◌, refl,
  ap, All, All-mem, mem-All, Bool-cases, is_empty, ◌∙◌,
}
use opencode_advance.Maintain.Types.{is_blocked, Action, Options, Plan}
use opencode_advance.Maintain.Plan.{build}
use opencode_advance.Maintain.Planner.{Outcome, Plugins, Planner}
use opencode_advance.Maintain.Plan.Allowed.{gate_of, build-IsPlanned}
use opencode_advance.Maintain.Machine.{Machine, Log, Error}
use opencode_advance.Maintain.Execute.{execute_actions, execute_loaded, execute_plan}

abbrev Forbidden : Action → Type 0
Forbidden a = a.execute_allowed ≡ false

module _ (machine : Machine) where
  execute_actions-Forbidden :
      (plugins : Plugins) (root : String) (actions : List Action) (log : Log)
      → All Forbidden actions
      → (execute_actions machine plugins root actions log).1 ≡ log
  unfolding execute_actions
  execute_actions-Forbidden plugins root [] log f = refl
  execute_actions-Forbidden plugins root (action ∷ rest) log f = rw (f.0, execute_actions) refl

  -- Executing the plan leaves the log as it is, and returns an error unless there is nothing to do.
  abbrev pub RunsNothing : Options → Plan → Log → Option Error × Log → Type 0
  RunsNothing options plan log r =
      (r.1 ≡ log) × ((r.0 ≢ none) ⊎ (options.execute ≡ false) ⊎ (plan.actions ≡ []))

  fails : {e : Error} → some e ≢ none
  fails h = ground (arith, h)

  execute_actions-error :
      (plugins : Plugins) (root : String) (actions : List Action) (log : Log)
      → All Forbidden actions
      → ((execute_actions machine plugins root actions log).0 ≢ none) ⊎ (actions ≡ [])
  unfolding execute_actions
  execute_actions-error plugins root [] log f = inr refl
  execute_actions-error plugins root (action ∷ rest) log f = inl (rw (f.0, execute_actions) fails)

  execute_loaded-error :
      (loaded : Outcome Plugins) (root : String) (plan : Plan) (log : Log)
      → All Forbidden plan.actions
      → ((execute_loaded machine loaded root plan log).0 ≢ none) ⊎ (plan.actions ≡ [])
  execute_loaded-error (Outcome.failed e) root plan log f = inl fails
  execute_loaded-error (Outcome.ok plugins) root plan log f =
      execute_actions-error plugins root plan.actions log f

  execute_loaded-log :
      (loaded : Outcome Plugins) (root : String) (plan : Plan) (log : Log)
      → All Forbidden plan.actions
      → (execute_loaded machine loaded root plan log).1 ≡ log
  execute_loaded-log (Outcome.failed e) root plan log f = refl
  execute_loaded-log (Outcome.ok plugins) root plan log f =
      execute_actions-Forbidden plugins root plan.actions log f

  execute_plan-RunsNothing :
      (load : String → Outcome Plugins) (options : Options) (plan : Plan) (log : Log)
      → All Forbidden plan.actions
      → RunsNothing options plan log (execute_plan machine load options plan log)
  unfolding execute_plan
  execute_plan-RunsNothing load options plan log f = elim (Bool-cases options.execute) [
    | inr n ↦ rw n (refl, inr (inl refl))
    | inl x ↦ elim (Bool-cases (is_empty plan.blockers)) [
      | inr b ↦ rw x (rw b (refl, inl fails))
      | inl e ↦
          let loaded = load options.config_path in
          rw x (
            rw e (
              execute_loaded-log loaded options.project_root plan log f,
              elim (execute_loaded-error loaded options.project_root plan log f) [
                | inl failed ↦ inl failed
                | inr idle ↦ inr (inr idle)
              ],
            ))
    ]
  ]

  -- If the session gate is blocked when a plan is built, then executing that plan with any options
  -- leaves the log as it is: no command is run, and no file is looked at, made or written. It returns
  -- an error, unless execution was not asked for or the plan has no action. Loading the configuration,
  -- which is not in the log, is all that may happen before.
  pub blocked-build-execute_plan :
      (normalize : String → String) (getwd : Option String) (planner : Planner)
      (built_with options : Options) (load : String → Outcome Plugins) (log : Log)
      → is_blocked (gate_of normalize getwd planner built_with).status ≡ true
      → RunsNothing options
          (build normalize getwd planner built_with).0
          log
          (execute_plan machine load options (build normalize getwd planner built_with).0 log)
  blocked-build-execute_plan normalize getwd planner built_with options load log blocked =
      let plan = (build normalize getwd planner built_with).0 in
      execute_plan-RunsNothing load options plan log (
        mem-All Forbidden plan.actions λ a m.
          (All-mem _ plan.actions (build-IsPlanned normalize getwd planner built_with).justified
            m).allowed
          ∙ ap not blocked)
