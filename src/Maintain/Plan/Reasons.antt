-- ===== src/Maintain/Plan/Reasons.antt =====
-- The reasons of the actions of a plan, and the rounds of the loops that add them.
use opencode_advance.Prelude.{
  String, ◌≡◌, ◌≢◌, ◌⊎◌, inl, inr, Bool, true, false, not, List, [], ◌∷◌, ◌++◌, arith, refl, ap,
  Memᴰ, mem-append_left, mem-append_last, All, All-mem, mem-All, All-append, eq_iff, if◌then◌else◌,
}
use opencode_advance.Maintain.Types.{
  is_blocked, GateReport, Action, PluginDrift, MergeCandidate, CleanupCandidate, Plan,
}
use opencode_advance.Maintain.Cleanup.{WorktreeInfo, is_eligible}
use opencode_advance.Maintain.Plan.{
  merge_candidate, merge_action, can_merge, add_merge, add_merges, add_cleanup, cleanup_candidate,
  cleanup_action, add_cleanups, rebuild_action, is_fresh, add_drift,
}
use opencode_advance.Maintain.Planner.{AdvanceArchiveCandidate, DriftReport}

-- The candidate, or the drift, that an action is for.
abbrev pub Reason : List MergeCandidate → List CleanupCandidate → List PluginDrift → Action → Type 0
Reason ms cs ds a =
    ((c : MergeCandidate) × Memᴰ c ms
      × (c.eligible ≡ true)
      × (a.kind ≡ "merge")
      × (a.branch ≡ c.branch))
    ⊎ ((c : CleanupCandidate) × Memᴰ c cs
        × (c.eligible ≡ true)
        × (a.kind ≡ "cleanup")
        × (a.branch ≡ c.branch)
        × (a.path ≡ c.path))
    ⊎ ((d : PluginDrift) × Memᴰ d ds
        × (d.status ≢ "fresh")
        × (a.kind ≡ "rebuild")
        × (a.target ≡ d.plugin))

-- An action with a reason; it may be executed unless the gate is blocked.
pub record IsJustified (gate : GateReport) (ms : List MergeCandidate) (cs : List CleanupCandidate)
    (ds : List PluginDrift) (a : Action) : Type 0 where
  pub allowed : a.execute_allowed ≡ not (is_blocked gate.status)
  pub blocked_by : a.blocked_by ≡ gate.blockers
  pub reason : Reason ms cs ds a

pub record IsPlanned (gate : GateReport) (plan : Plan) : Type 0 where
  pub same_gate : plan.session_gate ≡ gate
  pub blockers : plan.blockers ≡ (if is_blocked gate.status then gate.blockers else [])
  pub justified :
      All
        (IsJustified gate plan.merge_candidates plan.cleanup_candidates plan.plugin_drift)
        plan.actions

module _ (gate : GateReport) where
  -- More candidates and drifts keep the reasons.
  All-grow :
      (ms ms' : List MergeCandidate) (cs cs' : List CleanupCandidate) (ds ds' : List PluginDrift)
      (actions : List Action)
      → ((c : MergeCandidate) → Memᴰ c ms → Memᴰ c ms')
      → ((c : CleanupCandidate) → Memᴰ c cs → Memᴰ c cs')
      → ((d : PluginDrift) → Memᴰ d ds → Memᴰ d ds')
      → All (IsJustified gate ms cs ds) actions
      → All (IsJustified gate ms' cs' ds') actions
  All-grow ms ms' cs cs' ds ds' actions f g h all =
      mem-All _ actions λ a m. grow a (All-mem _ actions all m)
    where
      widen : (a : Action) → Reason ms cs ds a → Reason ms' cs' ds' a
      widen a (inl (c, m, e, k, b)) = inl (c, f c m, e, k, b)
      widen a (inr (inl (c, m, e, k, b, p))) = inr (inl (c, g c m, e, k, b, p))
      widen a (inr (inr (d, m, e, k, t))) = inr (inr (d, h d m, e, k, t))

      grow : (a : Action) → IsJustified gate ms cs ds a → IsJustified gate ms' cs' ds' a
      grow a j = record {
        allowed = j.allowed;
        blocked_by = j.blocked_by;
        reason = widen a j.reason;
      }

  -- A new action at the end, when a test asks for it.
  All-last :
      (P : Action → Type 0) (b : Bool) (actions : List Action) (a : Action)
      → All P actions
      → (b ≡ true → P a)
      → All P (if b then actions ++ a ∷ [] else actions)
  All-last P true actions a h p = All-append P actions (a ∷ []) h (p refl, tt)
  All-last P false actions a h p = h

  pub IsPlanned-merge :
      (plan : Plan) (c : AdvanceArchiveCandidate)
      → IsPlanned gate plan
      → IsPlanned gate (add_merge gate plan c)
  IsPlanned-merge plan c p = record {
    same_gate = p.same_gate;
    blockers = p.blockers;
    justified =
        All-last _ (can_merge c) plan.actions (merge_action gate c)
          (All-grow plan.merge_candidates (plan.merge_candidates ++ merge_candidate c ∷ [])
            plan.cleanup_candidates plan.cleanup_candidates plan.plugin_drift plan.plugin_drift
            plan.actions (λ _ m. mem-append_left plan.merge_candidates _ m) (λ _ m. m) (λ _ m. m)
            p.justified)
          (λ e. record {
            allowed = refl;
            blocked_by = refl;
            reason = inl (
              merge_candidate c,
              mem-append_last plan.merge_candidates (merge_candidate c),
              e,
              refl,
              refl,
            );
          });
  }

  pub add_merges-IsPlanned :
      (plan : Plan) (cs : List AdvanceArchiveCandidate)
      → IsPlanned gate plan
      → IsPlanned gate (add_merges gate plan cs)
  unfolding add_merges
  add_merges-IsPlanned plan [] p = p
  add_merges-IsPlanned plan (c ∷ cs) p =
      add_merges-IsPlanned (add_merge gate plan c) cs (IsPlanned-merge plan c p)

  pub IsPlanned-cleanup :
      (plan : Plan) (w : WorktreeInfo) → IsPlanned gate plan → IsPlanned gate (add_cleanup plan w)
  IsPlanned-cleanup plan w p = record {
    same_gate = p.same_gate;
    blockers = p.blockers;
    justified =
        All-last _ (is_eligible w) plan.actions (cleanup_action plan.session_gate w)
          (All-grow plan.merge_candidates plan.merge_candidates plan.cleanup_candidates
            (plan.cleanup_candidates ++ cleanup_candidate w ∷ []) plan.plugin_drift
            plan.plugin_drift plan.actions (λ _ m. m)
            (λ _ m. mem-append_left plan.cleanup_candidates _ m) (λ _ m. m) p.justified)
          (λ e. record {
            allowed = ap (λ (g : GateReport). not (is_blocked g.status)) p.same_gate;
            blocked_by = ap (λ (g : GateReport). g.blockers) p.same_gate;
            reason = inr (
                inl (
                  cleanup_candidate w,
                  mem-append_last plan.cleanup_candidates (cleanup_candidate w),
                  e,
                  refl,
                  refl,
                  refl,
                ));
          });
  }

  pub add_cleanups-IsPlanned :
      (plan : Plan) (ws : List WorktreeInfo)
      → IsPlanned gate plan
      → IsPlanned gate (add_cleanups plan ws)
  unfolding add_cleanups
  add_cleanups-IsPlanned plan [] p = p
  add_cleanups-IsPlanned plan (w ∷ ws) p =
      add_cleanups-IsPlanned (add_cleanup plan w) ws (IsPlanned-cleanup plan w p)

  abbrev drift_of : String → DriftReport → PluginDrift
  drift_of name drift = record { plugin = name; status = drift.status; path = drift.marker_path }

  stale : (drift : DriftReport) → is_fresh drift ≡ false → drift.status ≢ "fresh"
  stale drift n e = ground (arith, n, (eq_iff drift.status "fresh").1 e)

  pub IsPlanned-drift :
      (plan : Plan) (name : String) (drift : DriftReport)
      → IsPlanned gate plan
      → IsPlanned gate (add_drift gate plan name drift)
  IsPlanned-drift plan name drift p = step (is_fresh drift) (λ e. stale drift e)
    where
      kept :
          All
            (IsJustified gate plan.merge_candidates plan.cleanup_candidates
              (plan.plugin_drift ++ drift_of name drift ∷ []))
            plan.actions
      kept =
          All-grow plan.merge_candidates plan.merge_candidates plan.cleanup_candidates
            plan.cleanup_candidates plan.plugin_drift
            (plan.plugin_drift ++ drift_of name drift ∷ []) plan.actions (λ _ m. m) (λ _ m. m)
            (λ _ m. mem-append_left plan.plugin_drift _ m) p.justified

      step :
          (b : Bool)
          → (b ≡ false → drift.status ≢ "fresh")
          → IsPlanned gate (record plan {
            plugin_drift = plan.plugin_drift ++ drift_of name drift ∷ [];
            rebuilds =
                if b
                then plan.rebuilds
                else plan.rebuilds
                  ++ record { plugin = name; needed = true; reason = drift.reason } ∷ [];
            actions =
                if b then plan.actions else plan.actions ++ rebuild_action gate name drift ∷ [];
          })
      step true n = record { same_gate = p.same_gate; blockers = p.blockers; justified = kept }
      step false n = record {
        same_gate = p.same_gate;
        blockers = p.blockers;
        justified = All-append _ plan.actions (rebuild_action gate name drift ∷ []) kept (
          record {
            allowed = refl;
            blocked_by = refl;
            reason = inr (
                inr (
                  drift_of name drift,
                  mem-append_last plan.plugin_drift (drift_of name drift),
                  n refl,
                  refl,
                  refl,
                ));
          },
          tt,
        );
      }
