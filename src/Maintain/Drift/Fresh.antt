-- ===== src/Maintain/Drift/Fresh.antt =====
-- Which builds count as fresh.
use opencode_advance.Prelude.{
  String, ◌≡◌, ◌↔◌, Option, none, some, List, [], ◌∷◌, arith, refl, ap, sym, subst, eq_iff,
  join_path,
}
use opencode_advance.Config.Sections.Types.{Plugin}
use opencode_advance.Maintain.Drift.{
  BuildMarker, DriftStatus, MarkerRead, plugin_runtime_root, source_root_of, build_marker_path,
  judge_marker, report_head, detect_plugin_drift,
}

module _ (git_output : String → List String → Option String × String)
    (read_marker : String → MarkerRead) (stat : String → Option String)
    (hash : List String → String) (name : String) (plugin : Plugin) where
  -- A marker of the head, with the build commands of the plugin, and its index file.
  pub record IsCurrent (head : String) (marker : BuildMarker) : Type 0 where
    pub built_from : marker.git_sha ≡ head
    pub built_by : marker.build_command_hash ≡ hash plugin.build
    pub present : stat (join_path (plugin_runtime_root plugin ∷ marker.dist_index ∷ [])) ≡ none

  judge_iff :
      (head : String) (marker : BuildMarker)
      → ((judge_marker stat hash plugin head marker).0 ≡ DriftStatus.fresh) ↔ IsCurrent head marker
  judge_iff head marker = (
    λ h. record {
      built_from = (eq_iff marker.git_sha head).0 (ground (arith, h));
      built_by = (eq_iff marker.build_command_hash (hash plugin.build)).0 (ground (arith, h));
      present = ground (arith, h);
    },
    λ c. ground (
      arith,
      (eq_iff marker.git_sha head).1 c.built_from,
      (eq_iff marker.build_command_hash (hash plugin.build)).1 c.built_by,
      c.present,
    ),
  )

  found_inj : {a b : BuildMarker} → MarkerRead.found a ≡ MarkerRead.found b → a ≡ b
  found_inj {a} e = ap (marker_or a) e
    where
      marker_or : BuildMarker → MarkerRead → BuildMarker
      marker_or d (MarkerRead.found m) = m
      marker_or d MarkerRead.not_exist = d
      marker_or d (MarkerRead.unreadable s) = d

  abbrev pub HasCurrent : Option String × String → MarkerRead → Type 0
  HasCurrent reply m =
      (reply.0 ≡ none)
      × ((marker : BuildMarker) × (m ≡ MarkerRead.found marker) × IsCurrent reply.1 marker)

  report_iff :
      (reply : Option String × String) (m : MarkerRead)
      → read_marker (build_marker_path plugin) ≡ m
      → ((report_head git_output read_marker stat hash name plugin reply).status
          ≡ DriftStatus.fresh)
        ↔ HasCurrent reply m
  report_iff (some e, head) m r =
      (λ h. absurd (ground (arith, h)), λ (n, k). absurd (ground (arith, n)))
  report_iff (none, head) (MarkerRead.found marker) r = rw r (
    λ h. (refl, (marker, refl, (judge_iff head marker).0 h)),
    λ (n, (marker', e, c)).
        (judge_iff head marker).1 (subst (IsCurrent head) (sym (found_inj e)) c),
  )
  report_iff (none, head) MarkerRead.not_exist r =
      rw r (λ h. absurd (ground (arith, h)), λ (n, (marker', e, c)). absurd (ground (arith, e)))
  report_iff (none, head) (MarkerRead.unreadable s) r =
      rw r (λ h. absurd (ground (arith, h)), λ (n, (marker', e, c)). absurd (ground (arith, e)))

  -- A plugin's build is fresh exactly when git gives the HEAD of its source, a marker can be read
  -- whose commit is this HEAD and whose hash is that of the plugin's build commands, and the index
  -- file that the marker names exists.
  pub detect_plugin_drift_iff :
      ((detect_plugin_drift git_output read_marker stat hash name plugin).status
        ≡ DriftStatus.fresh)
      ↔ HasCurrent
          (git_output (source_root_of plugin) ("rev-parse" ∷ "HEAD" ∷ []))
          (read_marker (build_marker_path plugin))
  unfolding detect_plugin_drift
  detect_plugin_drift_iff = report_iff _ _ refl
