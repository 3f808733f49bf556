-- ===== src/Config/Sections/Examples.antt =====
-- `validateSkills` at concrete lists.
use opencode_advance.Prelude.{
  none, sort_entries, String, ◌≡◌, ◌≢◌, ◌↔◌, [], ◌∷◌, refl, All, Pairs, length,
}
use opencode_advance.Value.{no_more}
use opencode_advance.Config.Sections.{
  check_skill, scan_skills, validate_skills, validate_plugins, validate_instructions,
  validate_providers, validate_permissions, validate_watcher, validate_lsp, validate_formatters,
  validate_commands, each_entry, each_index,
}
use opencode_advance.Config.Sections.Skills.{SkillFits, validate_skills_iff}

validate_skills_iff_example : (validate_skills ("lint" ∷ "docs" ∷ []) ≡ []) ↔ (
    All SkillFits ("lint" ∷ "docs" ∷ []) × Pairs {A = String} (λ a b. a ≢ b) ("lint" ∷ "docs" ∷ []))
validate_skills_iff_example = validate_skills_iff ("lint" ∷ "docs" ∷ [])

-- A reserved name, a name twice, and an empty one.
skills-rejected : length (validate_skills ("adv-x" ∷ "lint" ∷ "lint" ∷ "" ∷ [])) ≡ 3
unfolding validate_skills scan_skills check_skill
skills-rejected = refl

pub lint-accepted : validate_skills ("lint" ∷ []) ≡ []
unfolding validate_skills scan_skills check_skill
lint-accepted = refl

-- Sections that a stack leaves out.
pub absent-accepted :
    (validate_plugins [] ≡ [])
    × (validate_instructions none ≡ [])
    × (validate_providers [] ≡ [])
    × (validate_permissions (record {
      default = "";
      doom_loop = "";
      external_directory = [];
      bash = [];
      extra = no_more;
    })
        ≡ [])
    × (validate_watcher [] ≡ [])
    × (validate_lsp [] ≡ [])
    × (validate_formatters [] ≡ [])
    × (validate_commands [] ≡ [])
unfolding validate_plugins validate_instructions validate_providers validate_permissions
    validate_watcher validate_lsp validate_formatters validate_commands each_entry each_index
    sort_entries
absent-accepted = (refl, refl, refl, refl, refl, refl, refl, refl)
