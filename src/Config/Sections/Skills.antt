-- ===== src/Config/Sections/Skills.antt =====
-- Which lists of skills `validateSkills` accepts.
use opencode_advance.Prelude.{
  ℕ, suc, String, false, ◌≡◌, ◌≢◌, ◌↔◌, List, [], ◌∷◌, arith, refl, sym, All, Pairs,
  append-eq-nil_iff, is_blank, starts_with, eq_iff, Bool-cases, inl, inr,
}
use opencode_advance.Config.Sections.{
  mem_text, check_skill, scan_skills, validate_skills, index_path,
}

-- A name that is not empty and not in Advance's namespace.
pub record SkillFits (name : String) : Type 0 where
  pub filled : name ≢ ""
  pub unreserved : starts_with name "adv-" ≡ false

abbrev Differ : String → String → Type 0
Differ a b = a ≢ b

mem_text_iff : (a : String) (xs : List String) → (mem_text a xs ≡ false) ↔ All (Differ a) xs
mem_text_iff a [] = (λ h. tt, λ h. refl)
mem_text_iff a (x ∷ xs) = (
  λ h. ((λ e. ground (arith, eq_iff a x)), (mem_text_iff a xs).0 (ground arith)),
  λ h. ground (arith, h.0, eq_iff a x, (mem_text_iff a xs).1 h.1),
)

check_skill_iff :
    (path : String) (seen : List String) (name : String)
    → (check_skill path seen name ≡ [])
      ↔ ((starts_with name "adv-" ≡ false) × All (Differ name) seen)
unfolding check_skill
check_skill_iff path seen name = (
  λ h. (ground arith, (mem_text_iff name seen).0 (ground arith)),
  λ h. ground (arith, (mem_text_iff name seen).1 h.1),
)

-- A name that fits, and is none of those seen.
abbrev IsNew : List String → String → Type 0
IsNew seen name = SkillFits name × All (Differ name) seen

IsNew-cons :
    (name : String) (seen names : List String)
    → All (IsNew (name ∷ seen)) names ↔ (All (IsNew seen) names × All (Differ name) names)
IsNew-cons name seen [] = (λ h. (tt, tt), λ h. tt)
IsNew-cons name seen (x ∷ xs) = (
  λ ((fits, (ne, others)), rest).
      let (news, differ) = (IsNew-cons name seen xs).0 rest in
      (((fits, others), news), ((λ e. ne (sym e)), differ)),
  λ (((fits, others), news), (ne, differ)).
      ((fits, ((λ e. ne (sym e)), others)), (IsNew-cons name seen xs).1 (news, differ)),
)

scan_skills_iff :
    (i : ℕ) (seen names : List String)
    → (scan_skills i seen names ≡ []) ↔ (All (IsNew seen) names × Pairs Differ names)
unfolding scan_skills
scan_skills_iff i seen [] = (λ h. (tt, tt), λ h. refl)
scan_skills_iff i seen (name ∷ rest) = elim (Bool-cases (is_blank name)) [
  | inl b ↦ rw b ((λ h. cc), λ h. absurd (h.0.0.0.filled ((eq_iff name "").0 b)))
  | inr f ↦ rw f (
    λ h.
        let (here, later) = (append-eq-nil_iff _ _).0 h in
        let (unreserved, new) = (check_skill_iff (index_path "skills.order" i) seen name).0 here in
        let (news, pairs) = (scan_skills_iff (suc i) (name ∷ seen) rest).0 later in
        let (others, differ) = (IsNew-cons name seen rest).0 news in
        (
          (
            (record { filled = λ e. cc (f, (eq_iff name "").1 e); unreserved = unreserved }, new),
            others,
          ),
          (differ, pairs),
        ),
    λ h. (append-eq-nil_iff _ _).1 (
      (check_skill_iff (index_path "skills.order" i) seen name).1 (h.0.0.0.unreserved, h.0.0.1),
      (scan_skills_iff (suc i) (name ∷ seen) rest).1
          ((IsNew-cons name seen rest).1 (h.0.1, h.1.0), h.1.1),
    ),
  )
]

All-IsNew : (names : List String) → All SkillFits names → All (IsNew []) names
All-IsNew [] h = tt
All-IsNew (x ∷ xs) h = ((h.0, tt), All-IsNew xs h.1)

All-SkillFits : (names : List String) → All (IsNew []) names → All SkillFits names
All-SkillFits [] h = tt
All-SkillFits (x ∷ xs) h = (h.0.0, All-SkillFits xs h.1)

-- The skills are accepted exactly when no name is empty, none starts with "adv-", and no two are
-- equal.
pub validate_skills_iff :
    (order : List String)
    → (validate_skills order ≡ []) ↔ (All SkillFits order × Pairs (λ a b. a ≢ b) order)
unfolding validate_skills
validate_skills_iff order = (
  λ h. let (news, pairs) = (scan_skills_iff 0 [] order).0 h in (All-SkillFits order news, pairs),
  λ h. (scan_skills_iff 0 [] order).1 (All-IsNew order h.0, h.1),
)
