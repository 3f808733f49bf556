-- ===== src/Runtime/Workflows/Listing.antt =====
-- The listing ends, and what it lists is bounded.
use text.Mathlib.TextBridge.{IsPrefix}
use text.Mathlib.TextEquality.{starts_with_iff}
use opencode_advance.Prelude.{
  ℕ, zero, suc, ◌+◌, ◌<◌, ◌≤◌, ℤ, pos, ltb_ℤ, String, Bool, true, false, ◌≡◌, refl, Option, some,
  List, [], ◌∷◌, ◌++◌, arith, inl, inr, Result-cases, Result, length, All, All-append, is_blank,
  if◌then◌else◌,
}
use opencode_advance.Runtime.Workflows.{
  Workflow, Page, Service, is_adv_running_workflow, add_page, page_size, list_adv_workflows,
}

-- A workflow whose ID begins with "adv/" and whose status is running.
abbrev pub IsRunning : Workflow → Type 0
IsRunning w = IsPrefix "adv/" w.id × (w.is_running ≡ true)

is_adv_running_workflow-IsRunning : (w : Workflow) → is_adv_running_workflow w ≡ true → IsRunning w
is_adv_running_workflow-IsRunning w e =
    ((starts_with_iff w.id "adv/").0 (ground (arith, e)), ground (arith, e))

-- The workflows found are at most `n`, and running workflows of Advance.
pub record IsWithin (n : ℕ) (ws : List Workflow) : Type 0 where
  pub bound : length ws ≤ n
  pub running : All IsRunning ws

length-append_last : (ws : List Workflow) (w : Workflow) → length (ws ++ w ∷ []) ≡ length ws + 1
length-append_last [] w = refl
length-append_last (x ∷ ws) w = omega (arith, length-append_last ws w)

IsWithin-add :
    (n : ℕ) (b : Bool) (found : List Workflow) (w : Workflow)
    → is_adv_running_workflow w ≡ b
    → length found < n
    → IsWithin n found
    → IsWithin n (if b then found ++ w ∷ [] else found)
IsWithin-add n true found w e l h = record {
  bound = omega (arith, length-append_last found w, l);
  running =
      All-append IsRunning found (w ∷ []) h.running (is_adv_running_workflow-IsRunning w e, tt);
}
IsWithin-add n false found w e l h = h

if-IsWithin :
    (n : ℕ) (b : Bool) (xs ys : List Workflow)
    → (b ≡ true → IsWithin n xs)
    → IsWithin n ys
    → IsWithin n (if b then xs else ys)
if-IsWithin n true xs ys h k = h refl
if-IsWithin n false xs ys h k = k

ltb_ℤ-lt : (a b : ℕ) → ltb_ℤ (pos a) (pos b) ≡ true → a < b
ltb_ℤ-lt a b h = ground arith

add_page-IsWithin :
    (n : ℕ) (ws found : List Workflow) → IsWithin n found → IsWithin n (add_page (pos n) found ws)
unfolding add_page
add_page-IsWithin n [] found h = h
add_page-IsWithin n (w ∷ ws) found h =
    if-IsWithin n (ltb_ℤ (pos (length found)) (pos n)) _ found
      (λ l.
        add_page-IsWithin n ws _
          (IsWithin-add n (is_adv_running_workflow w) found w refl (ltb_ℤ-lt (length found) n l) h))
      h

-- The loop returned; what it found, if it is no error.
pub data Lists (n : ℕ) : Option (Result (List Workflow)) → Type 0 where
  listed : (ws : List Workflow) → IsWithin n ws → Lists n (some (Result.done ws))
  failed : (e : String) → Lists n (some (Result.fail e))

module _ (service : Service) (n : ℕ) (rank : String → ℕ) where
  -- Every page that is followed by another brings the listing nearer to its end.
  abbrev pub Pages : Type 0
  Pages =
      (k : ℕ) (size : ℤ) (token : String) (page : Page)
      → service.list k size token ≡ Result.done page
      → is_blank page.next_token ≡ false
      → rank page.next_token < rank token

  if-Lists :
      (b : Bool) {x y : Option (Result (List Workflow))}
      → (b ≡ true → Lists n x)
      → (b ≡ false → Lists n y)
      → Lists n (if b then x else y)
  if-Lists true h k = h refl
  if-Lists false h k = k refl

  -- The loop of listADVWorkflows ends. It lists running workflows only, whose IDs begin with "adv/",
  -- and at most as many as MaxWorkflows says; or it returns the error of a listing. The condition is
  -- that the pages of the service are finite: a measure of the page token falls from each page to the
  -- next.
  pub list_adv_workflows-Lists :
      Pages
      → (fuel k : ℕ) (found : List Workflow) (token : String) → rank token < fuel
      → IsWithin n found
      → Lists n (list_adv_workflows service (pos n) fuel k found token)
  unfolding list_adv_workflows
  list_adv_workflows-Lists pages zero k found token f h = absurd (omega (arith, f))
  list_adv_workflows-Lists pages (suc fuel) k found token f h =
      if-Lists (ltb_ℤ (pos (length found)) (pos n))
        (λ l. elim (Result-cases (service.list k (page_size (pos n) found) token)) [
          | inl (e, x) ↦ rw x (Lists.failed e)
          | inr (page, x) ↦
              let all = add_page-IsWithin n page.executions found h in
              rw x (
                if-Lists (is_blank page.next_token) (λ b. Lists.listed _ all)
                  (λ b.
                    list_adv_workflows-Lists pages fuel (suc k) _ page.next_token
                      (omega (arith, pages k _ token page x b, f)) all))
        ])
        (λ l. Lists.listed found h)
