-- ===== src/Runtime/Debt.antt =====
-- internal/advruntime/session_debt.go: blank assistant messages in the database of OpenCode, and the
-- scan for them.
use opencode_advance.Prelude.{
  ℕ, suc, ◌*◌, ◌/◌, ℤ, pos, negsuc, ltb_ℤ, ◌-ℤ◌, String, Bool, true, false, ◌||◌, not, Option, none,
  some, List, [], ◌∷◌, ◌<>◌, ltb, str_eq, show, length, if◌then◌else◌,
}
use opencode_advance.Runtime.Types.{Status, SessionDebtFinding}

-- A row of the table `message`, with what json_extract reads of its data. `Rows` of `part` are the
-- ids of their messages.
pub record Row : Type 0 where
  pub id : String
  pub time_created : ℤ
  pub role : Option String
  pub finish_reason : Option String

pub record Database : Type 0 where
  pub has_table : Bool
  pub messages : List Row
  pub parts : List String

-- The logic of SQL, where none is NULL.
abbrev pub sql_and : Option Bool → Option Bool → Option Bool
sql_and (some false) b = some false
sql_and (some true) b = b
sql_and none (some false) = some false
sql_and none b = none

abbrev pub is_null : Option String → Bool
is_null none = true
is_null (some s) = false

abbrev pub role_is : String → Option String → Option Bool
role_is wanted none = none
role_is wanted (some role) = some (str_eq role wanted)

unfoldable pub contains : String → List String → Bool
contains id [] = false
contains id (x ∷ xs) = str_eq x id || contains id xs

-- const repairablePredicate
abbrev pub repairable_predicate : ℤ → List String → Row → Option Bool
repairable_predicate cutoff parts row = sql_and (some (ltb_ℤ row.time_created cutoff)) (
    sql_and (role_is "assistant" row.role)
      (sql_and (some (is_null row.finish_reason)) (some (not (contains row.id parts)))))

abbrev pub holds : Option Bool → Bool
holds (some true) = true
holds b = false

abbrev pub fails : Option Bool → Bool
fails (some false) = true
fails b = false

-- A SELECT with a WHERE clause: the rows in order.
unfoldable pub select : (Row → Bool) → List Row → List Row
select test [] = []
select test (row ∷ rows) = if test row then row ∷ select test rows else select test rows

abbrev pub repairable_rows : ℤ → Database → List Row
repairable_rows cutoff db =
    select (λ row. holds (repairable_predicate cutoff db.parts row)) db.messages

abbrev pub ignored_rows : ℤ → Database → List Row
ignored_rows cutoff db =
    select (λ row. fails (repairable_predicate cutoff db.parts row)) db.messages

abbrev earlier : ℤ → Option ℤ → Option ℤ
earlier t none = some t
earlier t (some u) = if ltb_ℤ t u then some t else some u

oldest : List Row → Option ℤ
oldest [] = none
oldest (row ∷ rows) = earlier row.time_created (oldest rows)

-- Time.UnixMilli and time.UnixMilli
abbrev pub to_milli : ℤ → ℤ
to_milli (pos n) = pos (n / 1000000)
to_milli (negsuc n) = negsuc (n / 1000000)

abbrev pub of_milli : ℤ → ℤ
of_milli (pos n) = pos (n * 1000000)
of_milli (negsuc n) = pos 0 -ℤ pos (suc n * 1000000)

-- The age that oldestRepairableAge computes; none is its error.
abbrev pub age_of : ℤ → Option ℤ → Option ℤ
age_of now none = none
age_of now (some ms) =
    let created = of_milli ms in if ltb_ℤ now created then some (pos 0) else some (now -ℤ created)

-- type SessionDebtScanner, with its configuration normalised. `none` is a nil database.
pub record Scanner : Type 0 where
  pub db : Option Database
  pub db_path : String
  pub stale_after : ℤ
  pub now : ℤ

abbrev pub stale_cutoff : Scanner → ℤ
stale_cutoff s = to_milli (s.now -ℤ s.stale_after)

abbrev warning : SessionDebtFinding → String → SessionDebtFinding
warning f message = record f { status = Status.warn; message = message }

abbrev pub empty_finding : String → SessionDebtFinding
empty_finding path = record {
  path = path;
  status = Status.pass;
  repairable = 0;
  ignored = 0;
  oldest_age = pos 0;
  message = "";
  hint = "";
}

abbrev with_age : Option String → Option ℤ → SessionDebtFinding → SessionDebtFinding
with_age none (some age) f = if ltb_ℤ (pos 0) age then record f { oldest_age = age } else f
with_age e age f = f

abbrev with_verdict : SessionDebtFinding → SessionDebtFinding
with_verdict f =
    if ltb 0 f.repairable
    then record f {
      status = Status.warn;
      message = show f.repairable <> " repairable stale blank assistant message(s)";
      hint = "run 'oca session doctor --apply --backup-dir <dir>' to clean up";
    }
    else f

abbrev checked :
    Option String → (String → SessionDebtFinding) → SessionDebtFinding → SessionDebtFinding
checked none bad good = good
checked (some e) bad good = bad e

-- SessionDebtScanner.Scan; `errors k` is the error of its query number `k`.
pub scan_debt : (ℕ → Option String) → Scanner → SessionDebtFinding
unfolding oldest
scan_debt errors s = elim s.db [
  | none ↦ warning (empty_finding "") "database not available"
  | some db ↦
      let f = empty_finding s.db_path in
      let cutoff = stale_cutoff s in
      let found = record f { repairable = length (repairable_rows cutoff db) } in
      let counted = record found { ignored = length (ignored_rows cutoff db) } in
      let age = age_of s.now (oldest (repairable_rows cutoff db)) in
      checked (errors 0) (λ e. warning f ("cannot inspect schema: " <> e))
        (if not db.has_table
          then f
          else checked (errors 1) (λ e. warning f ("cannot scan messages: " <> e))
              (checked (errors 2) (λ e. warning found ("cannot count ignored messages: " <> e))
                (with_verdict (with_age (errors 3) age counted))))
]
