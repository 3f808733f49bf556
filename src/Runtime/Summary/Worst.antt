-- ===== src/Runtime/Summary/Worst.antt =====
-- The status of the summary is the worst of what the report holds.
use opencode_advance.Prelude.{
  Bool, true, false, ◌||◌, ◌≡◌, refl, ◌∙◌, ap, List, [], ◌∷◌, if◌then◌else◌,
}
use opencode_advance.Runtime.Types.{
  Status, Severity, WorkflowQueueStatus, SearchAttributeStatus, Finding, Report,
}
use opencode_advance.Runtime.Summary.{
  after_finding, after_queue, after_attribute, scan, scan_queues, scan_attributes, summary_status,
  refresh_summary_status,
}

abbrev pub is_error : Severity → Bool
is_error Severity.error = true
is_error s = false

abbrev pub is_caution : Severity → Bool
is_caution Severity.caution = true
is_caution s = false

abbrev pub is_fail : Status → Bool
is_fail Status.fail = true
is_fail s = false

abbrev pub is_warn : Status → Bool
is_warn Status.warn = true
is_warn s = false

abbrev pub is_doubtful : Status → Bool
is_doubtful Status.warn = true
is_doubtful Status.unknown = true
is_doubtful s = false

-- Some element passes the test.
abbrev pub any {ℓ} : {A : Type ℓ} → (A → Bool) → List A → Bool
any test [] = false
any test (x ∷ xs) = test x || any test xs

-- An error, a queue or a search attribute that failed.
abbrev pub has_failure : Report → Bool
has_failure r =
    any (λ (f : Finding). is_error f.severity) r.findings
    || (any (λ (q : WorkflowQueueStatus). is_fail q.status) r.workflow_queues
        || any (λ (a : SearchAttributeStatus). is_fail a.status) r.search_attributes)

-- A warning, a queue that warns or a search attribute that warns or is not known.
abbrev pub has_warning : Report → Bool
has_warning r =
    any (λ (f : Finding). is_caution f.severity) r.findings
    || (any (λ (q : WorkflowQueueStatus). is_warn q.status) r.workflow_queues
        || any (λ (a : SearchAttributeStatus). is_doubtful a.status) r.search_attributes)

abbrev pub worst : Bool → Bool → Status
worst failure warning =
    if failure then Status.fail else if warning then Status.warn else Status.pass

or_assoc : (a b c : Bool) → ((a || b) || c) ≡ (a || (b || c))
or_assoc true b c = refl
or_assoc false b c = refl

-- A loop whose round gives the worst of what is met gives the worst of all.
module _ {ℓ} {A : Type ℓ} (after : Status → A → Status) (fails warns : A → Bool) where
  worst-scan :
      ((f w : Bool) (x : A) → after (worst f w) x ≡ worst (f || fails x) (w || warns x))
      → (f w : Bool) (xs : List A)
      → scan after (worst f w) xs ≡ worst (f || any fails xs) (w || any warns xs)
  unfolding scan
  worst-scan h true w [] = refl
  worst-scan h false true [] = refl
  worst-scan h false false [] = refl
  worst-scan h f w (x ∷ xs) =
      ap (λ (s : Status). scan after s xs) (h f w x)
      ∙ worst-scan h (f || fails x) (w || warns x) xs
      ∙ ap (λ b. worst b ((w || warns x) || any warns xs)) (or_assoc f (fails x) (any fails xs))
      ∙ ap (λ b. worst (f || (fails x || any fails xs)) b) (or_assoc w (warns x) (any warns xs))

worst-after_finding :
    (f w : Bool) (s : Severity)
    → after_finding (worst f w) s ≡ worst (f || is_error s) (w || is_caution s)
worst-after_finding true w Severity.info = refl
worst-after_finding true w Severity.caution = refl
worst-after_finding true w Severity.error = refl
worst-after_finding false true Severity.info = refl
worst-after_finding false true Severity.caution = refl
worst-after_finding false true Severity.error = refl
worst-after_finding false false Severity.info = refl
worst-after_finding false false Severity.caution = refl
worst-after_finding false false Severity.error = refl

worst-after_queue :
    (f w : Bool) (s : Status) → after_queue (worst f w) s ≡ worst (f || is_fail s) (w || is_warn s)
worst-after_queue true w Status.pass = refl
worst-after_queue true w Status.warn = refl
worst-after_queue true w Status.fail = refl
worst-after_queue true w Status.unknown = refl
worst-after_queue false true Status.pass = refl
worst-after_queue false true Status.warn = refl
worst-after_queue false true Status.fail = refl
worst-after_queue false true Status.unknown = refl
worst-after_queue false false Status.pass = refl
worst-after_queue false false Status.warn = refl
worst-after_queue false false Status.fail = refl
worst-after_queue false false Status.unknown = refl

worst-after_attribute :
    (f w : Bool) (s : Status)
    → after_attribute (worst f w) s ≡ worst (f || is_fail s) (w || is_doubtful s)
worst-after_attribute true w Status.pass = refl
worst-after_attribute true w Status.warn = refl
worst-after_attribute true w Status.fail = refl
worst-after_attribute true w Status.unknown = refl
worst-after_attribute false true Status.pass = refl
worst-after_attribute false true Status.warn = refl
worst-after_attribute false true Status.fail = refl
worst-after_attribute false true Status.unknown = refl
worst-after_attribute false false Status.pass = refl
worst-after_attribute false false Status.warn = refl
worst-after_attribute false false Status.fail = refl
worst-after_attribute false false Status.unknown = refl

status_worst : (r : Report) → summary_status r ≡ worst (has_failure r) (has_warning r)
status_worst r =
    let e = any (λ (f : Finding). is_error f.severity) r.findings in
    let c = any (λ (f : Finding). is_caution f.severity) r.findings in
    let f = any (λ (q : WorkflowQueueStatus). is_fail q.status) r.workflow_queues in
    let w = any (λ (q : WorkflowQueueStatus). is_warn q.status) r.workflow_queues in
    ap (λ s. scan_attributes (scan_queues s r.workflow_queues) r.search_attributes)
      (worst-scan (λ status x. after_finding status x.severity) (λ x. is_error x.severity)
        (λ x. is_caution x.severity) (λ f w x. worst-after_finding f w x.severity) false false
        r.findings)
    ∙ ap (λ s. scan_attributes s r.search_attributes)
        (worst-scan (λ status x. after_queue status x.status) (λ x. is_fail x.status)
          (λ x. is_warn x.status) (λ f w x. worst-after_queue f w x.status) e c r.workflow_queues)
    ∙ worst-scan (λ status x. after_attribute status x.status) (λ x. is_fail x.status)
        (λ x. is_doubtful x.status) (λ f w x. worst-after_attribute f w x.status) (e || f) (c || w)
        r.search_attributes
    ∙ ap
        (λ b. worst b (
          (c || w)
          || any (λ (a : SearchAttributeStatus). is_doubtful a.status) r.search_attributes))
        (or_assoc e f (any (λ (a : SearchAttributeStatus). is_fail a.status) r.search_attributes))
    ∙ ap
        (λ b.
          worst
            (e || (f || any (λ (a : SearchAttributeStatus). is_fail a.status) r.search_attributes))
            b)
        (or_assoc c w
          (any (λ (a : SearchAttributeStatus). is_doubtful a.status) r.search_attributes))

-- The summary says `fail` where the report holds an error or a queue or search attribute that failed;
-- otherwise `warn` where it holds a warning, a queue that warns, or a search attribute that warns or
-- is not known; otherwise `pass`. Nothing else of the report changes.
pub refresh_summary_status-worst :
    (r : Report)
    → refresh_summary_status r
      ≡ record r { summary = record r.summary { status = worst (has_failure r) (has_warning r) } }
unfolding refresh_summary_status
refresh_summary_status-worst r =
    ap (λ s. record r { summary = record r.summary { status = s } }) (status_worst r)
