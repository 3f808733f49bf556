-- ===== src/Runtime/Attributes.antt =====
-- internal/advruntime/search_attributes.go: the search attributes that Advance needs.
use opencode_advance.Prelude.{
  ℤ, ◌+◌, String, Bool, Option, none, some, List, [], ◌∷◌, ◌++◌, ◌<>◌, ◌||◌, str_eq, contains_text,
  lookup, sort_entries, if◌then◌else◌, Result,
}
use opencode_advance.Runtime.Types.{
  Status, Severity, Config, SearchAttributeStatus, Report, new_report, with_defaults,
}
use opencode_advance.Runtime.Summary.{add_finding, refresh_summary_status}

-- enumspb.IndexedValueType
pub data ValueType : Type 0 where
  unspecified : ValueType
  text : ValueType
  keyword : ValueType
  integer : ValueType
  double : ValueType
  boolean : ValueType
  datetime : ValueType
  keyword_list : ValueType

-- func indexedValueTypeName
abbrev pub indexed_value_type_name : ValueType → String
indexed_value_type_name ValueType.text = "INDEXED_VALUE_TYPE_TEXT"
indexed_value_type_name ValueType.keyword = "INDEXED_VALUE_TYPE_KEYWORD"
indexed_value_type_name ValueType.integer = "INDEXED_VALUE_TYPE_INT"
indexed_value_type_name ValueType.double = "INDEXED_VALUE_TYPE_DOUBLE"
indexed_value_type_name ValueType.boolean = "INDEXED_VALUE_TYPE_BOOL"
indexed_value_type_name ValueType.datetime = "INDEXED_VALUE_TYPE_DATETIME"
indexed_value_type_name ValueType.keyword_list = "INDEXED_VALUE_TYPE_KEYWORD_LIST"
indexed_value_type_name ValueType.unspecified = "INDEXED_VALUE_TYPE_UNSPECIFIED"

abbrev pub same_type : ValueType → ValueType → Bool
same_type a b = str_eq (indexed_value_type_name a) (indexed_value_type_name b)

-- func RequiredSearchAttributes
abbrev pub required_search_attributes : List (String × ValueType)
required_search_attributes =
    ("AdvChangeId", ValueType.keyword)
    ∷ ("AdvChangeStatus", ValueType.keyword)
    ∷ ("AdvChangeTitle", ValueType.keyword)
    ∷ ("AdvCurrentGate", ValueType.keyword)
    ∷ ("AdvCurrentBucket", ValueType.keyword)
    ∷ ("AdvAffectedProjects", ValueType.keyword_list)
    ∷ ("AdvWorktreeBranches", ValueType.keyword_list)
    ∷ ("AdvWorktreePaths", ValueType.keyword_list)
    ∷ ("AdvCreatedAt", ValueType.datetime)
    ∷ ("AdvLastSignalAt", ValueType.datetime)
    ∷ []

abbrev pub add_attribute : SearchAttributeStatus → Report → Report
add_attribute a r = record r { search_attributes = r.search_attributes ++ a ∷ [] }

abbrev unknown_attribute : String → ValueType → SearchAttributeStatus
unknown_attribute name expected = record {
  name = name;
  expected = indexed_value_type_name expected;
  actual = "";
  status = Status.unknown;
  message = "search attribute visibility unknown";
  hint =
      "Temporal may be using local visibility or an unsupported API; verify with Advance diagnostics";
}

add_unknown : List (String × ValueType) → Report → Report
add_unknown [] r = r
add_unknown ((name, expected) ∷ others) r =
    add_unknown others (add_attribute (unknown_attribute name expected) r)

-- SearchAttributeChecker.markVisibilityUnknown
pub mark_visibility_unknown : String → Report → Report
unfolding add_unknown
mark_visibility_unknown message r =
    add_finding Severity.caution "ADV_SEARCH_ATTRIBUTES_UNKNOWN" message
      "continue with degraded warning and avoid treating visibility queries as authoritative"
      (add_unknown (sort_entries required_search_attributes) r)

-- An attribute that is registered, and one that is missing.
abbrev pub judge_attribute : String → ValueType → Option ValueType → SearchAttributeStatus
judge_attribute name expected none = record {
  name = name;
  expected = indexed_value_type_name expected;
  actual = "";
  status = Status.fail;
  message = "required search attribute " <> (name <> " missing");
  hint = "register Advance Temporal search attributes before relying on visibility queries";
}
judge_attribute name expected (some actual) =
    let found = indexed_value_type_name actual in
    let wanted = indexed_value_type_name expected in
    let a : SearchAttributeStatus = record {
      name = name;
      expected = wanted;
      actual = found;
      status = Status.pass;
      message = "";
      hint = "";
    } in
    if same_type actual expected then a else record a {
      status = Status.fail;
      message =
          "required search attribute "
          <> (name <> (" has type " <> (found <> (", want " <> wanted))));
      hint = "recreate local Temporal visibility schema or repair Advance search attributes";
    }

abbrev pub count_missing : Option ValueType → Report → Report
count_missing none r = record r {
  summary = record r.summary {
    missing_search_attributes = r.summary.missing_search_attributes + 1;
  };
}
count_missing (some actual) r = r

-- The loop of Check.
pub check_attributes : List (String × ValueType) → List (String × ValueType) → Report → Report
check_attributes [] registered r = r
check_attributes ((name, expected) ∷ others) registered r =
    let actual = lookup name registered in
    check_attributes others registered
      (add_attribute (judge_attribute name expected actual) (count_missing actual r))

-- func isUnsupportedSearchAttributeError; `lower` is strings.ToLower.
abbrev pub is_unsupported_search_attribute_error : (String → String) → String → Bool
is_unsupported_search_attribute_error lower e =
    let msg = lower e in contains_text msg "not supported" || contains_text msg "unsupported"

abbrev pub unknown_message : (String → String) → String → String
unknown_message lower e =
    if is_unsupported_search_attribute_error lower e
    then "search attribute visibility unknown: ListSearchAttributes unsupported by this Temporal visibility store: "
      <> e
    else "search attribute visibility unknown: " <> e

abbrev pub after_listing : (String → String) → Report → Result (List (String × ValueType)) → Report
after_listing lower r (Result.fail e) = mark_visibility_unknown (unknown_message lower e) r
after_listing lower r (Result.done registered) =
    refresh_summary_status (check_attributes (sort_entries required_search_attributes) registered r)

-- SearchAttributeChecker.Check. `service` is the answer of ListSearchAttributes, or none where there
-- is no service; the checker normalises its configuration before.
pub check : (String → String) → ℤ → Config → Option (Result (List (String × ValueType))) → Report
check lower now config none =
    mark_visibility_unknown "Temporal operator service unavailable"
      (new_report now (with_defaults config))
check lower now config (some listing) =
    after_listing lower (new_report now (with_defaults config)) listing
