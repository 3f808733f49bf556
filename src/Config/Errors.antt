-- ===== src/Config/Errors.antt =====
-- internal/config/validate.go: a validation error and the list that `Validate` aggregates.
use opencode_advance.Prelude.{String, List, [], ◌∷◌, Message}

-- type ValidationError
pub record ValidationError : Type 0 where
  pub path : String
  pub message : Message

-- type ValidationErrors
abbrev pub ValidationErrors : Type 0
ValidationErrors = List ValidationError

-- append(errs, ValidationError{…})
abbrev pub one_error : String → Message → ValidationErrors
one_error path message = record { path = path; message = message } ∷ []
