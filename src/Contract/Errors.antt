-- ===== src/Contract/Errors.antt =====
-- crates/akua-core/src/cli_contract/error.rs and codes.rs
use akua.Base.{ℕ, Option, none, some, List, [], ◌∷◌, ◌++◌}
use akua.Base.Texts.{Text, codes}

pub data Level : Type 0 where
  error warn : Level

pub record StructuredError : Type 0 where
  pub level : Level
  pub code : Text
  pub message : Text
  pub path : Option Text
  pub field : Option Text
  pub line : Option ℕ
  pub suggestion : Option Text
  pub docs : Option Text
  pub next_actions : List Text

-- `StructuredError::new`
abbrev pub new_error : Text → Text → StructuredError
new_error code message = record {
  level = error;
  code = code;
  message = message;
  path = none;
  field = none;
  line = none;
  suggestion = none;
  docs = none;
  next_actions = [];
}

abbrev pub with_path : Text → StructuredError → StructuredError
with_path p e = record e { path = some p }

abbrev pub with_field : Text → StructuredError → StructuredError
with_field f e = record e { field = some f }

abbrev pub with_line : ℕ → StructuredError → StructuredError
with_line n e = record e { line = some n }

abbrev pub with_suggestion : Text → StructuredError → StructuredError
with_suggestion s e = record e { suggestion = some s }

abbrev pub error_docs_base : Text
error_docs_base = codes "https://cli.akua.dev/errors"

abbrev pub with_default_docs : StructuredError → StructuredError
with_default_docs e = record e { docs = some (error_docs_base ++ (b'/' ∷ e.code)) }

abbrev pub with_docs : Text → StructuredError → StructuredError
with_docs d e = record e { docs = some d }

abbrev pub with_next_action : Text → StructuredError → StructuredError
with_next_action a e = record e { next_actions = e.next_actions ++ (a ∷ []) }

abbrev pub as_warning : StructuredError → StructuredError
as_warning e = record e { level = warn }
