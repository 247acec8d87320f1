-- ===== src/Contract/Tests.antt =====
-- Runs of the contract code, and its theorems at concrete inputs.
use akua.Base.{
  ◌≡◌, refl, true, false, ◌||◌, none, some, [], ◌==◌, list_eq, list_beq, nat_eq, if◌then◌else◌,
}
use akua.Base.Numbers.{negsuc}
use akua.Base.Texts.{codes}
use akua.Contract.Exit.{rate_limited, from_code, is_retriable, is_failure, is_retriable-is_failure}
use akua.Contract.Agent.{EnvReader, cursor_cli, from_reader, detected_by, IsFirst, from_reader_iff}
use akua.Contract.Context.{UniversalArgs}

negative_code : from_code (negsuc 0) ≡ none
unfolding from_code
negative_code = refl

is_retriable-is_failure_example : is_failure rate_limited ≡ true
unfolding is_retriable
is_retriable-is_failure_example = is_retriable-is_failure rate_limited refl

-- `GEMINI_CLI=` is set but empty, and `CURSOR_CLI=1`.
abbrev cursor_env : EnvReader
cursor_env = record {
  get = λ key.
      if key == codes "GEMINI_CLI"
      then some []
      else if key == codes "CURSOR_CLI"
      then some (codes "1")
      else none;
  is_set = λ key. key == codes "GEMINI_CLI" || key == codes "CURSOR_CLI";
}

cursor_run : from_reader cursor_env ≡ detected_by cursor_cli (codes "1")
unfolding from_reader list_beq
cursor_run = refl

from_reader_iff_example : IsFirst cursor_env cursor_cli (codes "1")
from_reader_iff_example = (from_reader_iff cursor_env cursor_cli (codes "1")).0 cursor_run

abbrev plain_args : UniversalArgs
plain_args = record {
  json = false;
  no_json = false;
  plan = false;
  timeout = none;
  idempotency_key = none;
  log = none;
  log_level = none;
  verbose = false;
  no_color = false;
  no_progress = false;
  no_interactive = false;
  no_agent_mode = false;
}
