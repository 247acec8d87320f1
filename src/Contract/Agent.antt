-- ===== src/Contract/Agent.antt =====
-- crates/akua-core/src/cli_contract/agent.rs: detection of an agent session from the environment.
use akua.Base.{
  ℕ, ◌<◌, ◌↔◌, ◌≡◌, Bool, true, false, Option, none, some, List, [], ◌∷◌, arith, is_empty,
  if◌then◌else◌,
}
use akua.Base.Texts.{Text, codes}

pub data AgentSource : Type 0 where
  agent claude_code gemini_cli cursor_cli akua_agent : AgentSource

abbrev pub env_var : AgentSource → Text
env_var agent = codes "AGENT"
env_var claude_code = codes "CLAUDECODE"
env_var gemini_cli = codes "GEMINI_CLI"
env_var cursor_cli = codes "CURSOR_CLI"
env_var akua_agent = codes "AKUA_AGENT"

pub record AgentContext : Type 0 where
  pub detected : Bool
  pub source : Option AgentSource
  pub name : Option Text
  pub disabled_via_env : Bool

-- `AgentContext::none`
abbrev pub no_agent : AgentContext
no_agent = record { detected = false; source = none; name = none; disabled_via_env = false }

-- The `EnvReader` of a process: `is_set` holds of a variable that is no UTF-8 text too.
pub record EnvReader : Type 0 where
  pub get : Text → Option Text
  pub is_set : Text → Bool

-- `reader.get(var).filter(|v| !v.is_empty())`
abbrev pub non_empty : Option Text → Option Text
non_empty none = none
non_empty (some v) = if is_empty v then none else some v

-- The loop over the variables.
unfoldable pub first_source : EnvReader → List AgentSource → AgentContext
first_source reader [] = no_agent
first_source reader (s ∷ sources) = elim (non_empty (reader.get (env_var s))) [
  | none ↦ first_source reader sources
  | some value ↦ record {
    detected = true;
    source = some s;
    name = some value;
    disabled_via_env = false;
  }
]

abbrev precedence : List AgentSource
precedence = agent ∷ claude_code ∷ gemini_cli ∷ cursor_cli ∷ akua_agent ∷ []

unfoldable pub from_reader : EnvReader → AgentContext
unfolding first_source
from_reader reader =
    if reader.is_set (codes "AKUA_NO_AGENT_DETECT")
    then record { detected = false; source = none; name = none; disabled_via_env = true }
    else first_source reader precedence

-- The place of a source in the order of precedence.
abbrev rank : AgentSource → ℕ
rank agent = 0
rank claude_code = 1
rank gemini_cli = 2
rank cursor_cli = 3
rank akua_agent = 4

-- The context of a detected source.
abbrev pub detected_by : AgentSource → Text → AgentContext
detected_by s v = record {
  detected = true;
  source = some s;
  name = some v;
  disabled_via_env = false;
}

-- The source's variable has a value, and none that takes precedence over it has one.
pub record IsFirst (reader : EnvReader) (s : AgentSource) (v : Text) : Type 0 where
  pub enabled : reader.is_set (codes "AKUA_NO_AGENT_DETECT") ≡ false
  pub value : non_empty (reader.get (env_var s)) ≡ some v
  pub before : (t : AgentSource) → rank t < rank s → non_empty (reader.get (env_var t)) ≡ none

module _ (reader : EnvReader) where
  earlier :
      (s : AgentSource) (v : Text)
      → from_reader reader ≡ detected_by s v
      → (t : AgentSource) → rank t < rank s
      → non_empty (reader.get (env_var t)) ≡ none
  unfolding from_reader
  earlier agent v h agent l = absurd (omega arith)
  earlier _ v h _ l = ground arith

  found : (s : AgentSource) (v : Text) → from_reader reader ≡ detected_by s v → IsFirst reader s v
  unfolding from_reader
  found agent v h = record {
    enabled = ground arith;
    value = ground arith;
    before = earlier agent v h;
  }
  found s v h = record { enabled = ground arith; value = ground arith; before = earlier s v h }

  given : (s : AgentSource) (v : Text) → IsFirst reader s v → from_reader reader ≡ detected_by s v
  unfolding from_reader
  given agent v f = ground (arith, f.enabled, f.value)
  given s v f = ground (
    arith,
    f.enabled,
    f.value,
    f.before agent,
    f.before claude_code,
    f.before gemini_cli,
    f.before cursor_cli,
  )

  -- An agent is detected by a source, with a value, exactly where detection is not switched off, the
  -- source's variable holds that value, which is not empty, and no variable of higher precedence has
  -- a value that is not empty.
  pub from_reader_iff :
      (s : AgentSource) (v : Text) → (from_reader reader ≡ detected_by s v) ↔ IsFirst reader s v
  from_reader_iff s v = (found s v, given s v)
