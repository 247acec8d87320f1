-- ===== src/Contract/Context.antt =====
-- crates/akuapkg-cli/src/contract/args.rs and context.rs: flags and agent detection decide the output.
use akua.Base.{◌≡◌, ◌↔◌, Bool, true, false, not, ◌&&◌, ◌||◌, Option, arith, if◌then◌else◌}
use akua.Base.Texts.{Text}
use akua.Contract.Agent.{AgentContext, no_agent}

pub record UniversalArgs : Type 0 where
  pub json : Bool
  pub no_json : Bool
  pub plan : Bool
  pub timeout : Option Text
  pub idempotency_key : Option Text
  pub log : Option Text
  pub log_level : Option Text
  pub verbose : Bool
  pub no_color : Bool
  pub no_progress : Bool
  pub no_interactive : Bool
  pub no_agent_mode : Bool

pub data OutputMode : Type 0 where
  text json_mode : OutputMode

pub record Context : Type 0 where
  pub output : OutputMode
  pub agent : AgentContext
  pub color : Bool
  pub progress : Bool
  pub interactive : Bool
  pub timeout : Option Text
  pub idempotency_key : Option Text
  pub plan : Bool

is_text : OutputMode → Bool
is_text text = true
is_text json_mode = false

unfoldable pub resolve : UniversalArgs → AgentContext → Context
unfolding is_text
resolve args agent =
    let effective_agent = if args.no_agent_mode then no_agent else agent in
    let output =
      if args.json
      then json_mode
      else if args.no_json
      then text
      else if effective_agent.detected
      then json_mode
      else text in
    let agent_active = effective_agent.detected in
    record {
      output = output;
      agent = effective_agent;
      color = not args.no_color && is_text output && not agent_active;
      progress = not args.no_progress && is_text output && not agent_active;
      interactive = not args.no_interactive && not agent_active;
      timeout = args.timeout;
      idempotency_key = args.idempotency_key;
      plan = args.plan;
    }

-- Output is JSON exactly where `--json` asks for it, or an agent is active and `--no-json` does not
-- refuse it; under JSON output, and for an active agent, neither colour nor progress is shown, and an
-- active agent is never asked to interact.
pub resolve_lem :
    (args : UniversalArgs) (agent : AgentContext)
    → let ctx = resolve args agent in
      let active = not args.no_agent_mode && agent.detected in
      ((ctx.output ≡ json_mode) ↔ ((args.json || (not args.no_json && active)) ≡ true))
      × (ctx.color
          ≡ (not args.no_color && not active && not (args.json || (not args.no_json && active))))
      × (ctx.progress
          ≡ (not args.no_progress && not active && not (args.json || (not args.no_json && active))))
      × (ctx.interactive ≡ (not args.no_interactive && not active))
unfolding resolve
resolve_lem args agent = ground arith
