-- ===== src/Executor.antt =====
-- crates/agent/src/executor.rs: the run of a Codex command. Parameters are the texts of the standard
-- library (`trim`, `split_whitespace`, `lines`) and the reading of one JSON line by serde. The process
-- itself is the outcome that it is given as. A byte is a number; an exit code is held as printed.
pub mod Capped
pub mod Events
pub mod Process
mod Tests
use chaop.Base.{
  ℕ, ◌+◌, ◌-◌, ◌%◌, ◌^◌, min, max, ltb, leb, ◌==◌, String, str_eq, ◌str++◌, Bool, true, false, not,
  ◌&&◌, ◌||◌, Option, none, some, or_else, unwrap_or, is_some_and, List, [], ◌∷◌, ◌++◌, length,
  take, if◌then◌else◌, Result, ok, err,
}
use Prim.Native.String.{count}
use chaop.Config.{ExecutionConfig}
use chaop.Json.{Value}
use chaop.Connector.Instances.Text.{take_chars, decimal}

-- `ConnectorEvent` of crates/agent/src/placeholder.rs.
pub record ConnectorEvent : Type 0 where
  pub kind : String
  pub priority : String
  pub summary : String
  pub payload : Option Value

pub record CappedOutput : Type 0 where
  pub bytes : List ℕ
  pub truncated : Bool

abbrev option_args : String → Option String → List String → List String
option_args flag none rest = rest
option_args flag (some value) rest = flag ∷ value ∷ rest

-- The program and the arguments of `codex_command`.
unfoldable pub codex_command : ExecutionConfig → String → String × List String
codex_command config workspace_root = (
  config.codex_command,
  "exec"
      ∷ option_args "--profile" config.codex_profile (
          option_args "--model" config.codex_model (
            "--json"
            ∷ "--ephemeral"
            ∷ "--sandbox"
            ∷ config.codex_sandbox
            ∷ "-C"
            ∷ workspace_root
            ∷ (config.extra_args ++ ("-" ∷ [])))),
)

-- `read_capped`: what each `read` of the pipe gives, up to the first empty one.
unfoldable pub read_capped_loop :
    ℕ → List (Result (List ℕ) String) → CappedOutput → Result CappedOutput String
read_capped_loop max_bytes [] out = ok out
read_capped_loop max_bytes (err e ∷ reads) out = err e
read_capped_loop max_bytes (ok [] ∷ reads) out = ok out
read_capped_loop max_bytes (ok (b ∷ bs) ∷ reads) out =
    let remaining = max_bytes - length out.bytes in
    let taken = min remaining (length (b ∷ bs)) in
    read_capped_loop max_bytes reads (
      if remaining == 0 then record out { truncated = true } else record {
        bytes = out.bytes ++ take taken (b ∷ bs);
        truncated = out.truncated || ltb taken (length (b ∷ bs));
      })

unfoldable pub read_capped : ℕ → List (Result (List ℕ) String) → Result CappedOutput String
unfolding read_capped_loop
read_capped max_bytes reads =
    read_capped_loop max_bytes reads (record { bytes = []; truncated = false })

pub record CodexUsage : Type 0 where
  pub input_tokens : Option ℕ
  pub cached_input_tokens : Option ℕ
  pub output_tokens : Option ℕ
  pub reasoning_output_tokens : Option ℕ
  pub total_tokens : Option ℕ

pub record CodexItem : Type 0 where
  pub item_type : Option String
  pub text : Option String

pub record CodexJsonEvent : Type 0 where
  pub event_type : String
  pub item : Option CodexItem
  pub usage : Option CodexUsage

pub record CodexSummary : Type 0 where
  pub last_agent_message : Option String
  pub usage : Option CodexUsage

pub record Texts : Type 0 where
  pub trim : String → String
  pub compact : String → String
  pub lines : String → List String
  pub read_event : String → Option CodexJsonEvent

abbrev known : Option ℕ → String
known none = "unknown"
known (some n) = decimal n

-- The sum of the two counts wraps, as it does in a release build.
abbrev both : Option ℕ → Option ℕ → Option ℕ
both (some a) (some b) = some ((a + b) % 2 ^ 64)
both a b = none

unfoldable pub usage_summary : CodexUsage → String
usage_summary usage =
    "Codex CLI fallback usage: "
    str++ known (or_else usage.total_tokens (both usage.input_tokens usage.output_tokens))
    str++ " total tokens, "
    str++ known usage.input_tokens
    str++ " input ("
    str++ decimal (unwrap_or usage.cached_input_tokens 0)
    str++ " cached), "
    str++ known usage.output_tokens
    str++ " output, "
    str++ decimal (unwrap_or usage.reasoning_output_tokens 0)
    str++ " reasoning."

module _ (texts : Texts) where
  unfoldable pub truncate_summary : String → ℕ → String
  truncate_summary value max_chars =
      let compact = texts.compact value in
      if leb (count compact) max_chars then compact else take_chars max_chars compact str++ "..."

  unfoldable pub first_non_empty : String → String → String
  first_non_empty first second =
      if str_eq (texts.trim first) "" then texts.trim second else texts.trim first

  -- One line's event; a message is taken from a completed item of the agent, the usage of the last
  -- completed turn even where it has none.
  unfoldable pub add_event : CodexJsonEvent → CodexSummary → CodexSummary
  add_event event summary = record {
    last_agent_message =
        if str_eq event.event_type "item.completed"
          && is_some_and event.item
              (λ item. is_some_and item.item_type (λ kind. str_eq kind "agent_message"))
        then or_else (elim event.item [ none ↦ none | some item ↦ item.text ])
            summary.last_agent_message
        else summary.last_agent_message;
    usage = if str_eq event.event_type "turn.completed" then event.usage else summary.usage;
  }

  unfoldable pub parse_lines : List String → CodexSummary → CodexSummary
  unfolding add_event
  parse_lines [] summary = summary
  parse_lines (line ∷ lines) summary = elim (texts.read_event line) [
    | none ↦ parse_lines lines summary
    | some event ↦ parse_lines lines (add_event event summary)
  ]

  unfoldable pub parse_codex_jsonl : String → CodexSummary
  unfolding parse_lines
  parse_codex_jsonl stdout =
      parse_lines (texts.lines stdout) (record { last_agent_message = none; usage = none })

  abbrev pub event : String → String → String → ConnectorEvent
  event kind priority summary = record {
    kind = kind;
    priority = priority;
    summary = summary;
    payload = none;
  }

  abbrev message_event : Option String → ConnectorEvent
  message_event (some message) =
      event "command.output" "P2" ("Codex: " str++ truncate_summary message 700)
  message_event none =
      event "command.output" "P2" "Codex CLI fallback completed without an assistant message."

  abbrev usage_events : Option CodexUsage → List ConnectorEvent
  usage_events none = []
  usage_events (some usage) = event "command.output" "P3" (usage_summary usage) ∷ []

  abbrev truncated_events : Bool → List ConnectorEvent
  truncated_events false = []
  truncated_events true =
      event "command.output" "P2"
        "Codex CLI fallback output exceeded the connector cap; summaries may be incomplete."
      ∷ []

  abbrev exit_text : Option String → String
  exit_text none = ""
  exit_text (some code) = " with exit code " str++ code

  -- The events of a command that succeeded.
  unfoldable pub success_events : Option String → Option CodexUsage → Bool → List ConnectorEvent
  success_events message usage truncated =
      message_event message
      ∷ (usage_events usage
          ++ (truncated_events truncated
              ++ (event "command.finished" "P1" "Codex CLI fallback completed successfully." ∷ [])))

  unfoldable pub codex_result_events :
      (success : Bool) (code : Option String) (stdout stderr : String) (truncated : Bool)
      → List ConnectorEvent
  unfolding parse_codex_jsonl success_events
  codex_result_events success code stdout stderr truncated =
      let summary = parse_codex_jsonl stdout in
      if not success
      then event "command.failed" "P1" (
          "Codex CLI fallback failed"
          str++ exit_text code
          str++ ": "
          str++ truncate_summary (first_non_empty stderr stdout) 600)
        ∷ []
      else success_events summary.last_agent_message summary.usage truncated

  pub record CodexCommandOutput : Type 0 where
    pub success : Bool
    pub code : Option String
    pub stdout : String
    pub stderr : String
    pub timed_out : Bool
    pub cancelled : Bool
    pub truncated : Bool

  -- An error of the run: whether its kind is `NotFound`, and its text.
  pub record RunError : Type 0 where
    pub not_found : Bool
    pub text : String

  -- `codex_exec_result_events_with_cancel`, given what `run_codex_command` returned.
  unfoldable pub codex_exec_result_events :
      ExecutionConfig → Result CodexCommandOutput RunError → List ConnectorEvent
  unfolding codex_result_events
  codex_exec_result_events config (ok output) =
      if output.cancelled
      then event "command.failed" "P1"
          "Codex CLI fallback was cancelled because the connector connection closed."
        ∷ []
      else if output.timed_out
      then event "command.failed" "P1" (
          "Codex CLI fallback timed out after "
          str++ decimal (max config.codex_timeout_seconds 1)
          str++ " seconds.")
        ∷ []
      else codex_result_events output.success output.code output.stdout output.stderr
          output.truncated
  codex_exec_result_events config (err error) =
      if error.not_found
      then event "command.failed" "P1" (
          "Codex executable not found: " str++ config.codex_command
          str++ ". Set execution.codex_command to an absolute path visible to the connector process.")
        ∷ []
      else event "command.failed" "P1"
          ("Codex CLI fallback could not start: " str++ error.text str++ ".")
        ∷ []
