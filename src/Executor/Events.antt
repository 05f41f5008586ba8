-- ===== src/Executor/Events.antt =====
-- The events of a command that ran (crates/agent/src/executor.rs).
use chaop.Base.{
  ◌≡◌, refl, arith, String, str_eq, Bool, true, false, not, ◌&&◌, Option, none, some, List, [], ◌∷◌,
  Result, ok, err, if◌then◌else◌,
}
use chaop.Config.{ExecutionConfig}
use chaop.Executor.{
  ConnectorEvent, Texts, CodexCommandOutput, RunError, codex_exec_result_events,
  codex_result_events, success_events, parse_codex_jsonl, CodexUsage,
}

-- Whether a list of events is some outputs and then one event of the given kind.
unfoldable pub ends_with_kind : String → List ConnectorEvent → Bool
ends_with_kind kind [] = false
ends_with_kind kind (e ∷ []) = str_eq e.kind kind
ends_with_kind kind (e ∷ f ∷ es) = str_eq e.kind "command.output" && ends_with_kind kind (f ∷ es)

module _ (texts : Texts) where
  abbrev pub succeeded : Result (CodexCommandOutput texts) (RunError texts) → Bool
  succeeded (ok output) = output.success && not output.cancelled && not output.timed_out
  succeeded (err error) = false

  success-ends :
      (message : Option String) (usage : Option CodexUsage) (truncated : Bool)
      → ends_with_kind "command.finished" (success_events texts message usage truncated) ≡ true
  unfolding success_events ends_with_kind
  success-ends none none false = refl
  success-ends none none true = refl
  success-ends none (some u) false = refl
  success-ends none (some u) true = refl
  success-ends (some m) none false = refl
  success-ends (some m) none true = refl
  success-ends (some m) (some u) false = refl
  success-ends (some m) (some u) true = refl

  output-ends :
      (config : ExecutionConfig) (success cancelled timed_out truncated : Bool)
      (code : Option String) (stdout stderr : String)
      → let outcome : Result (CodexCommandOutput texts) (RunError texts) = ok (record {
        success = success;
        code = code;
        stdout = stdout;
        stderr = stderr;
        timed_out = timed_out;
        cancelled = cancelled;
        truncated = truncated;
      }) in
        ends_with_kind
          (if succeeded outcome then "command.finished" else "command.failed")
          (codex_exec_result_events texts config outcome)
        ≡ true
  unfolding codex_exec_result_events codex_result_events ends_with_kind
  output-ends config true true timed_out truncated code stdout stderr = refl
  output-ends config false true timed_out truncated code stdout stderr = refl
  output-ends config true false true truncated code stdout stderr = refl
  output-ends config false false true truncated code stdout stderr = refl
  output-ends config false false false truncated code stdout stderr = refl
  output-ends config true false false truncated code stdout stderr =
      let summary = parse_codex_jsonl texts stdout in
      success-ends summary.last_agent_message summary.usage truncated

  -- The events of a run are outputs, if any, and then one that ends the command: it is finished
  -- where the process succeeded and was neither cancelled nor timed out, and failed otherwise.
  pub events_end :
      (config : ExecutionConfig) (outcome : Result (CodexCommandOutput texts) (RunError texts))
      → ends_with_kind
          (if succeeded outcome then "command.finished" else "command.failed")
          (codex_exec_result_events texts config outcome)
        ≡ true
  unfolding codex_exec_result_events codex_result_events ends_with_kind
  events_end config (err error) = ground arith
  events_end config (ok output) =
      output-ends config output.success output.cancelled output.timed_out output.truncated
        output.code output.stdout output.stderr
