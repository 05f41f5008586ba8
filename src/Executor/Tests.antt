-- ===== src/Executor/Tests.antt =====
-- The run of a Codex command (crates/agent/src/executor.rs) at concrete inputs.
use chaop.Base.{◌≡◌, true, false, none, some, [], ◌∷◌, ok}
use chaop.Config.{default_execution}
use chaop.Executor.{Texts, CodexCommandOutput, codex_exec_result_events, read_capped}
use chaop.Executor.Capped.{reads_of, all_bytes, capped_exact}
use chaop.Executor.Events.{ends_with_kind, events_end}

-- Texts that are one line each, and that hold no JSON.
abbrev plain : Texts
plain = record { trim = λ s. s; compact = λ s. s; lines = λ s. s ∷ []; read_event = λ s. none }

abbrev succeeds : CodexCommandOutput plain
succeeds = record {
  success = true;
  code = some "0";
  stdout = "done";
  stderr = "";
  timed_out = false;
  cancelled = false;
  truncated = true;
}

events_end_example :
    ends_with_kind "command.finished"
      (codex_exec_result_events plain default_execution (ok succeeds))
    ≡ true
events_end_example = events_end plain default_execution (ok succeeds)

-- Three bytes are read in two pieces, over a cap of two.
capped_exact_example :
    read_capped 2 (ok (5 ∷ []) ∷ ok (6 ∷ 7 ∷ []) ∷ [])
    ≡ ok (record { bytes = 5 ∷ 6 ∷ []; truncated = true })
unfolding reads_of all_bytes
capped_exact_example = capped_exact 2 ((5, []) ∷ (6, 7 ∷ []) ∷ [])
