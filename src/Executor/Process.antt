-- ===== src/Executor/Process.antt =====
-- The wait for the process of a Codex command (crates/agent/src/executor.rs). What each round finds is
-- given: the status of the process, the request to cancel, the time since the start. So are the
-- status after a kill, and what the threads that read the pipes come to.
use chaop.Base.{
  ◌≡◌, arith, ℕ, ◌*◌, max, leb, Bool, true, false, not, ◌&&◌, ◌||◌, String, Option, none, some,
  is_some, List, [], ◌∷◌, if◌then◌else◌, Result, ok, err,
}
use chaop.Config.{ExecutionConfig}
use chaop.Executor.{Texts, CappedOutput, CodexCommandOutput}

-- The exit of a process: whether it is a success, and its code as printed.
pub record ExitStatus : Type 0 where
  pub success : Bool
  pub code : Option String

pub record Poll : Type 0 where
  pub try_wait : Result (Option ExitStatus) String
  pub cancel : Bool
  pub elapsed : ℕ

-- Status, time-out, cancellation.
pub record Exit : Type 0 where
  pub status : ExitStatus
  pub timed_out : Bool
  pub cancelled : Bool

abbrev exit_with : Bool → Bool → Result ExitStatus String → Result Exit String
exit_with timed_out cancelled (err e) = err e
exit_with timed_out cancelled (ok status) =
    ok (record { status = status; timed_out = timed_out; cancelled = cancelled })

-- A round ends the wait, or not; a killed process is waited for.
unfoldable pub poll_ends : ℕ → Result ExitStatus String → Poll → Option (Result Exit String)
poll_ends timeout killed poll = elim poll.try_wait [
  | err e ↦ some (err e)
  | ok (some status) ↦ some (exit_with false false (ok status))
  | ok none ↦
      if poll.cancel
      then some (exit_with false true killed)
      else if leb timeout poll.elapsed
      then some (exit_with true false killed)
      else none
]

abbrev first_end :
    Option (Result Exit String) → Option (Result Exit String) → Option (Result Exit String)
first_end none later = later
first_end (some e) later = some e

-- The loop, on the rounds that there are; nothing when none of them ends it.
unfoldable pub wait_for_exit :
    ℕ → Result ExitStatus String → List Poll → Option (Result Exit String)
unfolding poll_ends
wait_for_exit timeout killed [] = none
wait_for_exit timeout killed (poll ∷ polls) =
    first_end (poll_ends timeout killed poll) (wait_for_exit timeout killed polls)

abbrev pub codex_timeout : ExecutionConfig → ℕ
codex_timeout config = max config.codex_timeout_seconds 1 * 1000000000

-- What a run of the command meets outside: the spawn and the writing of the prompt, the rounds of the
-- wait, the status after a kill, and the two threads that read the pipes, joined.
pub record Run : Type 0 where
  pub started : Result (Unit {0}) String
  pub polls : List Poll
  pub killed : Result ExitStatus String
  pub stdout : Result CappedOutput String
  pub stderr : Result CappedOutput String

module _ (texts : Texts) (decode : List ℕ → String) where
  -- `String::from_utf8_lossy` is the parameter `decode`.
  abbrev output_of :
      Exit
      → Result CappedOutput String
      → Result CappedOutput String
      → Result (CodexCommandOutput texts) String
  output_of exit (err e) stderr = err e
  output_of exit (ok stdout) (err e) = err e
  output_of exit (ok stdout) (ok stderr) = ok (record {
    success = exit.status.success && not exit.timed_out;
    code = exit.status.code;
    stdout = decode stdout.bytes;
    stderr = decode stderr.bytes;
    timed_out = exit.timed_out;
    cancelled = exit.cancelled;
    truncated = stdout.truncated || stderr.truncated;
  })

  abbrev after_wait :
      Run → Option (Result Exit String) → Option (Result (CodexCommandOutput texts) String)
  after_wait run none = none
  after_wait run (some (err e)) = some (err e)
  after_wait run (some (ok exit)) = some (output_of exit run.stdout run.stderr)

  -- Nothing when the rounds that are given do not end the wait.
  unfoldable pub run_codex_command :
      ExecutionConfig → Run → Option (Result (CodexCommandOutput texts) String)
  unfolding wait_for_exit
  run_codex_command config run = elim run.started [
    | err e ↦ some (err e)
    | ok _ ↦ after_wait run (wait_for_exit (codex_timeout config) run.killed run.polls)
  ]

-- whether a round comes after the time is over
unfoldable pub past : ℕ → List Poll → Bool
past timeout [] = false
past timeout (poll ∷ polls) = leb timeout poll.elapsed || past timeout polls

late_poll :
    (timeout : ℕ) (killed : Result ExitStatus String) (poll : Poll)
    → leb timeout poll.elapsed ≡ true
    → is_some (poll_ends timeout killed poll) ≡ true
unfolding poll_ends
late_poll timeout killed poll h = ground (arith, h)

-- The wait ends at the latest in the first round that comes after the time is over.
wait_ends :
    (timeout : ℕ) (killed : Result ExitStatus String) (polls : List Poll)
    → past timeout polls ≡ true
    → is_some (wait_for_exit timeout killed polls) ≡ true
unfolding wait_for_exit past
wait_ends timeout killed [] h = absurd (cc (h))
wait_ends timeout killed (poll ∷ polls) h =
    ground (arith, late_poll timeout killed poll, wait_ends timeout killed polls)
