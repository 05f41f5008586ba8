-- ===== src/Shutdown.antt =====
-- The signals that ask the agent to stop (crates/agent/src/shutdown.rs), on Unix: the statics as a state,
-- and the answers of the system as an argument: nothing, or the number of the error.
use chaop.Base.{
  ◌≡◌, refl, arith, ℕ, ◌==◌, Bool, true, Option, none, some, if◌then◌else◌, Result, ok, err,
  unwrap_or,
}

pub record Shutdown : Type 0 where
  pub shutdown_requested : Bool
  pub installed : Bool
  pub install_error : ℕ

abbrev pub einval : ℕ
einval = 22

-- The two calls for a signal fail, or not; an error has a number, or not.
pub record SignalCalls : Type 0 where
  pub sigemptyset : Option (Option ℕ)
  pub sigaction : Option (Option ℕ)

abbrev or_next : Option (Option ℕ) → Option (Option ℕ) → Option (Option ℕ)
or_next none next = next
or_next (some e) next = some e

unfoldable pub install_unix_signal_handler : SignalCalls → Option (Option ℕ)
install_unix_signal_handler calls = or_next calls.sigemptyset calls.sigaction

unfoldable pub install_unix_signal_handlers : SignalCalls → SignalCalls → Option (Option ℕ)
unfolding install_unix_signal_handler
install_unix_signal_handlers sigint sigterm =
    or_next (install_unix_signal_handler sigint) (install_unix_signal_handler sigterm)

abbrev stored : Option (Option ℕ) → Shutdown → Shutdown
stored none s = record s { installed = true }
stored (some e) s = record s { installed = true; install_error = unwrap_or e einval }

abbrev answer_of : ℕ → Result (Unit {0}) ℕ
answer_of code = if code == 0 then ok tt else err code

-- The handlers are installed once; every call answers what came of that.
unfoldable pub install_signal_handlers :
    SignalCalls → SignalCalls → Shutdown → Result (Unit {0}) ℕ × Shutdown
unfolding install_unix_signal_handlers
install_signal_handlers sigint sigterm s =
    let s' = if s.installed then s else stored (install_unix_signal_handlers sigint sigterm) s in
    (answer_of s'.install_error, s')

unfoldable pub handle_unix_shutdown_signal : Shutdown → Shutdown
handle_unix_shutdown_signal s = record s { shutdown_requested = true }

stored-installed : (e : Option (Option ℕ)) (s : Shutdown) → (stored e s).installed ≡ true
stored-installed none s = refl
stored-installed (some e) s = refl

-- A second installation, whatever the system would answer to it, has the answer of the first one and
-- changes nothing.
installed_once :
    (sigint sigterm sigint' sigterm' : SignalCalls) (s : Shutdown)
    → install_signal_handlers sigint' sigterm' (install_signal_handlers sigint sigterm s).1
      ≡ install_signal_handlers sigint sigterm s
unfolding install_signal_handlers
installed_once sigint sigterm sigint' sigterm' s =
    ground (arith, stored-installed (install_unix_signal_handlers sigint sigterm) s)
