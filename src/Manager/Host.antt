-- ===== src/Manager/Host.antt =====
-- What the manager needs of the machine that it runs on, and the monad of its operations: the
-- manager's record and the world are passed on explicitly.
use chaop.Base.{
  ℕ, ◌+◌, leb, String, Bool, Option, none, some, List, Result, if◌then◌else◌, Stateful,
}
use chaop.Config.Url.{Urls}
use chaop.Manager.Types.{AppServerManager}

-- `std::io::Error`: its text, its OS code and whether its kind is `InvalidInput`.
pub record IoError : Type 0 where
  pub text : String
  pub raw_os_error : Option ℕ
  pub invalid_input : Bool

-- The command line of a child, as `std::process::Command` is told it.
pub record Command : Type 0 where
  pub program : String
  pub args : List String
  pub current_dir : String
  pub codex_home : Option String
  pub process_group : ℕ

pub data Signal : Type 0 where
  sigterm sigkill : Signal

-- The operating system, the clock and the health check over the network. Each call leaves another
-- world; `clock` is the time at which a world stands.
pub record Host : Type 1 where
  pub World : Type 0
  pub Child : Type 0
  pub urls : Urls
  pub instant_max : ℕ
  pub clock : World → ℕ
  pub read_clock : World → World
  pub sleep : ℕ → World → World
  pub shutdown_requested : World → Bool
  pub health_check : String → ℕ → Option String → World → Result (Unit {0}) String × World
  pub try_wait : Child → World → Result (Option String) IoError × World
  pub wait : Child → World → Result (Unit {0}) IoError × World
  pub kill : Child → World → World
  pub kill_group : Child → Signal → World → Result (Unit {0}) IoError × World
  pub spawn : Command → World → Result Child IoError × World
  pub modified : String → World → Option ℕ × World

module _ (host : Host) where
  pub record State : Type 0 where
    pub manager : AppServerManager host.Child
    pub world : host.World

  abbrev pub M : Type 0 → Type 0
  M A = Stateful State A

  -- `Instant::now()`.
  unfoldable pub now : M ℕ
  now s = (host.clock (host.read_clock s.world), record s { world = host.read_clock s.world })

  -- A call that touches the world only.
  unfoldable pub outside : {A : Type 0} → (host.World → A × host.World) → M A
  outside f s = let (a, w) = f s.world in (a, record s { world = w })

  unfoldable pub update : (AppServerManager host.Child → AppServerManager host.Child) → M (Unit {0})
  update f s = (tt, record s { manager = f s.manager })

-- `Instant::checked_add`.
abbrev pub checked_add : Host → ℕ → ℕ → Option ℕ
checked_add host t d = if leb (t + d) host.instant_max then some (t + d) else none
