-- ===== src/Manager/Calls.antt =====
-- What the connector calls of the manager (crates/agent/src/app_server_manager.rs), as a list.
use chaop.Base.{ℕ, ◌-◌, List, [], ◌∷◌, ◌>>◌, done, saturating_add, u32_max}
use chaop.Config.{AgentConfig}
use chaop.Manager.Host.{Host, M}
use chaop.Manager.Runtime.{
  runtime_config, runtime_config_without_start, runtime_config_during_active_turn,
  instance_snapshot, begin_turn, finish_turn,
}

pub data Call : Type 0 where
  runtimes probes actives snapshots : AgentConfig → Call
  begins finishes : Call

module _ (host : Host) where
  unfoldable pub call : Call → M host (Unit {0})
  call (runtimes config) = runtime_config host config >> done
  call (probes config) = runtime_config_without_start host config >> done
  call (actives config) = runtime_config_during_active_turn host config >> done
  call (snapshots config) = instance_snapshot host config >> done
  call begins = begin_turn host
  call finishes = finish_turn host

  unfoldable pub run : List Call → M host (Unit {0})
  run [] = done
  run (c ∷ cs) = call c >> run cs

-- The turns that are active after a list of calls.
abbrev pub turns_after : ℕ → List Call → ℕ
turns_after n [] = n
turns_after n (begins ∷ cs) = turns_after (saturating_add u32_max n 1) cs
turns_after n (finishes ∷ cs) = turns_after (n - 1) cs
turns_after n (_ ∷ cs) = turns_after n cs
