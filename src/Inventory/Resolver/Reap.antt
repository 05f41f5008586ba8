-- ===== src/Inventory/Resolver/Reap.antt =====
-- Which retired workers are left.
use chaop.Base.{
  ◌≡◌, refl, arith, ℕ, zero, suc, ◌≤◌, ◌==◌, Bool, false, not, ◌&&◌, ◌||◌, List, [], ◌∷◌, length,
}
use chaop.Inventory.Resolver.{AppServerResolverState, last_first, reap_loop, reap_finished_workers}

abbrev pub has_worker : ℕ → List ℕ → Bool
has_worker g [] = false
has_worker g (w ∷ ws) = (w == g) || has_worker g ws

length-last_first : (ws : List ℕ) → length (last_first ws) ≡ length ws
unfolding last_first
length-last_first [] = refl
length-last_first (w ∷ ws) = ground (arith, length-last_first ws)

has_worker-last_first : (g : ℕ) (ws : List ℕ) → has_worker g (last_first ws) ≡ has_worker g ws
unfolding last_first
has_worker-last_first g [] = refl
has_worker-last_first g (w ∷ ws) = ground (arith, has_worker-last_first g ws)

pub length-reap_loop :
    (left : ℕ) (finished : ℕ → Bool) (ws : List ℕ) → length (reap_loop left finished ws) ≤ length ws
unfolding reap_loop
length-reap_loop zero finished ws = omega arith
length-reap_loop (suc left) finished [] = omega arith
length-reap_loop (suc left) finished (w ∷ ws) = ground (
  arith,
  length-reap_loop left finished ws,
  length-reap_loop left finished (last_first ws),
  length-last_first ws,
)

has_worker-reap_loop :
    (left : ℕ) (finished : ℕ → Bool) (g : ℕ) (ws : List ℕ)
    → length ws ≤ left
    → has_worker g (reap_loop left finished ws) ≡ (not (finished g) && has_worker g ws)
unfolding reap_loop
has_worker-reap_loop zero finished g [] h = ground arith
has_worker-reap_loop zero finished g (w ∷ ws) h = absurd (omega (arith, h))
has_worker-reap_loop (suc left) finished g [] h = ground arith
has_worker-reap_loop (suc left) finished g (w ∷ ws) h = ground (
  arith,
  has_worker-reap_loop left finished g ws,
  has_worker-reap_loop left finished g (last_first ws),
  length-last_first ws,
  has_worker-last_first g ws,
)

-- After the finished workers are reaped, a worker is still among the retired ones exactly when it was
-- one and has not finished; the active worker and the next generation are as before.
pub reap-exact :
    (finished : ℕ → Bool) (g : ℕ) (state : AppServerResolverState)
    → (has_worker g (reap_finished_workers finished state).retired
        ≡ (not (finished g) && has_worker g state.retired))
      × ((reap_finished_workers finished state).active ≡ state.active)
      × ((reap_finished_workers finished state).next_generation ≡ state.next_generation)
unfolding reap_finished_workers
reap-exact finished g state =
    (has_worker-reap_loop (length state.retired) finished g state.retired (omega arith), refl, refl)
