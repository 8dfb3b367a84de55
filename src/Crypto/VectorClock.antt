-- ===== src/Crypto/VectorClock.antt =====
-- `VectorClock`, src/crypto/phase_shift.rs. Node ids are numbers: they are only compared.
pub mod Order
pub mod Update
mod Tests
use fluidic_node.Prelude.{
  ℕ, Bool, [], ◌∷◌, ◌&&◌, not, max, ltb, leb, all, any, add_u64, nat_eq, pair_eq, list_eq,
}
use fluidic_node.Prelude.Map.{Map, lookup, update, unwrap_or}

abbrev pub VectorClock : Type 0
VectorClock = Map ℕ ℕ

abbrev pub new : VectorClock
new = []

abbrev pub get : VectorClock → ℕ → ℕ
get c node = unwrap_or (lookup node c) 0

-- `tick` returns the clock that it wrote and the new time.
unfoldable pub tick : ℕ → VectorClock → VectorClock × ℕ
tick node c = let c' = update node 0 (λ t. add_u64 t 1) c in (c', get c' node)

unfoldable pub merge : VectorClock → VectorClock → VectorClock
merge c [] = c
merge c ((node, time) ∷ other) = merge (update node 0 (λ t. max t time) c) other

unfoldable pub happened_before : VectorClock → VectorClock → Bool
happened_before c other =
    all (λ e. leb e.1 (get other e.0)) c && any (λ e. ltb (get c e.0) e.1) other

unfoldable pub concurrent_with : VectorClock → VectorClock → Bool
concurrent_with c other = not (happened_before c other) && not (happened_before other c)
