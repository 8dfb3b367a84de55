-- ===== src/Crypto/VectorClock/Tests.antt =====
-- Runs and instances for `VectorClock`, src/crypto/phase_shift.rs.
use fluidic_node.Prelude.{◌≡◌, ◌↔◌, refl, true, [], ◌∷◌, nat_eq, pair_eq, list_eq}
use fluidic_node.Crypto.VectorClock.{VectorClock, happened_before, concurrent_with}
use fluidic_node.Crypto.VectorClock.Order.{Precedes, happened_before_iff}

abbrev early : VectorClock
early = (1, 2) ∷ []

abbrev late : VectorClock
late = (2, 1) ∷ (1, 3) ∷ []

abbrev aside : VectorClock
aside = (3, 1) ∷ []

early-late : happened_before early late ≡ true
unfolding happened_before
early-late = refl

early-aside : concurrent_with early aside ≡ true
unfolding happened_before concurrent_with
early-aside = refl

happened_before_iff_example : (happened_before early late ≡ true) ↔ Precedes early late
happened_before_iff_example = happened_before_iff early late (refl, tt) (refl, (refl, tt))
