-- ===== src/Export/Collected.antt =====
-- `collect_values` of gateway-board/src/export.rs: what is collected of the queue, and what is left.
use sensor_sensei.Common.{
  ℕ, zero, suc, ◌≤◌, ◌<◌, List, [], ◌∷◌, ◌++◌, Option, none, some, length, take, drop,
  take-append-drop, length-take, length-drop, concat, All, ◌≡◌, refl, ap, ◌∙◌, arith,
}
use sensor_sensei.App.Packet.{SensorValuePoint}
use sensor_sensei.Export.{try_collect, collect_values}

try_collect-take :
    (n : ℕ) (queue : List SensorValuePoint) → try_collect n queue ≡ (take n queue, drop n queue)
try_collect-take zero queue = refl
try_collect-take (suc n) [] = refl
try_collect-take (suc n) (value ∷ queue) = rw (try_collect-take n queue) refl

collect_values-empty : (n : ℕ) → collect_values n [] ≡ none
unfolding collect_values
collect_values-empty n = refl

pub collect_values-take :
    (n : ℕ) (value : SensorValuePoint) (queue : List SensorValuePoint)
    → collect_values (suc n) (value ∷ queue)
      ≡ some (take (suc n) (value ∷ queue), drop (suc n) (value ∷ queue))
unfolding collect_values
collect_values-take n value queue = rw (try_collect-take n queue) refl

-- The batch of a round, and those of the later ones.
abbrev pub batches :
    Option (List SensorValuePoint × List SensorValuePoint)
    → (List SensorValuePoint → List (List SensorValuePoint))
    → List (List SensorValuePoint)
batches none more = []
batches (some (values, left)) more = values ∷ more left

-- Rounds of collecting into a buffer of `n` values, until the queue is empty.
unfoldable pub collect_all : ℕ → ℕ → List SensorValuePoint → List (List SensorValuePoint)
collect_all n zero queue = []
collect_all n (suc rounds) queue = batches (collect_values n queue) (collect_all n rounds)

-- The rounds take every value of the queue once and in its order, in batches that are not empty and
-- fit into the buffer.
pub collect_all-whole :
    (n rounds : ℕ) (queue : List SensorValuePoint)
    → length queue ≤ rounds
    → (concat (collect_all (suc n) rounds queue) ≡ queue)
      × All
          (λ values. (0 < length values) × (length values ≤ suc n))
          (collect_all (suc n) rounds queue)
unfolding collect_all
collect_all-whole n zero [] enough = (refl, tt)
collect_all-whole n zero (value ∷ queue) enough = absurd (omega arith)
collect_all-whole n (suc rounds) [] enough = rw (collect_values-empty (suc n)) (refl, tt)
collect_all-whole n (suc rounds) (value ∷ queue) enough =
    let all : List SensorValuePoint = value ∷ queue in
    let (same, fit) =
      collect_all-whole n rounds (drop (suc n) all) (omega (arith, length-drop n queue)) in
    rw (collect_values-take n value queue) (
      ap (λ (vs : List SensorValuePoint). take (suc n) all ++ vs) same
          ∙ take-append-drop (suc n) all,
      ((omega arith, omega (arith, length-take n queue)), fit),
    )
