-- ===== src/Tests/Assignment.antt =====
-- The theorem on assignments at a group of two members.
use afkak.Prelude.{◌≡◌, refl, none, List, [], ◌∷◌, arith}
use afkak.Prelude.Int.{ℤ, pos}
use afkak.Result.{ok}
use afkak.Wire.Text.{Text}
use afkak.Protocol.Grouping.{Dict, lookup, insert}
use afkak.Assignment.{Members, Assignment, round_robin_assignment}
use afkak.Assignment.Shares.{IsShared, round_robin_assignment_lem}
use afkak.Tests.{hi}

abbrev other_topic : Text
other_topic = 0x6f ∷ []

-- Members "b" and "a", of whom only "b" has subscribed to both topics.
abbrev group : Members
group =
    (0x62 ∷ [], record { version = pos 0; subscriptions = hi ∷ other_topic ∷ []; user_data = none })
    ∷ (0x61 ∷ [], record { version = pos 0; subscriptions = hi ∷ []; user_data = none })
    ∷ []

abbrev known_partitions : Dict Text (List ℤ)
known_partitions = (other_topic, pos 0 ∷ []) ∷ (hi, pos 1 ∷ pos 0 ∷ pos 2 ∷ []) ∷ []

abbrev expected : Assignment
expected =
    (0x61 ∷ [], (hi, pos 0 ∷ pos 2 ∷ []) ∷ [])
    ∷ (0x62 ∷ [], (hi, pos 1 ∷ []) ∷ (other_topic, pos 0 ∷ []) ∷ [])
    ∷ []

group_assignment : round_robin_assignment group known_partitions ≡ ok expected
unfolding round_robin_assignment lookup insert
group_assignment = refl

round_robin_assignment_lem_example :
    (assignment : Assignment) × (round_robin_assignment group known_partitions ≡ ok assignment)
    × IsShared group known_partitions assignment
unfolding lookup
round_robin_assignment_lem_example =
    round_robin_assignment_lem group known_partitions ((refl, tt), (tt, tt)) (omega arith)
      ((pos 1 ∷ pos 0 ∷ pos 2 ∷ [], refl), ((pos 0 ∷ [], refl), tt))
