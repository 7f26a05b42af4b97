-- ===== src/Tests/Bootstrap.antt =====
-- The theorems on the bootstrap protocol at one exchange.
use afkak.Prelude.{◌≡◌, refl, false, none, some, List, [], ◌∷◌, ◌++◌, arith}
use afkak.Prelude.Int.{slice}
use afkak.Result.{ok}
use afkak.Wire.Struct.{Bytes}
use afkak.Protocol.Grouping.{lookup, insert}
use afkak.Bootstrap.{
  mark, cancelled, ignored, time_out, fail_all, Effect, sent, called_back, BootstrapProtocol,
  connection_made, pop, step, receive, lose, ask, Reaches, made, after,
}
use afkak.Bootstrap.Books.{IsCounted, times_fired}
use afkak.Bootstrap.Once.{Reaches-IsCounted, connection_lost_fires}
use afkak.Bootstrap.Correlated.{IsCorrelated, Reaches-IsCorrelated}

-- A request with correlation id 4 5 6 7, its response, and a second request.
abbrev question : Bytes
question = 0 ∷ 1 ∷ 2 ∷ 3 ∷ 4 ∷ 5 ∷ 6 ∷ 7 ∷ 8 ∷ []

abbrev answer : Bytes
answer = 4 ∷ 5 ∷ 6 ∷ 7 ∷ 9 ∷ []

abbrev second : Bytes
second = 0 ∷ 1 ∷ 2 ∷ 3 ∷ 5 ∷ 5 ∷ 5 ∷ 5 ∷ []

abbrev waiting : BootstrapProtocol
waiting = record {
  pending = some ((4 ∷ 5 ∷ 6 ∷ 7 ∷ [], 0) ∷ []);
  failed = none;
  called = λ d. false;
  created = 1;
}

abbrev answered : BootstrapProtocol
answered = record { pending = some []; failed = none; called = mark 0 (λ d. false); created = 1 }

abbrev waiting_again : BootstrapProtocol
waiting_again = record answered { pending = some ((5 ∷ 5 ∷ 5 ∷ 5 ∷ [], 1) ∷ []); created = 2 }

-- The second request is cancelled, and stays pending.
abbrev timed_out : BootstrapProtocol
timed_out = record waiting_again { called = mark 1 answered.called }

abbrev closed : BootstrapProtocol
closed = record timed_out { pending = none; failed = some 7; called = mark 1 timed_out.called }

asks_question : step (ask question) connection_made ≡ ok (waiting, sent 0 question ∷ [])
unfolding step slice lookup insert
asks_question = refl

gets_answer : step (receive answer) waiting ≡ ok (answered, called_back 0 answer ∷ [])
unfolding step slice pop
gets_answer = refl

asks_second : step (ask second) answered ≡ ok (waiting_again, sent 1 second ∷ [])
unfolding step slice lookup insert
asks_second = refl

times_out : step (time_out 1) waiting_again ≡ ok (timed_out, cancelled 1 ∷ [])
unfolding step
times_out = refl

loses : step (lose 7) timed_out ≡ ok (closed, ignored 1 ∷ [])
unfolding step fail_all
loses = refl

abbrev exchange : List Effect
exchange = sent 0 question ∷ called_back 0 answer ∷ sent 1 second ∷ cancelled 1 ∷ []

Reaches-timed_out : Reaches timed_out exchange
Reaches-timed_out =
    let asked_twice =
      after (ask second)
        (after (receive answer) (after (ask question) made tt asks_question) tt gets_answer) tt
        asks_second in
    after (time_out 1) asked_twice (omega arith) times_out

Reaches-IsCounted_example : IsCounted timed_out exchange
Reaches-IsCounted_example = Reaches-IsCounted timed_out exchange Reaches-timed_out

connection_lost_fires_example : times_fired 1 (exchange ++ ignored 1 ∷ []) ≡ 1
connection_lost_fires_example =
    connection_lost_fires timed_out closed exchange (ignored 1 ∷ []) 7 1 Reaches-timed_out loses
      (omega arith)

Reaches-IsCorrelated_example : IsCorrelated timed_out exchange
Reaches-IsCorrelated_example = Reaches-IsCorrelated timed_out exchange Reaches-timed_out
