-- ===== src/Tests/BrokerClient.antt =====
-- The theorems on the client of a broker at one run: two requests over two connections.
use afkak.Prelude.{
  ℕ, ◌+◌, ◌≤◌, ◌≡◌, refl, Bool, true, false, Option, none, some, List, [], ◌∷◌, ◌++◌, arith, ltb,
}
use afkak.Prelude.Int.{ℤ, pos, slice}
use afkak.Result.{ok}
use afkak.Wire.Struct.{Bytes, unpack, from_be}
use afkak.Wire.Reader.{relative_unpack}
use afkak.Protocol.Data.{BrokerMetadata}
use afkak.Protocol.Grouping.{lookup, insert}
use afkak.Protocol.Responses.{get_response_correlation_id}
use afkak.Dictionary.{one_if, sum_of}
use afkak.BrokerClient.{
  RequestState, BrokerClient, new_client, Effect, asked, connecting, written, called_back,
  failed_with, lose_connection, client_closed, attempt, closing, new_request, connected, close,
  connection_lost, handle_response,
}
use afkak.BrokerClient.Events.{
  step, Reaches, made, after, making, cancelling, connects, times_fired, id_of,
}
use afkak.BrokerClient.Counting.{waiting}
use afkak.BrokerClient.Written.{times_written}
use afkak.BrokerClient.Promises.{deferred_once, request_once, close-fired, handle_response-fired}
use afkak.BrokerClient.Resent.{writings, outstanding, IsRising, connected-connection_lost}
use afkak.BrokerClient.Linked.{IsLinked}
use afkak.BrokerClient.Safe.{Reaches-IsLinked, Reaches-IsSafe, IsSafe}

abbrev sends : Bytes → Option ℕ
sends request = none

abbrev broker : BrokerMetadata
broker = record { node_id = pos 1; host = []; port = pos 9092 }

abbrev entry : Bool → ℕ → Bytes → ℤ → RequestState
entry sent d request k = record (new_request k request true d) { sent = sent }

abbrev requests : Bool → List (ℤ × RequestState)
requests sent =
    (pos 7, entry sent 0 (b'a' ∷ []) (pos 7)) ∷ (pos 8, entry sent 1 (b'b' ∷ []) (pos 8)) ∷ []

abbrev asking : BrokerClient
asking = record (new_client broker) {
  connector = some attempt;
  requests = (pos 7, entry false 0 (b'a' ∷ []) (pos 7)) ∷ [];
  created = 1;
}

abbrev asking_two : BrokerClient
asking_two = record asking { requests = requests false; created = 2 }

abbrev sent_two : BrokerClient
sent_two = record asking_two {
  connector = none;
  proto = some 0;
  connections = 1;
  requests = requests true;
}

abbrev log : List Effect
log =
    (((asked 0 (pos 7) ∷ connecting broker ∷ []) ++ asked 1 (pos 8) ∷ [])
      ++ (written 0 0 (b'a' ∷ []) ∷ written 0 1 (b'b' ∷ []) ∷ []))

asks_first :
    step sends (making (pos 7) (b'a' ∷ []) true) (new_client broker)
    ≡ ok (asking, asked 0 (pos 7) ∷ connecting broker ∷ [])
unfolding step lookup insert
asks_first = refl

asks_second :
    step sends (making (pos 8) (b'b' ∷ []) true) asking ≡ ok (asking_two, asked 1 (pos 8) ∷ [])
unfolding step lookup insert
asks_second = refl

is_connected :
    step sends connects asking_two
    ≡ ok (sent_two, written 0 0 (b'a' ∷ []) ∷ written 0 1 (b'b' ∷ []) ∷ [])
unfolding step
is_connected = refl

both_sent : Reaches sends broker sent_two log
both_sent =
    after connects
      (after (making (pos 8) (b'b' ∷ []) true)
        (after (making (pos 7) (b'a' ∷ []) true) made tt asks_first) tt asks_second)
      refl is_connected

-- What the client does to the second request when the connection is lost.
abbrev lost_both : BrokerClient
lost_both = record sent_two { proto = none; connector = some attempt; requests = requests false }

is_lost : connection_lost sent_two ≡ ok (lost_both, connecting broker ∷ [])
unfolding connection_lost
is_lost = refl

abbrev reply : Bytes
reply = 0 ∷ 0 ∷ 0 ∷ 8 ∷ b'x' ∷ []

is_answered :
    handle_response reply sent_two
    ≡ ok (
      record sent_two { requests = (pos 7, entry true 0 (b'a' ∷ []) (pos 7)) ∷ [] },
      called_back 1 (some reply) ∷ [],
    )
unfolding handle_response lookup get_response_correlation_id relative_unpack unpack slice from_be
is_answered = refl

is_closed :
    close sent_two
    ≡ ok (
      record sent_two { down = closing; requests = [] },
      lose_connection 0 ∷ failed_with 1 client_closed ∷ failed_with 0 client_closed ∷ [],
    )
unfolding close
is_closed = refl

deferred_once_example : times_fired 1 log + sum_of (waiting 1) (requests true) ≡ one_if (ltb 1 2)
deferred_once_example = deferred_once sends broker both_sent 1

request_once_example : times_written 0 1 log ≤ 1
request_once_example = request_once sends broker both_sent 0 1

close-fired_example :
    times_fired 1
      (log ++ (lose_connection 0 ∷ failed_with 1 client_closed ∷ failed_with 0 client_closed ∷ []))
    ≡ 1
close-fired_example = close-fired sends broker both_sent 1 is_closed (omega arith)

handle_response-fired_example :
    (k : ℤ) × (get_response_correlation_id reply ≡ ok k)
    × (id_of 1 log ≡ some k)
    × (times_fired 1 log ≡ 0)
    × (◌≡◌ {A = List Effect} (called_back 1 (some reply) ∷ []) (called_back 1 (some reply) ∷ []))
handle_response-fired_example =
    handle_response-fired sends broker both_sent reply 1 is_answered (omega arith)

connected-connection_lost_example :
    (writings (connected sends lost_both).1 ≡ outstanding 1 (requests true))
    × IsRising 0 (writings (connected sends lost_both).1)
connected-connection_lost_example =
    connected-connection_lost sends (λ b. refl) broker both_sent is_lost refl

Reaches-IsLinked_example : IsLinked sent_two
Reaches-IsLinked_example = Reaches-IsLinked sends broker both_sent

Reaches-IsSafe_example : IsSafe (step sends (cancelling (pos 8) 1) sent_two)
Reaches-IsSafe_example = Reaches-IsSafe sends broker (cancelling (pos 8) 1) both_sent (refl, refl)
