-- ===== src/BrokerClient/Reached.antt =====
-- The invariant of afkak/brokerclient.py's client in every state that it comes to.
use afkak.Prelude.{ℕ, ◌≡◌, refl, Option, List, [], ◌++◌, arith}
use afkak.Result.{ok}
use afkak.Wire.Struct.{Bytes}
use afkak.Protocol.Grouping.{ℤ_eq}
use afkak.Protocol.Data.{BrokerMetadata}
use afkak.BrokerClient.{BrokerClient, new_client, Effect, connecting, try_connect}
use afkak.BrokerClient.Events.{
  Event, making, cancelling, updating, disconnecting, closing_down, connects, fails_to_connect,
  delay_ends, loses, receives, step, IsPossible, Reaches, made, after,
}
use afkak.BrokerClient.Change.{Invariant}
use afkak.BrokerClient.Steps.{IsQuiet-cons, IsQuiet-nil}
use afkak.BrokerClient.Making.{make_request-Invariant}
use afkak.BrokerClient.Kept.{
  connected-Invariant, quiet-Invariant, close-Invariant, connection_lost-Invariant,
  handle_response-Invariant, update_metadata-Invariant, disconnect-Invariant,
  connect_failed-Invariant, cancel_request-Invariant,
}

new_client-Invariant : (metadata : BrokerMetadata) → Invariant (new_client metadata) []
new_client-Invariant metadata = record {
  once = λ d. ground arith;
  keyed = λ k. omega arith;
  held = λ d. omega arith;
  known = refl;
  fresh = λ d h. refl;
  flags = tt;
  ordered = omega arith;
  numbered = λ c h. cc h;
  wrote = λ c d. ground arith;
}

module _ {st : BrokerClient} {log : List Effect} (i : Invariant st log) {next : BrokerClient}
    {out : List Effect} where
  -- Every event keeps the invariant.
  step-Invariant :
      (send_string : Bytes → Option ℕ) (e : Event)
      → IsPossible e st log
      → step send_string e st ≡ ok (next, out)
      → Invariant next (log ++ out)
  unfolding step
  step-Invariant send_string (making k request expect) p h =
      make_request-Invariant i send_string k request expect h
  step-Invariant send_string (cancelling k d) p h = cancel_request-Invariant i k d p.0 p.1 h
  step-Invariant send_string (updating metadata) p h = update_metadata-Invariant i metadata h
  step-Invariant send_string disconnecting p h = disconnect-Invariant i h
  step-Invariant send_string closing_down p h = close-Invariant i h
  step-Invariant send_string connects p h = connected-Invariant i send_string h
  step-Invariant send_string fails_to_connect p h = connect_failed-Invariant i h
  step-Invariant send_string delay_ends p h =
      quiet-Invariant i (try_connect st).0 (try_connect st).1 refl refl refl refl
        (IsQuiet-cons (connecting st.metadata) [] tt IsQuiet-nil) h
  step-Invariant send_string loses p h = connection_lost-Invariant i h
  step-Invariant send_string (receives response) p h = handle_response-Invariant i response h

-- Every state that a new client comes to has the invariant.
pub Reaches-Invariant :
    (send_string : Bytes → Option ℕ) (metadata : BrokerMetadata) {st : BrokerClient}
    {log : List Effect}
    → Reaches send_string metadata st log
    → Invariant st log
Reaches-Invariant send_string metadata made = new_client-Invariant metadata
Reaches-Invariant send_string metadata (after e before possible done) =
    step-Invariant (Reaches-Invariant send_string metadata before) send_string e possible done
