-- ===== src/BrokerClient/Events.antt =====
-- The events of afkak/brokerclient.py's `_KafkaBrokerClient`: what its users call and what the reactor
-- tells it, and the states and effects that they lead to.
use afkak.Prelude.{ℕ, ◌≡◌, Bool, Option, none, some, List, [], ◌∷◌, ◌++◌, ◌==◌, if◌then◌else◌}
use afkak.Prelude.Int.{ℤ}
use afkak.Result.{ok}
use afkak.Wire.Struct.{Bytes}
use afkak.Protocol.Data.{BrokerMetadata}
use afkak.Dictionary.{one_if, sum_of}
use afkak.BrokerClient.{
  attempt, delay, BrokerClient, new_client, Outcome, Effect, asked, called_back, failed_with,
  update_metadata, make_request, connected, disconnect, close, connection_lost, handle_response,
  cancel_request, connect_failed, try_connect,
}

-- `cancelling` is the cancel() of a deferred, made for a request of that id.
pub data Event : Type 0 where
  making : ℤ → Bytes → Bool → Event
  cancelling : ℤ → ℕ → Event
  updating : BrokerMetadata → Event
  disconnecting closing_down : Event
  connects fails_to_connect delay_ends loses : Event
  receives : Bytes → Event

unfoldable pub step : (Bytes → Option ℕ) → Event → BrokerClient → Outcome
unfolding make_request connected close connection_lost handle_response cancel_request
step send_string (making k request expect) st = make_request send_string k request expect st
step send_string (cancelling k d) st = cancel_request k d st
step send_string (updating metadata) st = update_metadata metadata st
step send_string disconnecting st = disconnect st
step send_string closing_down st = close st
step send_string connects st = ok (connected send_string st)
step send_string fails_to_connect st = ok (connect_failed st)
step send_string delay_ends st = ok (try_connect st)
step send_string loses st = connection_lost st
step send_string (receives response) st = handle_response response st

-- How often a deferred fires in some effects.
abbrev pub fires : ℕ → Effect → ℕ
fires d (called_back e response) = one_if (e == d)
fires d (failed_with e reason) = one_if (e == d)
fires d _ = 0

abbrev pub times_fired : ℕ → List Effect → ℕ
times_fired d log = sum_of (fires d) log

-- The id of the request that a deferred was made for.
abbrev pub or_else {ℓ} : {A : Type ℓ} → Option A → Option A → Option A
or_else none b = b
or_else (some a) b = some a

abbrev pub asks : ℕ → Effect → Option ℤ
asks d (asked e k) = if e == d then some k else none
asks d _ = none

abbrev pub id_of : ℕ → List Effect → Option ℤ
id_of d [] = none
id_of d (x ∷ log) = or_else (asks d x) (id_of d log)

-- When an event can happen: the deferreds of `connector` fire while it is there, a protocol tells of
-- its connection only, and Twisted calls a canceller only before the deferred has fired.
abbrev pub IsPossible : Event → BrokerClient → List Effect → Type 0
IsPossible (cancelling k d) st log = (id_of d log ≡ some k) × (times_fired d log ≡ 0)
IsPossible connects st log = st.connector ≡ some attempt
IsPossible fails_to_connect st log = st.connector ≡ some attempt
IsPossible delay_ends st log = st.connector ≡ some delay
IsPossible loses st log = (conn : ℕ) × (st.proto ≡ some conn)
IsPossible (receives response) st log = (conn : ℕ) × (st.proto ≡ some conn)
IsPossible _ st log = Unit {0}

-- The states that a new client comes to, each with all the effects so far. Events that raise an
-- exception are left out.
pub data Reaches (send_string : Bytes → Option ℕ) (metadata : BrokerMetadata)
    : BrokerClient → List Effect → Type 0 where
  made : Reaches send_string metadata (new_client metadata) []
  after :
      {st next : BrokerClient} {log out : List Effect} (e : Event)
      → Reaches send_string metadata st log
      → IsPossible e st log
      → step send_string e st ≡ ok (next, out)
      → Reaches send_string metadata next (log ++ out)
