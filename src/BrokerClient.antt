-- ===== src/BrokerClient.antt =====
-- afkak/brokerclient.py: `_KafkaBrokerClient`, the requests to one broker over its connections.
--
-- A method is a function from the state to the next state and its effects. What the callbacks of a
-- deferred do in turn is another event. A time that is only compared with None is a Boolean.
pub mod Events
pub mod Counting
pub mod Order
pub mod Written
pub mod Change
pub mod Steps
pub mod Losses
pub mod Connects
pub mod Answers
pub mod Making
pub mod Kept
pub mod Reached
pub mod Linked
pub mod Safe
pub mod Promises
pub mod Resent
use afkak.Prelude.{
  ℕ, suc, Bool, true, false, Option, none, some, List, [], ◌∷◌, ◌++◌, if◌then◌else◌,
}
use afkak.Prelude.Int.{ℤ, eqb_ℤ}
use afkak.Result.{
  Result, ok, err, value_error, assertion_error, key_error, duplicate_request, already_called,
  ◌>>=◌,
}
use afkak.Wire.Struct.{Bytes}
use afkak.Protocol.Data.{BrokerMetadata}
use afkak.Protocol.Grouping.{Dict, ℤ_eq, lookup, insert}
use afkak.Protocol.Responses.{get_response_correlation_id}
use afkak.Dictionary.{delete}

-- Why a deferred fails.
pub data Reason : Type 0 where
  client_closed cancelled_error : Reason
  send_failed : ℕ → Reason

-- _RequestState; `d` is the number of its deferred.
pub record RequestState : Type 0 where
  pub correlation_id : ℤ
  pub request : Bytes
  pub expect_response : Bool
  pub d : ℕ
  pub sent : Bool
  pub cancelled : Bool

-- What `connector` is: the deferred of an attempt to connect, of the delay before the next, or one
-- that close() has cancelled.
pub data Connector : Type 0 where
  attempt delay stopped : Connector

-- `_dDown`: None, a deferred, and a deferred that has fired.
pub data Down : Type 0 where
  up closing closed : Down

-- `connections` counts the protocols so far, `created` the deferreds.
pub record BrokerClient : Type 0 where
  pub metadata : BrokerMetadata
  pub connector : Option Connector
  pub proto : Option ℕ
  pub requests : Dict ℤ RequestState
  pub down : Down
  pub failures : ℕ
  pub connections : ℕ
  pub created : ℕ

-- The effects on deferreds, connections and the reactor. `asked` is the making of a deferred for a
-- request, and `written` the sending of its request over a connection.
pub data Effect : Type 0 where
  asked : ℕ → ℤ → Effect
  written : ℕ → ℕ → Bytes → Effect
  called_back : ℕ → Option Bytes → Effect
  failed_with : ℕ → Reason → Effect
  lose_connection : ℕ → Effect
  connecting : BrokerMetadata → Effect
  retry_after : ℕ → Effect
  cancel_connector : Effect
  down_fired : Effect

abbrev pub new_client : BrokerMetadata → BrokerClient
new_client metadata = record {
  metadata = metadata;
  connector = none;
  proto = none;
  requests = [];
  down = up;
  failures = 0;
  connections = 0;
  created = 0;
}

abbrev pub Outcome : Type 0
Outcome = Result (BrokerClient × List Effect)

-- _sendRequest: what is left of the entry, and the effects; first where sendString returned, by
-- `expect_response`. The third argument of `sent_with` tells what Twisted's sendString raises, if it
-- does.
abbrev pub after_write : ℕ → RequestState → Bool → Option RequestState × List Effect
after_write conn r true = (some (record r { sent = true }), written conn r.d r.request ∷ [])
after_write conn r false = (none, written conn r.d r.request ∷ called_back r.d none ∷ [])

abbrev pub sent_with : ℕ → RequestState → Option ℕ → Option RequestState × List Effect
sent_with conn r (some e) = (none, failed_with r.d (send_failed e) ∷ [])
sent_with conn r none = after_write conn r r.expect_response

abbrev pub keep_entry : ℤ → Option RequestState → Dict ℤ RequestState → Dict ℤ RequestState
keep_entry k none d = d
keep_entry k (some r) d = (k, r) ∷ d

-- An entry is set, or, after it was set, deleted again.
abbrev pub set_entry : ℤ → Option RequestState → Dict ℤ RequestState → Dict ℤ RequestState
set_entry k none d = d
set_entry k (some r) d = insert k r d

-- tryConnect, and _connect.
abbrev pub try_connect : BrokerClient → BrokerClient × List Effect
try_connect st = (record st { connector = some attempt }, connecting st.metadata ∷ [])

abbrev pub connect : BrokerClient → BrokerClient × List Effect
connect st = try_connect (record st { failures = 0 })

-- updateMetadata
abbrev pub update_metadata : BrokerMetadata → BrokerClient → Outcome
update_metadata new st =
    if eqb_ℤ st.metadata.node_id new.node_id
    then ok (record st { metadata = new }, [])
    else err value_error

abbrev pub new_request : ℤ → Bytes → Bool → ℕ → RequestState
new_request correlation_id request expect_response d = record {
  correlation_id = correlation_id;
  request = request;
  expect_response = expect_response;
  d = d;
  sent = false;
  cancelled = false;
}

abbrev pub queued : ℤ → RequestState → BrokerClient → BrokerClient
queued k r st = record st { requests = insert k r st.requests; created = suc st.created }

abbrev pub connect_if_idle : Option Connector → BrokerClient → BrokerClient × List Effect
connect_if_idle none st = connect st
connect_if_idle (some c) st = (st, [])

module _ (send_string : Bytes → Option ℕ) where
  abbrev pub send_request : ℕ → RequestState → Option RequestState × List Effect
  send_request conn r = sent_with conn r (send_string r.request)

  -- _sendQueued. Each request stands under its own id, so that the loop over a copy of the values
  -- is a pass over the dictionary.
  unfoldable pub send_queued : ℕ → Dict ℤ RequestState → Dict ℤ RequestState × List Effect
  send_queued conn [] = ([], [])
  send_queued conn ((k, r) ∷ d) =
      let rest = send_queued conn d in
      if r.sent
      then ((k, r) ∷ rest.0, rest.1)
      else (keep_entry k (send_request conn r).0 rest.0, (send_request conn r).1 ++ rest.1)

  abbrev pub sent_or_queued :
      ℤ → RequestState → Option ℕ → BrokerClient → BrokerClient × List Effect
  sent_or_queued k r (some conn) st = (
    record st {
      requests = set_entry k (send_request conn r).0 st.requests;
      created = suc st.created;
    },
    asked r.d k ∷ (send_request conn r).1,
  )
  sent_or_queued k r none st =
      let next = connect_if_idle st.connector (queued k r st) in (next.0, asked r.d k ∷ next.1)

  -- The deferred that fail() makes for a closed client.
  abbrev pub accepted : ℤ → RequestState → Down → BrokerClient → BrokerClient × List Effect
  accepted k r up st = sent_or_queued k r st.proto st
  accepted k r closing st =
      (record st { created = suc st.created }, asked r.d k ∷ failed_with r.d client_closed ∷ [])
  accepted k r closed st =
      (record st { created = suc st.created }, asked r.d k ∷ failed_with r.d client_closed ∷ [])

  abbrev pub unless_duplicate : ℤ → RequestState → Option RequestState → BrokerClient → Outcome
  unless_duplicate k r (some other) st = err duplicate_request
  unless_duplicate k r none st = ok (accepted k r st.down st)

  -- makeRequest
  unfoldable pub make_request : ℤ → Bytes → Bool → BrokerClient → Outcome
  make_request correlation_id request expect_response st =
      unless_duplicate correlation_id
        (new_request correlation_id request expect_response st.created)
        (lookup correlation_id st.requests) st

  -- cbConnect
  abbrev pub connected_as : ℕ → Down → BrokerClient → BrokerClient × List Effect
  connected_as conn up st =
      let rest = send_queued conn st.requests in
      (
        record st {
          failures = 0;
          connector = none;
          proto = some conn;
          connections = suc conn;
          requests = rest.0;
        },
        rest.1,
      )
  connected_as conn _ st = (
    record st { failures = 0; connector = none; proto = some conn; connections = suc conn },
    lose_connection conn ∷ [],
  )

  unfoldable pub connected : BrokerClient → BrokerClient × List Effect
  unfolding send_queued
  connected st = connected_as st.connections st.down st

-- disconnect
abbrev pub lose : Option ℕ → List Effect
lose none = []
lose (some conn) = lose_connection conn ∷ []

abbrev pub disconnect : BrokerClient → Outcome
disconnect st = ok (st, lose st.proto)

-- The failing of all requests, from the last on, but for those that were cancelled.
abbrev pub fail_entry : RequestState → List Effect
fail_entry r = if r.cancelled then [] else failed_with r.d client_closed ∷ []

abbrev pub fail_requests : Dict ℤ RequestState → List Effect
fail_requests [] = []
fail_requests ((k, r) ∷ d) = fail_requests d ++ fail_entry r

-- What close() does to the connection or to the connector. A cancelled connector fails at once, and
-- its errback is that of close().
abbrev pub close_connection : Option ℕ → Option Connector → (Down × Option Connector) × List Effect
close_connection (some conn) connector = ((closing, connector), lose_connection conn ∷ [])
close_connection none (some c) = ((closed, some stopped), cancel_connector ∷ down_fired ∷ [])
close_connection none none = ((closed, none), down_fired ∷ [])

abbrev pub closed_with : Down → Option ℕ → Option Connector → BrokerClient → Outcome
closed_with up proto connector st =
    let next = close_connection proto connector in
    ok (
      record st { down = next.0.0; connector = next.0.1; requests = [] },
      next.1 ++ fail_requests st.requests,
    )
closed_with _ proto connector st = err assertion_error

unfoldable pub close : BrokerClient → Outcome
close st = closed_with st.down st.proto st.connector st

-- What a lost connection leaves of the requests.
unfoldable pub mark_unsent : Dict ℤ RequestState → Dict ℤ RequestState
mark_unsent [] = []
mark_unsent ((k, r) ∷ d) =
    let rest = mark_unsent d in if r.cancelled then rest else (k, record r { sent = false }) ∷ rest

abbrev pub reconnect : Dict ℤ RequestState → BrokerClient → BrokerClient × List Effect
reconnect [] st = (st, [])
reconnect (x ∷ d) st = connect st

abbrev pub after_loss : Down → Dict ℤ RequestState → BrokerClient → Outcome
after_loss up requests st = ok (reconnect requests st)
after_loss closing requests st = ok (record st { down = closed }, down_fired ∷ [])
after_loss closed requests st = err already_called

-- _connectionLost
unfoldable pub connection_lost : BrokerClient → Outcome
unfolding mark_unsent
connection_lost st =
    let requests = mark_unsent st.requests in
    after_loss st.down requests (record st { proto = none; requests = requests })

-- handleResponse
abbrev pub deliver : Bytes → Option RequestState → List Effect
deliver response none = []
deliver response (some r) = if r.cancelled then [] else called_back r.d (some response) ∷ []

abbrev pub answered : Bytes → ℤ → BrokerClient → Outcome
answered response k st =
    ok (record st { requests = delete k st.requests }, deliver response (lookup k st.requests))

unfoldable pub handle_response : Bytes → BrokerClient → Outcome
unfolding delete
handle_response response st = get_response_correlation_id response >>= λ k. answered response k st

-- _cancelRequest of the deferred `d`, and the CancelledError that the deferred then fails with.
abbrev pub cancel_entry : ℤ → Option RequestState → BrokerClient → Result BrokerClient
cancel_entry k none st = err key_error
cancel_entry k (some r) st = ok (record st {
  requests =
      if r.sent then insert k (record r { cancelled = true }) st.requests else delete k st.requests;
})

unfoldable pub cancel_request : ℤ → ℕ → BrokerClient → Outcome
unfolding delete
cancel_request k d st = cancel_entry k (lookup k st.requests) st >>= λ next.
    ok (next, failed_with d cancelled_error ∷ [])

-- ebConnect and cbDelayed; the delay is what the retry policy gives for the number of failures.
abbrev pub failed_as : Down → BrokerClient → BrokerClient × List Effect
failed_as up st = (
  record st { failures = suc st.failures; connector = some delay },
  retry_after (suc st.failures) ∷ [],
)
failed_as _ st = (st, [])

abbrev pub connect_failed : BrokerClient → BrokerClient × List Effect
connect_failed st = failed_as st.down st
