-- ===== src/Bootstrap.antt =====
-- afkak/_protocol.py: `KafkaBootstrapProtocol`, its requests and the responses to them.
pub mod Books
pub mod Once
pub mod Correlated
use afkak.Prelude.{
  ℕ, suc, ◌<◌, ◌≡◌, Bool, true, false, Option, none, some, List, [], ◌∷◌, ◌++◌, ◌==◌, if◌then◌else◌,
}
use afkak.Prelude.Int.{pos, slice}
use afkak.Result.{Result, ok, err, attribute_error, assertion_error, type_error}
use afkak.Wire.Struct.{Bytes}
use afkak.Protocol.Grouping.{Dict, text_eq, lookup, insert}

-- The reason why a connection was lost is a Failure of Twisted, of which nothing is used.
abbrev pub Reason : Type 0
Reason = ℕ

-- What the protocol does to its surroundings. A deferred is known by its number in the order of
-- creation; `sent` goes with the deferred that is made for the request. A deferred that was cancelled
-- has failed; Twisted then ignores one callback or errback of it, which is `ignored`.
pub data Effect : Type 0 where
  sent : ℕ → Bytes → Effect
  called_back : ℕ → Bytes → Effect
  failed_with : ℕ → Reason → Effect
  lose_connection : Effect
  cancelled : ℕ → Effect
  ignored : ℕ → Effect

-- `_pending` is None once the connection is lost. `called` tells which deferreds have fired, `created`
-- counts them.
pub record BootstrapProtocol : Type 0 where
  pub pending : Option (Dict Bytes ℕ)
  pub failed : Option Reason
  pub called : ℕ → Bool
  pub created : ℕ

abbrev pub connection_made : BootstrapProtocol
connection_made = record { pending = some []; failed = none; called = λ d. false; created = 0 }

abbrev pub keep : Bytes → ℕ → Option (ℕ × Dict Bytes ℕ) → Option (ℕ × Dict Bytes ℕ)
keep j d none = none
keep j d (some (e, p)) = some (e, (j, d) ∷ p)

-- dict.pop, on the first key that is equal.
unfoldable pub pop : Bytes → Dict Bytes ℕ → Option (ℕ × Dict Bytes ℕ)
pop k [] = none
pop k ((j, d) ∷ p) = let rest = pop k p in if text_eq.beq j k then some (d, p) else keep j d rest

abbrev pub response_id : Bytes → Bytes
response_id response = slice response (pos 0) (pos 4)

abbrev pub request_id : Bytes → Bytes
request_id request = slice request (pos 4) (pos 8)

-- A callback or an errback of a deferred: what it does, and which have fired then.
abbrev pub settle : (ℕ → Bool) → ℕ → Effect → Effect
settle called d out = if called d then ignored d else out

abbrev pub mark : ℕ → (ℕ → Bool) → ℕ → Bool
mark d called e = if e == d then true else called e

-- d.errback(reason) of each.
unfoldable pub fail_all : Reason → (ℕ → Bool) → Dict Bytes ℕ → (ℕ → Bool) × List Effect
fail_all reason called [] = (called, [])
fail_all reason called ((k, d) ∷ p) =
    let rest = fail_all reason (mark d called) p in
    (rest.0, settle called d (failed_with d reason) ∷ rest.1)

module _ (st : BootstrapProtocol) where
  abbrev pub popped : Bytes → Option (ℕ × Dict Bytes ℕ) → BootstrapProtocol × List Effect
  popped response none = (st, lose_connection ∷ [])
  popped response (some (d, p)) = (
    record st { pending = some p; called = mark d st.called },
    settle st.called d (called_back d response) ∷ [],
  )

  abbrev pub received : Bytes → Option (Dict Bytes ℕ) → Result (BootstrapProtocol × List Effect)
  received response none = err attribute_error
  received response (some p) = ok (popped response (pop (response_id response) p))

  unfoldable pub string_received : Bytes → Result (BootstrapProtocol × List Effect)
  string_received response = received response st.pending

  abbrev pub lost : Reason → Option (Dict Bytes ℕ) → Result (BootstrapProtocol × List Effect)
  lost reason none = err attribute_error
  lost reason (some p) =
      let all = fail_all reason st.called p in
      ok (record st { pending = none; failed = some reason; called = all.0 }, all.1)

  unfoldable pub connection_lost : Reason → Result (BootstrapProtocol × List Effect)
  unfolding fail_all
  connection_lost reason = lost reason st.pending

  -- A request whose deferred fails at once.
  abbrev pub refused : Reason → BootstrapProtocol × List Effect
  refused reason = (
    record st { called = mark st.created st.called; created = suc st.created },
    failed_with st.created reason ∷ [],
  )

  abbrev pub added : Bytes → Dict Bytes ℕ → BootstrapProtocol × List Effect
  added request p = (
    record st {
      pending = some (insert (request_id request) st.created p);
      created = suc st.created;
    },
    sent st.created request ∷ [],
  )

  abbrev pub unless_pending :
      Bytes → Dict Bytes ℕ → Option ℕ → Result (BootstrapProtocol × List Effect)
  unless_pending request p (some d) = err assertion_error
  unless_pending request p none = ok (added request p)

  abbrev pub asked :
      Bytes → Option Reason → Option (Dict Bytes ℕ) → Result (BootstrapProtocol × List Effect)
  asked request (some reason) pending = ok (refused reason)
  asked request none none = err type_error
  asked request none (some p) = unless_pending request p (lookup (request_id request) p)

  -- The deferred that is returned is number `created` of the state before.
  unfoldable pub request : Bytes → Result (BootstrapProtocol × List Effect)
  request bytes = asked bytes st.failed st.pending

  -- The transport drops the connection; nothing of the protocol's own changes.
  abbrev length_limit_exceeded : Result (BootstrapProtocol × List Effect)
  length_limit_exceeded = ok (st, lose_connection ∷ [])

  -- d.cancel(), as by the end of a timeout: the deferreds have no canceller, and stay in `_pending`.
  abbrev pub cancel : ℕ → BootstrapProtocol × List Effect
  cancel d =
      if st.called d then (st, []) else (record st { called = mark d st.called }, cancelled d ∷ [])

-- What happens to the protocol, and what is asked of it.
pub data Event : Type 0 where
  receive : Bytes → Event
  oversize : Event
  lose : Reason → Event
  ask : Bytes → Event
  time_out : ℕ → Event

unfoldable pub step : Event → BootstrapProtocol → Result (BootstrapProtocol × List Effect)
unfolding string_received connection_lost request
step (receive response) st = string_received st response
step oversize st = length_limit_exceeded st
step (lose reason) st = connection_lost st reason
step (ask bytes) st = request st bytes
step (time_out d) st = ok (cancel st d)

-- A deferred can be cancelled if it was made.
abbrev pub IsPossible : Event → BootstrapProtocol → Type 0
IsPossible (time_out d) st = d < st.created
IsPossible _ st = Unit {0}

-- The states that a connection comes to, each with all the effects so far. An event that raises an
-- exception does so before it changes anything.
pub data Reaches : BootstrapProtocol → List Effect → Type 0 where
  made : Reaches connection_made []
  after :
      {st next : BootstrapProtocol} {log out : List Effect} (e : Event)
      → Reaches st log
      → IsPossible e st
      → step e st ≡ ok (next, out)
      → Reaches next (log ++ out)
