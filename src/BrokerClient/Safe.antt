-- ===== src/BrokerClient/Safe.antt =====
-- afkak/brokerclient.py's client in every state that it comes to: its requests are on their way, and
-- what it raises is what its callers or the broker did wrong.
use afkak.Prelude.{
  ℕ, ◌≡◌, refl, ◌≢◌, ◌⊎◌, inl, inr, Bool, true, false, Option, none, some, List, [], ◌∷◌, arith,
  if◌then◌else◌, Bool-cases,
}
use afkak.Prelude.Int.{ℤ, eqb_ℤ}
use afkak.Result.{
  Error, Result, ok, err, ◌>>=◌, key_error, already_called, buffer_underflow, struct_error,
}
use afkak.Wire.Struct.{Bytes, unpack}
use afkak.Wire.Reader.{relative_unpack}
use afkak.Protocol.Data.{BrokerMetadata}
use afkak.Protocol.Grouping.{Dict, ℤ_eq, lookup, insert}
use afkak.Protocol.Responses.{get_response_correlation_id}
use afkak.Dictionary.{delete}
use afkak.BrokerClient.{
  RequestState, Connector, attempt, delay, stopped, Down, up, closing, closed, BrokerClient,
  Outcome, Effect, connect_if_idle, queued, sent_or_queued, new_request, accepted, unless_duplicate,
  make_request, close, closed_with, connection_lost, after_loss, mark_unsent, handle_response,
  answered, update_metadata, cancel_request, cancel_entry, failed_with, cancelled_error,
}
use afkak.BrokerClient.Events.{
  Event, making, cancelling, updating, disconnecting, closing_down, connects, fails_to_connect,
  delay_ends, loses, receives, step, IsPossible, Reaches, made, after, times_fired, id_of,
}
use afkak.BrokerClient.Change.{Invariant}
use afkak.BrokerClient.Answers.{known_waiting}
use afkak.BrokerClient.Reached.{Reaches-Invariant}
use afkak.BrokerClient.Linked.{
  linked, IsLinked, linked_proto, fewer-IsLinked, connected-IsLinked, connect_failed-IsLinked,
  try_connect-IsLinked,
}

-- A method raises neither KeyError nor AlreadyCalledError, and leaves a linked state.
abbrev pub IsSafe : Outcome → Type 0
IsSafe (ok next) = IsLinked next.0
IsSafe (err raised) = (raised ≢ key_error) × (raised ≢ already_called)

read_error :
    (response : Bytes) (e : Error)
    → get_response_correlation_id response ≡ err e
    → (e ≡ buffer_underflow) ⊎ (e ≡ struct_error)
unfolding get_response_correlation_id relative_unpack unpack
read_error response e h = ground arith

-- The connection of a client, by its other attributes.
linked_idle :
    (down : Down) (conn : ℕ) (c : Option Connector) (l : Dict ℤ RequestState)
    → linked down (some conn) c l ≡ true
    → (down ≡ up) ⊎ ((down ≡ closing) × (l ≡ []))
linked_idle up conn c l h = inl refl
linked_idle closing conn none [] h = inr (refl, refl)
linked_idle closing conn none (x ∷ l) h = cc h
linked_idle closing conn (some c) l h = cc h
linked_idle closed conn c l h = cc h

linked_busy :
    (c : Connector) (l m : Dict ℤ RequestState)
    → linked up none (some c) l ≡ true
    → linked up none (some c) m ≡ true
linked_busy attempt l m h = refl
linked_busy delay l m h = refl
linked_busy stopped l m h = cc h

module _ (st : BrokerClient) (h : IsLinked st) where
  -- With a connection there is no connector.
  no_connector : (conn : ℕ) → st.proto ≡ some conn → st.connector ≡ none
  no_connector conn p = (linked_proto st.down conn st.connector st.requests (rw p at h)).1

  sent_or_queued-IsLinked :
      (send_string : Bytes → Option ℕ) (k : ℤ) (r : RequestState) (proto : Option ℕ)
      → st.down ≡ up
      → st.proto ≡ proto
      → IsLinked (sent_or_queued send_string k r proto st).0
  sent_or_queued-IsLinked send_string k r (some conn) open_ p = rw (open_, p, no_connector conn p)
  sent_or_queued-IsLinked send_string k r none open_ p = by st.connector refl (rw (open_, p) at h)
    where
      by :
          (c : Option Connector)
          → st.connector ≡ c
          → linked up none c st.requests ≡ true
          → IsLinked (connect_if_idle c (queued k r st)).0
      by none e h = rw (open_, p)
      by (some c) e h = rw (open_, p, e) (linked_busy c st.requests (insert k r st.requests) h)

  make_request-IsSafe :
      (send_string : Bytes → Option ℕ) (k : ℤ) (request : Bytes) (expect : Bool)
      → IsSafe (make_request send_string k request expect st)
  unfolding make_request
  make_request-IsSafe send_string k request expect = by (lookup k st.requests)
    where
      accepted_by :
          (down : Down)
          → st.down ≡ down
          → IsLinked (accepted send_string k (new_request k request expect st.created) down st).0
      accepted_by up e =
          sent_or_queued-IsLinked send_string k (new_request k request expect st.created) st.proto e
            refl
      accepted_by closing e = h
      accepted_by closed e = h

      by :
          (o : Option RequestState)
          → IsSafe (unless_duplicate send_string k (new_request k request expect st.created) o st)
      by none = accepted_by st.down refl
      by (some r) = (cc, cc)

  close-IsSafe : IsSafe (close st)
  unfolding close
  close-IsSafe = by st.down st.proto refl st.connector h
    where
      by :
          (down : Down) (proto : Option ℕ)
          → st.proto ≡ proto
          → (c : Option Connector) → linked down proto c st.requests ≡ true
          → IsSafe (closed_with down proto c st)
      by up (some conn) p none h = rw p
      by up (some conn) p (some c) h = cc h
      by up none p (some c) h = rw p
      by up none p none h = rw p
      by closing proto p c h = (cc, cc)
      by closed proto p c h = (cc, cc)

  connection_lost-IsSafe : (conn : ℕ) → st.proto ≡ some conn → IsSafe (connection_lost st)
  unfolding connection_lost
  connection_lost-IsSafe conn p =
      by st.down refl (no_connector conn p)
        (linked_idle st.down conn st.connector st.requests (rw p at h))
    where
      open_as :
          st.down ≡ up
          → st.connector ≡ none
          → (l : Dict ℤ RequestState) → mark_unsent st.requests ≡ l
          → IsSafe
              (after_loss up l (record st { proto = none; requests = mark_unsent st.requests }))
      open_as open_ idle [] e = rw (open_, idle, e)
      open_as open_ idle (x ∷ l) e = rw open_

      by :
          (down : Down)
          → st.down ≡ down
          → st.connector ≡ none
          → (down ≡ up) ⊎ ((down ≡ closing) × (st.requests ≡ []))
          → IsSafe (
              after_loss down
                (mark_unsent st.requests)
                (record st { proto = none; requests = mark_unsent st.requests }))
      by up open_ idle why = open_as open_ idle (mark_unsent st.requests) refl
      by closing open_ idle (inl other) = cc other
      by closing open_ idle (inr done) = rw (done.1, idle)
      by closed open_ idle (inl other) = cc other
      by closed open_ idle (inr other) = let it : closed ≡ closing = other.0 in cc it

  handle_response-IsSafe : (response : Bytes) → IsSafe (handle_response response st)
  unfolding handle_response
  handle_response-IsSafe response = by (get_response_correlation_id response) refl
    where
      by :
          (read : Result ℤ)
          → get_response_correlation_id response ≡ read
          → IsSafe (read >>= λ k. answered response k st)
      by (ok k) e = fewer-IsLinked st h (delete k st.requests) (λ n. rw n)
      by (err x) e = elim (read_error response x e) [
        | inl short ↦ ground (arith, short)
        | inr other ↦ ground (arith, other)
      ]

  update_metadata-IsSafe : (metadata : BrokerMetadata) → IsSafe (update_metadata metadata st)
  update_metadata-IsSafe metadata = elim (Bool-cases (eqb_ℤ st.metadata.node_id metadata.node_id)) [
    | inl same ↦ rw same h
    | inr other ↦ rw other (cc, cc)
  ]

  cancel_entry-IsLinked :
      (k : ℤ) (r : RequestState)
      → lookup k st.requests ≡ some r
      → (b : Bool)
      → IsLinked (record st {
        requests =
            if b
            then insert k (record r { cancelled = true }) st.requests
            else delete k st.requests;
      })
  unfolding lookup
  cancel_entry-IsLinked k r found true =
      fewer-IsLinked st h (insert k (record r { cancelled = true }) st.requests)
        (λ n. cc (rw n at found))
  cancel_entry-IsLinked k r found false =
      fewer-IsLinked st h (delete k st.requests) (λ n. cc (rw n at found))

  cancel_request-IsSafe :
      {log : List Effect} (i : Invariant st log) (k : ℤ) (d : ℕ)
      → id_of d log ≡ some k
      → times_fired d log ≡ 0
      → IsSafe (cancel_request k d st)
  unfolding cancel_request
  cancel_request-IsSafe i k d asked_for unfired =
      let e = known_waiting i k d asked_for unfired in by (lookup k st.requests) refl e.found
    where
      by :
          (o : Option RequestState) {r : RequestState}
          → lookup k st.requests ≡ o
          → o ≡ some r
          → IsSafe (cancel_entry k o st >>= λ next. ok (next, failed_with d cancelled_error ∷ []))
      by none e found = cc found
      by (some r) e found = cancel_entry-IsLinked k r e r.sent

  step-IsSafe :
      {log : List Effect} (i : Invariant st log) (send_string : Bytes → Option ℕ) (e : Event)
      → IsPossible e st log
      → IsSafe (step send_string e st)
  unfolding step
  step-IsSafe i send_string (making k request expect) p =
      make_request-IsSafe send_string k request expect
  step-IsSafe i send_string (cancelling k d) p = cancel_request-IsSafe i k d p.0 p.1
  step-IsSafe i send_string (updating metadata) p = update_metadata-IsSafe metadata
  step-IsSafe i send_string disconnecting p = h
  step-IsSafe i send_string closing_down p = close-IsSafe
  step-IsSafe i send_string connects p = connected-IsLinked st h send_string p
  step-IsSafe i send_string fails_to_connect p = connect_failed-IsLinked st h p
  step-IsSafe i send_string delay_ends p = try_connect-IsLinked st h p
  step-IsSafe i send_string loses p = connection_lost-IsSafe p.0 p.1
  step-IsSafe i send_string (receives response) p = handle_response-IsSafe response

-- In every state that a new client comes to, an open client with requests has a connection or is
-- getting one.
pub Reaches-IsLinked :
    (send_string : Bytes → Option ℕ) (metadata : BrokerMetadata) {st : BrokerClient}
    {log : List Effect}
    → Reaches send_string metadata st log
    → IsLinked st
Reaches-IsLinked send_string metadata made = refl
Reaches-IsLinked send_string metadata (after {st = st} e before possible done) =
    let i = Reaches-Invariant send_string metadata before in
    let h = Reaches-IsLinked send_string metadata before in
    rw done at (step-IsSafe st h i send_string e possible)

-- No event that can happen makes the client raise KeyError or AlreadyCalledError.
pub Reaches-IsSafe :
    (send_string : Bytes → Option ℕ) (metadata : BrokerMetadata) {st : BrokerClient}
    {log : List Effect} (e : Event)
    → Reaches send_string metadata st log
    → IsPossible e st log
    → IsSafe (step send_string e st)
Reaches-IsSafe send_string metadata {st} e reached possible =
    step-IsSafe st (Reaches-IsLinked send_string metadata reached)
      (Reaches-Invariant send_string metadata reached) send_string e possible
