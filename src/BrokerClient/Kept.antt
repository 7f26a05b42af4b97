-- ===== src/BrokerClient/Kept.antt =====
-- The other methods and callbacks of afkak/brokerclient.py's client keep the invariant.
use afkak.Prelude.{
  ℕ, suc, ◌≡◌, refl, sym, ◌∙◌, inl, inr, Option, none, some, List, [], ◌∷◌, ◌++◌, Bool-cases,
}
use afkak.Result.{ok, >>=-eq-ok}
use afkak.Wire.Struct.{Bytes}
use afkak.Protocol.Grouping.{Dict, ℤ_eq, lookup}
use afkak.Protocol.Responses.{get_response_correlation_id}
use afkak.Prelude.Int.{ℤ, eqb_ℤ}
use afkak.Protocol.Data.{BrokerMetadata}
use afkak.BrokerClient.{
  RequestState, Connector, Down, up, closing, closed, BrokerClient, Outcome, Effect, connecting,
  lose_connection, cancel_connector, down_fired, retry_after, attempt, stopped, connected,
  connected_as, lose, close, closed_with, connection_lost, after_loss, mark_unsent, handle_response,
  answered, update_metadata, connect_failed, failed_as, disconnect, cancel_request,
}
use afkak.BrokerClient.Events.{times_fired, id_of}
use afkak.BrokerClient.Change.{Invariant}
use afkak.BrokerClient.Steps.{IsQuiet, IsQuiet-cons, IsQuiet-nil, quiet-Change}
use afkak.BrokerClient.Losses.{lost-Change, closed-Change}
use afkak.BrokerClient.Answers.{response-Change, cancel-Change, known_waiting}
use afkak.BrokerClient.Connects.{connected-Change, late-Change}
use afkak.BrokerClient.Making.{came_to}

module _ {st : BrokerClient} {log : List Effect} (i : Invariant st log) {next : BrokerClient}
    {out : List Effect} where
  pub connected-Invariant :
      (send_string : Bytes → Option ℕ)
      → ◌≡◌ {A = Outcome} (ok (connected send_string st)) (ok (next, out))
      → Invariant next (log ++ out)
  unfolding connected
  connected-Invariant send_string h = by st.down h
    where
      by :
          (down : Down)
          → ◌≡◌ {A = Outcome}
              (ok (connected_as send_string st.connections down st))
              (ok (next, out))
          → Invariant next (log ++ out)
      by up h = came_to i (connected-Change i send_string) h
      by closing h = came_to i (late-Change i) h
      by closed h = came_to i (late-Change i) h

  -- A step that leaves the requests and the connection.
  pub quiet-Invariant :
      (a : BrokerClient) (b : List Effect)
      → a.requests ≡ st.requests
      → a.created ≡ st.created
      → a.connections ≡ st.connections
      → a.proto ≡ st.proto
      → IsQuiet b
      → ◌≡◌ {A = Outcome} (ok (a, b)) (ok (next, out))
      → Invariant next (log ++ out)
  quiet-Invariant a b requests created connections proto quiet h =
      came_to i (quiet-Change i requests created connections proto quiet) h

  pub close-Invariant : close st ≡ ok (next, out) → Invariant next (log ++ out)
  unfolding close
  close-Invariant h = by st.down st.proto st.connector h
    where
      by :
          (down : Down) (proto : Option ℕ) (c : Option Connector)
          → closed_with down proto c st ≡ ok (next, out)
          → Invariant next (log ++ out)
      by up (some conn) c h =
          came_to i
            (closed-Change i c closing (lose_connection conn ∷ [])
              (IsQuiet-cons (lose_connection conn) [] tt IsQuiet-nil))
            h
      by up none (some c) h =
          came_to i
            (closed-Change i (some stopped) closed (cancel_connector ∷ down_fired ∷ []) (
              IsQuiet-cons cancel_connector (down_fired ∷ []) tt
                (IsQuiet-cons down_fired [] tt IsQuiet-nil)))
            h
      by up none none h =
          came_to i
            (closed-Change i none closed (down_fired ∷ [])
              (IsQuiet-cons down_fired [] tt IsQuiet-nil))
            h
      by closing proto c h = cc h
      by closed proto c h = cc h

  pub connection_lost-Invariant : connection_lost st ≡ ok (next, out) → Invariant next (log ++ out)
  unfolding connection_lost
  connection_lost-Invariant h = by st.down (mark_unsent st.requests) refl h
    where
      lost_as :
          (connector : Option Connector) (failures : ℕ) (b : List Effect) (down : Down)
          → IsQuiet b
          → ◌≡◌ {A = Outcome}
              (ok (
                record st {
                  proto = none;
                  requests = mark_unsent st.requests;
                  connector = connector;
                  failures = failures;
                  down = down;
                },
                b,
              ))
              (ok (next, out))
          → Invariant next (log ++ out)
      lost_as connector failures b down quiet h =
          came_to i (lost-Change i connector failures down b quiet) h

      by :
          (down : Down) (l : Dict ℤ RequestState)
          → mark_unsent st.requests ≡ l
          → after_loss down l (record st { proto = none; requests = mark_unsent st.requests })
            ≡ ok (next, out)
          → Invariant next (log ++ out)
      by up [] e h = lost_as st.connector st.failures [] st.down IsQuiet-nil h
      by up (x ∷ l) e h =
          lost_as (some attempt) 0 (connecting st.metadata ∷ []) st.down
            (IsQuiet-cons (connecting st.metadata) [] tt IsQuiet-nil) h
      by closing l e h =
          lost_as st.connector st.failures (down_fired ∷ []) closed
            (IsQuiet-cons down_fired [] tt IsQuiet-nil) h
      by closed l e h = cc h

  pub handle_response-Invariant :
      (response : Bytes)
      → handle_response response st ≡ ok (next, out)
      → Invariant next (log ++ out)
  unfolding handle_response
  handle_response-Invariant response h =
      let answer = λ (k : ℤ). answered response k st in
      let read = >>=-eq-ok (get_response_correlation_id response) answer h in
      came_to i (response-Change i read.0 response (lookup read.0 st.requests) refl) read.2

  pub update_metadata-Invariant :
      (metadata : BrokerMetadata)
      → update_metadata metadata st ≡ ok (next, out)
      → Invariant next (log ++ out)
  update_metadata-Invariant metadata h =
      elim (Bool-cases (eqb_ℤ st.metadata.node_id metadata.node_id)) [
        | inl same ↦
            quiet-Invariant (record st { metadata = metadata }) [] refl refl refl refl IsQuiet-nil
              (rw same at h)
        | inr other ↦ cc (rw other at h)
      ]

  pub disconnect-Invariant : disconnect st ≡ ok (next, out) → Invariant next (log ++ out)
  disconnect-Invariant h = quiet-Invariant st (lose st.proto) refl refl refl refl (by st.proto) h
    where
      by : (proto : Option ℕ) → IsQuiet (lose proto)
      by none = IsQuiet-nil
      by (some conn) = IsQuiet-cons (lose_connection conn) [] tt IsQuiet-nil

  pub connect_failed-Invariant :
      ◌≡◌ {A = Outcome} (ok (connect_failed st)) (ok (next, out)) → Invariant next (log ++ out)
  connect_failed-Invariant h = by st.down h
    where
      by :
          (down : Down)
          → ◌≡◌ {A = Outcome} (ok (failed_as down st)) (ok (next, out))
          → Invariant next (log ++ out)
      by up h =
          quiet-Invariant (failed_as up st).0 (failed_as up st).1 refl refl refl refl
            (IsQuiet-cons (retry_after (suc st.failures)) [] tt IsQuiet-nil) h
      by closing h = quiet-Invariant st [] refl refl refl refl IsQuiet-nil h
      by closed h = quiet-Invariant st [] refl refl refl refl IsQuiet-nil h

  pub cancel_request-Invariant :
      (k : ℤ) (d : ℕ)
      → id_of d log ≡ some k
      → times_fired d log ≡ 0
      → cancel_request k d st ≡ ok (next, out)
      → Invariant next (log ++ out)
  cancel_request-Invariant k d asked_for unfired h =
      let e = known_waiting i k d asked_for unfired in
      let done = cancel-Change i k d e.entry e.found e.its e.waits in
      came_to i done.2 (sym done.1 ∙ h)
