-- ===== src/BrokerClient/Making.antt =====
-- makeRequest of afkak/brokerclient.py keeps the invariant.
use afkak.Prelude.{ℕ, ◌≡◌, refl, Bool, Option, none, some, List, [], ◌∷◌, ◌++◌}
use afkak.Result.{ok}
use afkak.Wire.Struct.{Bytes}
use afkak.Protocol.Grouping.{ℤ_eq, lookup}
use afkak.Prelude.Int.{ℤ}
use afkak.BrokerClient.{
  RequestState, Connector, Down, up, closing, closed, BrokerClient, Outcome, Effect, connecting,
  attempt, asked, connect_if_idle, queued, sent_or_queued, new_request, accepted, unless_duplicate,
  make_request,
}
use afkak.BrokerClient.Change.{Change, Invariant, Change-Invariant}
use afkak.BrokerClient.Steps.{IsQuiet-cons, IsQuiet-nil, refused-Change, sent-Change, queued-Change}

module _ {st : BrokerClient} {log : List Effect} (i : Invariant st log) {next : BrokerClient}
    {out : List Effect} where
  -- What the step came to.
  pub came_to :
      {a : BrokerClient} {b : List Effect} {new : Option ℤ}
      → Change st a b new
      → ◌≡◌ {A = Outcome} (ok (a, b)) (ok (next, out))
      → Invariant next (log ++ out)
  came_to {a} {b} c h =
      let state : a ≡ next = cc h in
      let effects : b ≡ out = cc h in rw (← state) (rw (← effects) (Change-Invariant i c))

  module _ (send_string : Bytes → Option ℕ) (k : ℤ) (request : Bytes) (expect : Bool)
      (absent : lookup k st.requests ≡ none) where
    queued-Invariant :
        (c : Option Connector)
        → ◌≡◌ {A = Outcome}
            (ok (
              (connect_if_idle c (queued k (new_request k request expect st.created) st)).0,
              asked st.created k
                  ∷ (connect_if_idle c (queued k (new_request k request expect st.created) st)).1,
            ))
            (ok (next, out))
        → Invariant next (log ++ out)
    queued-Invariant none h =
        came_to
          (queued-Change send_string i k request expect absent (connecting st.metadata ∷ [])
            (IsQuiet-cons (connecting st.metadata) [] tt IsQuiet-nil) (some attempt) 0)
          h
    queued-Invariant (some c) h =
        came_to
          (queued-Change send_string i k request expect absent [] IsQuiet-nil st.connector
            st.failures)
          h

    sent-Invariant :
        (proto : Option ℕ)
        → st.proto ≡ proto
        → ◌≡◌ {A = Outcome}
            (ok (sent_or_queued send_string k (new_request k request expect st.created) proto st))
            (ok (next, out))
        → Invariant next (log ++ out)
    sent-Invariant (some conn) p h =
        came_to (sent-Change send_string i k request expect absent conn p) h
    sent-Invariant none p h = queued-Invariant st.connector h

    accepted-Invariant :
        (down : Down)
        → ◌≡◌ {A = Outcome}
            (ok (accepted send_string k (new_request k request expect st.created) down st))
            (ok (next, out))
        → Invariant next (log ++ out)
    accepted-Invariant up h = sent-Invariant st.proto refl h
    accepted-Invariant closing h = came_to (refused-Change send_string i k request expect absent) h
    accepted-Invariant closed h = came_to (refused-Change send_string i k request expect absent) h

  pub make_request-Invariant :
      (send_string : Bytes → Option ℕ) (k : ℤ) (request : Bytes) (expect : Bool)
      → make_request send_string k request expect st ≡ ok (next, out)
      → Invariant next (log ++ out)
  unfolding make_request
  make_request-Invariant send_string k request expect h = by (lookup k st.requests) refl h
    where
      by :
          (o : Option RequestState)
          → lookup k st.requests ≡ o
          → unless_duplicate send_string k (new_request k request expect st.created) o st
            ≡ ok (next, out)
          → Invariant next (log ++ out)
      by none absent h = accepted-Invariant send_string k request expect absent st.down h
      by (some r) found h = cc h
