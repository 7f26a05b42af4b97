-- ===== src/BrokerClient/Written.antt =====
-- How often afkak/brokerclient.py's client writes a request to a connection, and how often it still may.
use afkak.Prelude.{
  ℕ, ◌+◌, ◌≤◌, ◌≡◌, refl, inl, inr, Bool, true, false, ◌&&◌, Option, none, some, List, [], ◌∷◌,
  arith, ltb, leb, ◌==◌, if◌then◌else◌, ==_refl, Bool-cases,
}
use afkak.Prelude.Int.{ℤ}
use afkak.Wire.Struct.{Bytes}
use afkak.Protocol.Grouping.{Dict}
use afkak.Dictionary.{one_if, sum_of, sum_of-append}
use afkak.BrokerClient.{
  RequestState, BrokerClient, Effect, written, after_write, sent_with, send_request, send_queued,
}
use afkak.BrokerClient.Counting.{count_option, sum_of-keep_entry}

-- The request of a deferred stands in the dictionary and was not sent over this connection.
abbrev pub unsent : ℕ → ℤ × RequestState → ℕ
unsent d (k, r) = if r.sent then 0 else one_if (r.d == d)

abbrev pub writes : ℕ → ℕ → Effect → ℕ
writes c d (written conn e request) = one_if ((conn == c) && (e == d))
writes c d _ = 0

abbrev pub times_written : ℕ → ℕ → List Effect → ℕ
times_written c d log = sum_of (writes c d) log

abbrev pub is_proto : ℕ → Option ℕ → Bool
is_proto c none = false
is_proto c (some conn) = conn == c

-- How often the request of a deferred may yet be sent over a connection.
abbrev pub budget : ℕ → ℕ → BrokerClient → ℕ
budget c d st =
    if ltb c st.connections
    then (if is_proto c st.proto
        then sum_of (unsent d) st.requests + one_if (leb st.created d)
        else 0)
    else 1

-- A step that keeps the connection.
pub budget_step :
    (c d w : ℕ) (st next : BrokerClient)
    → next.connections ≡ st.connections
    → next.proto ≡ st.proto
    → (is_proto c st.proto ≡ true → ltb c st.connections ≡ true)
    → (is_proto c st.proto ≡ false → w ≡ 0)
    → w + (sum_of (unsent d) next.requests + one_if (leb next.created d))
      ≤ sum_of (unsent d) st.requests + one_if (leb st.created d)
    → w + budget c d next ≤ budget c d st
budget_step c d w st next connections proto numbered elsewhere h =
    simp (connections, proto) (by (ltb c st.connections) (is_proto c st.proto) numbered elsewhere)
  where
    by :
        (old here : Bool)
        → (here ≡ true → old ≡ true)
        → (here ≡ false → w ≡ 0)
        → w
            + (if old
                then (if here
                    then sum_of (unsent d) next.requests + one_if (leb next.created d)
                    else 0)
                else 1)
          ≤ (if old
              then (if here then sum_of (unsent d) st.requests + one_if (leb st.created d) else 0)
              else 1)
    by true true f g = h
    by true false f g = omega (arith, g refl)
    by false true f g = cc (f refl)
    by false false f g = omega (arith, g refl)

module _ (send_string : Bytes → Option ℕ) (conn : ℕ) where
  pub sent_with-written :
      (d : ℕ) (k : ℤ) (r : RequestState) (o : Option ℕ)
      → times_written conn d (sent_with conn r o).1
          + count_option (unsent d) k (sent_with conn r o).0
        ≤ one_if (r.d == d)
  sent_with-written d k r (some e) = omega arith
  sent_with-written d k r none = by r.expect_response
    where
      by :
          (b : Bool)
          → times_written conn d (after_write conn r b).1
              + count_option (unsent d) k (after_write conn r b).0
            ≤ one_if (r.d == d)
      by true = rw (==_refl conn) (omega arith)
      by false = rw (==_refl conn) (omega arith)

  -- Nothing goes to another connection.
  pub sent_with_elsewhere :
      (c d : ℕ) (r : RequestState) (o : Option ℕ)
      → (conn == c) ≡ false
      → times_written c d (sent_with conn r o).1 ≡ 0
  sent_with_elsewhere c d r (some e) h = refl
  sent_with_elsewhere c d r none h = elim (Bool-cases r.expect_response) [
    | inl expects ↦ rw (expects, h)
    | inr silent ↦ rw (silent, h)
  ]

  pub send_queued-written :
      (d : ℕ) (l : Dict ℤ RequestState)
      → times_written conn d (send_queued send_string conn l).1
          + sum_of (unsent d) (send_queued send_string conn l).0
        ≤ sum_of (unsent d) l
  unfolding send_queued
  send_queued-written d [] = omega arith
  send_queued-written d ((k, r) ∷ l) =
      let rest = send_queued-written d l in
      elim (Bool-cases r.sent) [
        | inl before ↦ simp before (omega (arith, rest))
        | inr waits ↦ simp waits (
            omega (
              arith,
              rest,
              sent_with-written d k r (send_string r.request),
              sum_of-keep_entry (unsent d) k (send_request send_string conn r).0
                  (send_queued send_string conn l).0,
              sum_of-append (writes conn d) (send_request send_string conn r).1
                  (send_queued send_string conn l).1,
            ))
      ]

  pub send_queued_elsewhere :
      (c d : ℕ) (l : Dict ℤ RequestState)
      → (conn == c) ≡ false
      → times_written c d (send_queued send_string conn l).1 ≡ 0
  unfolding send_queued
  send_queued_elsewhere c d [] h = refl
  send_queued_elsewhere c d ((k, r) ∷ l) h =
      let rest = send_queued_elsewhere c d l h in
      elim (Bool-cases r.sent) [
        | inl before ↦ rw before rest
        | inr waits ↦ rw waits (
            omega (
              arith,
              rest,
              sent_with_elsewhere c d r (send_string r.request) h,
              sum_of-append (writes c d) (send_request send_string conn r).1
                  (send_queued send_string conn l).1,
            ))
      ]
