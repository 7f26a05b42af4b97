-- ===== src/BrokerClient/Connects.antt =====
-- What a new connection changes in afkak/brokerclient.py's client.
use afkak.Prelude.{
  ℕ, suc, ◌+◌, ◌≤◌, ◌≡◌, refl, sym, ◌∙◌, inl, inr, Bool, true, false, Option, none, some, List, [],
  ◌∷◌, arith, ltb, leb, ◌==◌, if◌then◌else◌, ==_iff, Bool-cases, All,
}
use afkak.Prelude.Int.{ℤ}
use afkak.Wire.Struct.{Bytes}
use afkak.Protocol.Grouping.{Dict, ℤ_eq}
use afkak.Dictionary.{one_if, sum_of}
use afkak.BrokerClient.{
  RequestState, BrokerClient, Effect, sent_with, after_write, send_request, send_queued, keep_entry,
  lose_connection,
}
use afkak.BrokerClient.Events.{id_of}
use afkak.BrokerClient.Order.{send_queued-IsBetween}
use afkak.BrokerClient.Counting.{
  IsFlagged, id_of-append, send_queued-waiting, send_queued_le, send_request-id_of,
}
use afkak.BrokerClient.Written.{
  unsent, times_written, is_proto, send_queued-written, send_queued_elsewhere,
}
use afkak.BrokerClient.Change.{Change, Invariant, by_key, is_deferred}
use afkak.BrokerClient.Steps.{if_none}

module _ (send_string : Bytes → Option ℕ) (conn : ℕ) where
  send_queued-id_of :
      (d : ℕ) (l : Dict ℤ RequestState) → id_of d (send_queued send_string conn l).1 ≡ none
  unfolding send_queued
  send_queued-id_of d [] = refl
  send_queued-id_of d ((k, r) ∷ l) =
      let rest = send_queued-id_of d l in
      elim (Bool-cases r.sent) [
        | inl before ↦ rw before rest
        | inr waits ↦ simp waits (
            rw
              (
                id_of-append d (send_request send_string conn r).1
                    (send_queued send_string conn l).1,
                send_request-id_of send_string conn d r,
              )
              rest)
      ]

  send_queued-flags :
      (l : Dict ℤ RequestState) → All IsFlagged l → All IsFlagged (send_queued send_string conn l).0
  unfolding send_queued
  send_queued-flags [] h = tt
  send_queued-flags ((k, r) ∷ l) h =
      let rest = send_queued-flags l h.1 in
      elim (Bool-cases r.sent) [
        | inl before ↦ simp before (ground arith, rest)
        | inr waits ↦
            simp waits (by (send_string r.request) (send_queued send_string conn l).0 rest)
      ]
    where
      after :
          (b : Bool) (m : Dict ℤ RequestState)
          → All IsFlagged m
          → All IsFlagged (keep_entry k (after_write conn r b).0 m)
      after true m rest = (ground arith, rest)
      after false m rest = rest

      by :
          (o : Option ℕ) (m : Dict ℤ RequestState)
          → All IsFlagged m
          → All IsFlagged (keep_entry k (sent_with conn r o).0 m)
      by (some e) m rest = rest
      by none m rest = after r.expect_response m rest

unsent_le :
    (d : ℕ) (l : Dict ℤ RequestState) → sum_of (unsent d) l ≤ sum_of (by_key (is_deferred d)) l
unsent_le d [] = omega arith
unsent_le d ((k, r) ∷ l) =
    let rest = unsent_le d l in
    elim (Bool-cases r.sent) [
      | inl before ↦ simp before (omega (arith, rest))
      | inr waits ↦ simp waits (omega (arith, rest))
    ]

-- A new connection has the budget that one to come has.
budget_new :
    (c n w u v x : ℕ)
    → ((n == c) ≡ false → w ≡ 0)
    → ((n == c) ≡ true → w + u + v ≤ 1)
    → w + (if ltb c (suc n) then (if n == c then u + v else 0) else 1) ≤ (if ltb c n then x else 1)
budget_new c n w u v x elsewhere here = elim (Bool-cases (n == c)) [
  | inl same ↦
      let now = here same in
      let e : n ≡ c = (==_iff n c).0 same in
      let first : ltb c (suc n) ≡ true = ground arith in
      let then_ : ltb c n ≡ false = ground arith in rw (first, same, then_) (omega (arith, now))
  | inr other ↦ let none_now = elsewhere other in rw (other, none_now) (ground arith)
]

module _ {st : BrokerClient} {log : List Effect} (i : Invariant st log) where
  unsent_new : (d : ℕ) → sum_of (unsent d) st.requests + one_if (leb st.created d) ≤ 1
  unsent_new d =
      let held = i.held d in
      let less = unsent_le d st.requests in
      let one : one_if (ltb d st.created) + one_if (leb st.created d) ≡ 1 = ground arith in
      omega (arith, held, less, one)

  -- cbConnect of an open client.
  pub connected-Change :
      (send_string : Bytes → Option ℕ)
      → Change st
          (record st {
            failures = 0;
            connector = none;
            proto = some st.connections;
            connections = suc st.connections;
            requests = (send_queued send_string st.connections st.requests).0;
          })
          (send_queued send_string st.connections st.requests).1
          none
  connected-Change send_string =
      let conn = st.connections in
      record {
        absent = λ k h. cc;
        created = omega arith;
        asked =
            λ d. send_queued-id_of send_string conn d st.requests ∙ sym (if_none (d == st.created));
        once = λ d. omega (arith, send_queued-waiting send_string conn d st.requests i.flags);
        kept = λ g.
            omega (arith, send_queued_le send_string conn (by_key g) st.requests (λ k r b. refl));
        ordered = send_queued-IsBetween send_string conn 0 st.requests st.created i.ordered;
        flags = send_queued-flags send_string conn st.requests i.flags;
        numbered = λ c h. ground (arith, h);
        wrote = λ c d.
            budget_new c conn (times_written c d (send_queued send_string conn st.requests).1)
              (sum_of (unsent d) (send_queued send_string conn st.requests).0)
              (one_if (leb st.created d))
              (if is_proto c st.proto
                then sum_of (unsent d) st.requests + one_if (leb st.created d)
                else 0)
              (send_queued_elsewhere send_string conn c d st.requests)
              (λ same.
                let here : conn ≡ c = (==_iff conn c).0 same in
                rw (← here) (
                  omega (arith, send_queued-written send_string conn d st.requests, unsent_new d)));
      }

  -- cbConnect of a client that was closed.
  pub late-Change :
      Change st
        (record st {
          failures = 0;
          connector = none;
          proto = some st.connections;
          connections = suc st.connections;
        })
        (lose_connection st.connections ∷ [])
        none
  late-Change = record {
    absent = λ k h. cc;
    created = omega arith;
    asked = λ d. sym (if_none (d == st.created));
    once = λ d. omega arith;
    kept = λ g. omega arith;
    flags = i.flags;
    ordered = i.ordered;
    numbered = λ c h. ground (arith, h);
    wrote = λ c d.
        budget_new c st.connections 0 (sum_of (unsent d) st.requests) (one_if (leb st.created d))
          (if is_proto c st.proto
            then sum_of (unsent d) st.requests + one_if (leb st.created d)
            else 0)
          (λ h. refl) (λ same. omega (arith, unsent_new d));
  }
