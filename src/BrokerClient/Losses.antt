-- ===== src/BrokerClient/Losses.antt =====
-- What a lost connection and close() change in afkak/brokerclient.py's client.
use afkak.Prelude.{
  ℕ, ◌+◌, ◌≤◌, ◌≡◌, refl, sym, ◌∙◌, inl, inr, Bool, true, false, Option, none, List, [], ◌∷◌, ◌++◌,
  arith, ltb, leb, ◌==◌, if◌then◌else◌, Bool-cases, All,
}
use afkak.Prelude.Int.{ℤ}
use afkak.Protocol.Grouping.{Dict, ℤ_eq}
use afkak.Dictionary.{one_if, sum_of, sum_of-append}
use afkak.BrokerClient.{
  RequestState, BrokerClient, Connector, Effect, failed_with, client_closed, Down, fail_requests,
  fail_entry, mark_unsent,
}
use afkak.BrokerClient.Events.{times_fired, id_of}
use afkak.BrokerClient.Order.{mark_unsent-IsBetween}
use afkak.BrokerClient.Counting.{waiting, IsFlagged, id_of-append, times_fired-append}
use afkak.BrokerClient.Written.{writes, unsent, times_written, is_proto, budget, budget_step}
use afkak.BrokerClient.Change.{Change, Invariant, by_key}
use afkak.BrokerClient.Steps.{if_none, IsQuiet}

mark_unsent-waiting :
    (d : ℕ) (l : Dict ℤ RequestState) → sum_of (waiting d) (mark_unsent l) ≡ sum_of (waiting d) l
unfolding mark_unsent
mark_unsent-waiting d [] = refl
mark_unsent-waiting d ((k, r) ∷ l) =
    let rest = mark_unsent-waiting d l in
    elim (Bool-cases r.cancelled) [
      | inl gone ↦ rw gone (omega (arith, rest))
      | inr stays ↦ simp stays (omega (arith, rest))
    ]

mark_unsent_le :
    (g : ℤ → ℕ → ℕ) (l : Dict ℤ RequestState)
    → sum_of (by_key g) (mark_unsent l) ≤ sum_of (by_key g) l
unfolding mark_unsent
mark_unsent_le g [] = omega arith
mark_unsent_le g ((k, r) ∷ l) =
    let rest = mark_unsent_le g l in
    elim (Bool-cases r.cancelled) [
      | inl gone ↦ simp gone (omega (arith, rest))
      | inr stays ↦ simp stays (omega (arith, rest))
    ]

mark_unsent-flags : (l : Dict ℤ RequestState) → All IsFlagged (mark_unsent l)
unfolding mark_unsent
mark_unsent-flags [] = tt
mark_unsent-flags ((k, r) ∷ l) =
    let rest = mark_unsent-flags l in
    elim (Bool-cases r.cancelled) [ inl gone ↦ rw gone rest | inr stays ↦ rw stays (refl, rest) ]

-- The failure of one request fires its deferred if that still waits, and nothing else happens.
fail_entry_lem :
    (c d : ℕ) (k : ℤ) (r : RequestState)
    → (times_fired d (fail_entry r) ≡ waiting d (k, r))
      × (times_written c d (fail_entry r) ≡ 0)
      × (id_of d (fail_entry r) ≡ none)
fail_entry_lem c d k r = by r.cancelled
  where
    by :
        (b : Bool)
        → let out = if b then [] else failed_with r.d client_closed ∷ [] in
          (times_fired d out ≡ (if b then 0 else one_if (r.d == d)))
          × (times_written c d out ≡ 0)
          × (id_of d out ≡ none)
    by true = (refl, refl, refl)
    by false = (omega arith, refl, refl)

fail_requests_lem :
    (c d : ℕ) (l : Dict ℤ RequestState)
    → (times_fired d (fail_requests l) ≡ sum_of (waiting d) l)
      × (times_written c d (fail_requests l) ≡ 0)
      × (id_of d (fail_requests l) ≡ none)
fail_requests_lem c d [] = (refl, refl, refl)
fail_requests_lem c d ((k, r) ∷ l) =
    let rest = fail_requests_lem c d l in
    let one = fail_entry_lem c d k r in
    (
      omega (arith, rest.0, one.0, times_fired-append d (fail_requests l) (fail_entry r)),
      omega (arith, rest.1, one.1, sum_of-append (writes c d) (fail_requests l) (fail_entry r)),
      rw (id_of-append d (fail_requests l) (fail_entry r), rest.2) one.2,
    )

-- A client without a connection writes nothing.
budget-none :
    (c d : ℕ) (st next : BrokerClient)
    → next.connections ≡ st.connections
    → next.proto ≡ none
    → budget c d next ≤ budget c d st
budget-none c d st next connections proto = simp (connections, proto) (by (ltb c st.connections))
  where
    by :
        (old : Bool)
        → (if old
            then (if false
                then sum_of (unsent d) next.requests + one_if (leb next.created d)
                else 0)
            else 1)
          ≤ (if old
              then (if is_proto c st.proto
                  then sum_of (unsent d) st.requests + one_if (leb st.created d)
                  else 0)
              else 1)
    by true = omega arith
    by false = omega arith

module _ {st : BrokerClient} {log : List Effect} (i : Invariant st log) where
  pub lost-Change :
      (connector : Option Connector) (failures : ℕ) (down : Down) (out : List Effect)
      → IsQuiet out
      → Change st
          (record st {
            proto = none;
            requests = mark_unsent st.requests;
            connector = connector;
            failures = failures;
            down = down;
          })
          out
          none
  lost-Change connector failures down out quiet = record {
    absent = λ k h. cc;
    created = omega arith;
    asked = λ d. quiet.unasked d ∙ sym (if_none (d == st.created));
    once = λ d. omega (arith, quiet.unfired d, mark_unsent-waiting d st.requests);
    kept = λ g. omega (arith, mark_unsent_le g st.requests);
    ordered = mark_unsent-IsBetween 0 st.requests st.created i.ordered;
    flags = mark_unsent-flags st.requests;
    numbered = λ c h. cc h;
    wrote = λ c d. omega (
      arith,
      quiet.unwritten c d,
      budget-none c d st
          (record st {
            proto = none;
            requests = mark_unsent st.requests;
            connector = connector;
            failures = failures;
            down = down;
          })
          refl refl,
    );
  }

  pub closed-Change :
      (connector : Option Connector) (down : Down) (out : List Effect)
      → IsQuiet out
      → Change st
          (record st { down = down; connector = connector; requests = [] })
          (out ++ fail_requests st.requests)
          none
  closed-Change connector down out quiet = record {
    absent = λ k h. cc;
    created = omega arith;
    asked = λ d.
        rw (id_of-append d out (fail_requests st.requests), quiet.unasked d)
          ((fail_requests_lem 0 d st.requests).2 ∙ sym (if_none (d == st.created)));
    once = λ d. omega (
      arith,
      quiet.unfired d,
      times_fired-append d out (fail_requests st.requests),
      (fail_requests_lem 0 d st.requests).0,
    );
    kept = λ g. omega arith;
    flags = tt;
    ordered = omega arith;
    numbered = i.numbered;
    wrote = λ c d.
        let silent : times_written c d (out ++ fail_requests st.requests) ≡ 0 = omega (
          arith,
          quiet.unwritten c d,
          sum_of-append (writes c d) out (fail_requests st.requests),
          (fail_requests_lem c d st.requests).1,
        ) in
        budget_step c d (times_written c d (out ++ fail_requests st.requests)) st
          (record st { down = down; connector = connector; requests = [] }) refl refl (i.numbered c)
          (λ h. silent) (omega (arith, silent));
  }
