-- ===== src/BrokerClient/Promises.antt =====
-- What afkak/brokerclient.py's client promises to those that make requests.
use afkak.Prelude.{
  ℕ, ◌+◌, ◌≤◌, ◌<◌, ◌≡◌, refl, sym, ap, ◌∙◌, inl, inr, Bool, true, false, Option, none, some, List,
  [], ◌∷◌, ◌++◌, arith, ltb, ◌==◌, lt→ltb, ==_refl, Bool-cases,
}
use afkak.Prelude.Int.{ℤ, eqb_ℤ, eqb_ℤ→eq}
use afkak.Result.{ok, >>=-eq-ok}
use afkak.Wire.Struct.{Bytes}
use afkak.Protocol.Data.{BrokerMetadata}
use afkak.Protocol.Grouping.{ℤ_eq, lookup}
use afkak.Protocol.Responses.{get_response_correlation_id}
use afkak.Dictionary.{one_if, sum_of, sum_of-delete}
use afkak.BrokerClient.{
  RequestState, Down, up, closing, closed, Connector, BrokerClient, Effect, called_back, close,
  close_connection, closed_with, handle_response, answered, deliver,
}
use afkak.BrokerClient.Events.{Reaches, after, closing_down, step, times_fired, id_of}
use afkak.BrokerClient.Counting.{waiting}
use afkak.BrokerClient.Written.{times_written}
use afkak.BrokerClient.Change.{by_key, is_strange, differs}
use afkak.BrokerClient.Reached.{Reaches-Invariant}

one_if_le : (b : Bool) → one_if b ≤ 1
one_if_le true = omega arith
one_if_le false = omega arith

closed_state :
    (st : BrokerClient) {next : BrokerClient} {out : List Effect}
    → close st ≡ ok (next, out)
    → (next.requests ≡ []) × (next.created ≡ st.created)
unfolding close
closed_state st {next} {out} h = by st.down st.proto st.connector h
  where
    by :
        (down : Down) (proto : Option ℕ) (c : Option Connector)
        → closed_with down proto c st ≡ ok (next, out)
        → (next.requests ≡ []) × (next.created ≡ st.created)
    by up proto c h =
        let e : (record st {
          down = (close_connection proto c).0.0;
          connector = (close_connection proto c).0.1;
          requests = [];
        })
            ≡ next =
          cc h in
        rw (← e) (refl, refl)
    by closing proto c h = cc h
    by closed proto c h = cc h

not_strange : (k : ℤ) (o : Option ℤ) → differs k o ≡ 0 → o ≡ some k
not_strange k none h = absurd (omega arith)
not_strange k (some j) h = elim (Bool-cases (eqb_ℤ j k)) [
  | inl same ↦ ap some (eqb_ℤ→eq j k same)
  | inr other ↦ let one : ◌≡◌ {A = ℕ} 1 0 = rw other at h in absurd (omega arith)
]

-- What a response brings to a deferred comes from an entry that was not cancelled.
delivered :
    (response : Bytes) (d : ℕ) (o : Option RequestState)
    → 0 < times_fired d (deliver response o)
    → (r : RequestState) × (o ≡ some r)
      × (r.cancelled ≡ false)
      × (r.d ≡ d)
      × (deliver response o ≡ called_back d (some response) ∷ [])
delivered response d none h = absurd (omega arith)
delivered response d (some r) h = elim (Bool-cases r.cancelled) [
  | inl gone ↦ let it : 0 < 0 = rw gone at h in absurd (omega arith)
  | inr waits ↦
      let it : 0 < one_if (r.d == d) + 0 = rw waits at h in
      let its : r.d ≡ d = ground arith in (r, refl, waits, its, rw (waits, its))
]

module _ (send_string : Bytes → Option ℕ) (metadata : BrokerMetadata) {st : BrokerClient}
    {log : List Effect} (reached : Reaches send_string metadata st log) where
  -- A deferred that was made has fired once, or waits in one entry; no other fires.
  pub deferred_once :
      (d : ℕ) → times_fired d log + sum_of (waiting d) st.requests ≡ one_if (ltb d st.created)
  deferred_once d = (Reaches-Invariant send_string metadata reached).once d

  -- No request is sent twice over a connection.
  pub request_once : (conn d : ℕ) → times_written conn d log ≤ 1
  request_once conn d =
      let it = (Reaches-Invariant send_string metadata reached).wrote conn d in omega (arith, it)

  -- After close() every deferred has fired, and once.
  pub close-fired :
      {next : BrokerClient} {out : List Effect} (d : ℕ)
      → close st ≡ ok (next, out)
      → d < st.created
      → times_fired d (log ++ out) ≡ 1
  unfolding step
  close-fired {next} {out} d done old =
      let i =
        Reaches-Invariant send_string metadata
          (after {st = st} {next = next} {log = log} {out = out} closing_down reached tt done) in
      let left = closed_state st done in
      let once : times_fired d (log ++ out) + sum_of (waiting d) [] ≡ one_if (ltb d st.created) =
        rw (← left.1) (rw left.0 at (i.once d)) in
      let made_ : ltb d st.created ≡ true = lt→ltb d st.created old in
      let one : times_fired d (log ++ out) + 0 ≡ 1 = rw made_ at once in omega (arith, one)

  -- A response goes to the deferred of the request that its correlation id names, if that waits.
  pub handle_response-fired :
      {next : BrokerClient} {out : List Effect} (response : Bytes) (d : ℕ)
      → handle_response response st ≡ ok (next, out)
      → 0 < times_fired d out
      → (k : ℤ) × (get_response_correlation_id response ≡ ok k)
        × (id_of d log ≡ some k)
        × (times_fired d log ≡ 0)
        × (out ≡ called_back d (some response) ∷ [])
  unfolding handle_response
  handle_response-fired {next} {out} response d done fired =
      let i = Reaches-Invariant send_string metadata reached in
      let answer = λ (k : ℤ). answered response k st in
      let read = >>=-eq-ok (get_response_correlation_id response) answer done in
      let k = read.0 in
      let sent : deliver response (lookup k st.requests) ≡ out = cc read.2 in
      let got = delivered response d (lookup k st.requests) (rw sent fired) in
      let id = not_strange k (id_of got.0.d log) (
        omega
          (arith, i.known, sum_of-delete (by_key (is_strange log)) k got.0 st.requests got.1)) in
      let waits : waiting d (k, got.0) ≡ 1 = rw (got.2, got.3, ==_refl d) in
      (
        k,
        read.1,
        rw (← got.3) id,
        omega (
          arith,
          i.once d,
          one_if_le (ltb d st.created),
          waits,
          sum_of-delete (waiting d) k got.0 st.requests got.1,
        ),
        sym sent ∙ got.4,
      )
