-- ===== src/Producer/Once.antt =====
-- The deferreds of afkak/producer.py's `Producer` fire once each, in every order of events.
use afkak.Prelude.{
  ℕ, ◌≡◌, refl, inl, inr, Bool, true, false, some, List, [], ◌∷◌, leb, ◌==◌, Bool-cases, All,
}
use afkak.Prelude.Int.{pos, eqb_ℤ}
use afkak.Result.{Result, ok, err, >>=-eq-ok}
use afkak.Wire.Text.{Text}
use afkak.MessageSet.Create.{Compressors}
use afkak.Protocol.Data.{ProduceRequest, ProduceResponse}
use afkak.Protocol.Grouping.{Dict}
use afkak.Dictionary.{one_if}
use afkak.Producer.{
  raised, cancelled, outcome, broker_error, kafka_error, other_error, no_response, invalid_value,
  Failure, Part, Submission, Failure, Answer, responses, failed_payloads, total_failure, Settings,
  Producer, Effect, called_back, failed, deliver_result, complete_batch_send,
}
use afkak.Producer.Batches.{
  Placement, ◌then_do◌, all_of, by_part, make_payloads, values, send_payloads, place_requests,
  fail_unplaced, zip, send_requests, deferreds_of,
}
use afkak.Producer.Answers.{
  settled, fail_payloads, deferreds_at, retry_or_fail, check_retry_payloads, failed_after,
  deliver_responses, settle, is_kafka, with_failure, unanswered, handle_send_response, reset_effect,
  outdated,
}
use afkak.Producer.Events.{fires}
use afkak.Producer.Firing.{
  Keeps, Keeps-plain, Keeps-then_do, AllBelow, deliver_result-Keeps, complete_batch_send-Keeps,
  IsPlain,
}
use afkak.Producer.Placing.{
  deferreds_at-AllBelow, zip-AllBelow, place_requests-AllBelow, fail_unplaced-Keeps,
}

send_payloads-Keeps :
    (s : Settings) (r : Result (Dict Part ProduceRequest)) (deferreds : Dict Part (List ℕ))
    (st : Producer)
    → AllBelow st.created (all_of deferreds)
    → Keeps st (send_payloads s r deferreds st)
send_payloads-Keeps s (err e) deferreds st h = complete_batch_send-Keeps s st
send_payloads-Keeps s (ok []) deferreds st h = complete_batch_send-Keeps s st
send_payloads-Keeps s (ok (p ∷ payloads)) deferreds st h =
    Keeps-plain st (send_payloads s (ok (p ∷ payloads)) deferreds st).0
      (send_payloads s (ok (p ∷ payloads)) deferreds st).1 refl refl refl (tt, tt) (λ b. (b.0, h))

pub send_requests-Keeps :
    (c : Compressors) (s : Settings) (l : List Placement) (reqs : List Submission) (st : Producer)
    → AllBelow st.created (deferreds_of reqs)
    → Keeps st (send_requests c s l reqs st)
unfolding send_requests
send_requests-Keeps c s l reqs st h =
    let bound = zip-AllBelow st.created l reqs h in
    let parts = place_requests st.called (zip l reqs) [] in
    let first = fail_unplaced-Keeps (zip l reqs) st bound in
    let next = (fail_unplaced (zip l reqs) st).0 in
    let parts_below = place_requests-AllBelow st.created st.called (zip l reqs) [] bound tt in
    Keeps-then_do st (fail_unplaced (zip l reqs) st)
      (send_payloads s (make_payloads c s.codec parts) (by_part parts)) first
      (send_payloads-Keeps s (make_payloads c s.codec parts) (by_part parts) next
        (rw first.created parts_below))

outcome-fires : (f : Failure) (d e : ℕ) → fires e (outcome f d) ≡ one_if (d == e)
outcome-fires (raised x) d e = refl
outcome-fires (cancelled sent) d e = refl
outcome-fires (broker_error x) d e = refl
outcome-fires (kafka_error x) d e = refl
outcome-fires (other_error x) d e = refl
outcome-fires no_response d e = refl
outcome-fires invalid_value d e = refl

fail_payloads-Keeps :
    (deferreds : Dict Part (List ℕ)) (l : List (ProduceRequest × Failure)) (st : Producer)
    → AllBelow st.created (all_of deferreds)
    → Keeps st (fail_payloads deferreds l st)
unfolding fail_payloads
fail_payloads-Keeps deferreds [] st h = Keeps-plain st st [] refl refl refl tt (λ b. b)
fail_payloads-Keeps deferreds ((p, f) ∷ l) st h =
    let here = deferreds_at deferreds p.topic p.partition in
    let now = deliver_result (outcome f) here st in
    let one =
      deliver_result-Keeps (outcome f) here st (outcome-fires f)
        (deferreds_at-AllBelow st.created deferreds p.topic p.partition h) in
    Keeps-then_do st now (fail_payloads deferreds l) one
      (fail_payloads-Keeps deferreds l now.0 (rw one.created h))

deliver_responses-Keeps :
    (deferreds : Dict Part (List ℕ)) (rs : List ProduceResponse) (st : Producer)
    → AllBelow st.created (all_of deferreds)
    → Keeps st (deliver_responses deferreds rs st)
unfolding deliver_responses
deliver_responses-Keeps deferreds [] st h = Keeps-plain st st [] refl refl refl tt (λ b. b)
deliver_responses-Keeps deferreds (res ∷ rs) st h =
    let here = deferreds_at deferreds res.topic res.partition in
    let now = deliver_result (λ d. called_back d (some res)) here st in
    let one =
      deliver_result-Keeps (λ d. called_back d (some res)) here st (λ d e. refl)
        (deferreds_at-AllBelow st.created deferreds res.topic res.partition h) in
    elim (Bool-cases (eqb_ℤ res.error (pos 0))) [
      | inl fine ↦ simp fine (
          Keeps-then_do st now (deliver_responses deferreds rs) one
            (deliver_responses-Keeps deferreds rs now.0 (rw one.created h)))
      | inr error ↦ simp error (deliver_responses-Keeps deferreds rs st h)
    ]

module _ (s : Settings) (payloads : Dict Part ProduceRequest) (deferreds : Dict Part (List ℕ)) where
  retry_or_fail-Keeps :
      (b : Bool) (l : List (ProduceRequest × Failure)) (st : Producer)
      → AllBelow st.created (all_of deferreds)
      → Keeps st (retry_or_fail b s payloads deferreds l st)
  retry_or_fail-Keeps true l st h =
      Keeps-then_do st (fail_payloads deferreds l st) (complete_batch_send s)
        (fail_payloads-Keeps deferreds l st h)
        (complete_batch_send-Keeps s (fail_payloads deferreds l st).0)
  retry_or_fail-Keeps false l st h =
      let next = retry_or_fail false s payloads deferreds l st in
      Keeps-plain st next.0 next.1 refl refl refl (tt, resets (outdated l)) (λ b. (b.0, h))
    where
      resets : (l : List Text) → All IsPlain (reset_effect l)
      resets [] = tt
      resets (t ∷ l) = (tt, tt)

  check_retry_payloads-Keeps :
      (l : List (ProduceRequest × Failure)) (st : Producer)
      → AllBelow st.created (all_of deferreds)
      → Keeps st (check_retry_payloads s payloads deferreds l st)
  check_retry_payloads-Keeps [] st h = complete_batch_send-Keeps s st
  check_retry_payloads-Keeps (x ∷ l) st h =
      retry_or_fail-Keeps (leb s.max_attempts st.attempts) (x ∷ l) st h

  -- The whole batch gets one result.
  pub deliver_all-Keeps :
      (out : ℕ → Effect) (st : Producer)
      → ((d e : ℕ) → fires e (out d) ≡ one_if (d == e))
      → AllBelow st.created (all_of deferreds)
      → Keeps st (deliver_result out (all_of deferreds) st then_do complete_batch_send s)
  deliver_all-Keeps out st f h =
      let now = deliver_result out (all_of deferreds) st in
      Keeps-then_do st now (complete_batch_send s)
        (deliver_result-Keeps out (all_of deferreds) st f h) (complete_batch_send-Keeps s now.0)

  settle-Keeps :
      (rs : List ProduceResponse) (l : List (ProduceRequest × Failure)) (st : Producer)
      {r : Producer × List Effect}
      → AllBelow st.created (all_of deferreds)
      → settle s payloads deferreds rs l st ≡ ok r
      → Keeps st r
  settle-Keeps rs l st {r} h e =
      let finish = settled s payloads deferreds rs st in
      let read = >>=-eq-ok (failed_after payloads rs l) finish e in
      let now = deliver_responses deferreds rs st in
      let one = deliver_responses-Keeps deferreds rs st h in
      let two = check_retry_payloads-Keeps read.0 now.0 (rw one.created h) in
      let all = Keeps-then_do st now (check_retry_payloads s payloads deferreds read.0) one two in
      let same : (now then_do check_retry_payloads s payloads deferreds read.0) ≡ r = cc read.2 in
      rw (← same) all

  pub handle_send_response-Keeps :
      (a : Answer) (st : Producer) {r : Producer × List Effect}
      → AllBelow st.created (all_of deferreds)
      → handle_send_response s payloads deferreds a st ≡ ok r
      → Keeps st r
  unfolding handle_send_response
  handle_send_response-Keeps (responses []) st {r} h e =
      let all = deliver_all-Keeps (unanswered s) st unanswered-fires h in
      let same : (deliver_result (unanswered s) (all_of deferreds) st then_do complete_batch_send s)
          ≡ r =
        cc e in
      rw (← same) all
    where
      unanswered-fires : (d e : ℕ) → fires e (unanswered s d) ≡ one_if (d == e)
      unanswered-fires d e = elim (Bool-cases (eqb_ℤ s.req_acks (pos 0))) [
        | inl none_ ↦ rw none_
        | inr some_ ↦ rw some_
      ]
  handle_send_response-Keeps (responses (res ∷ rs)) st h e = settle-Keeps (res ∷ rs) [] st h e
  handle_send_response-Keeps (failed_payloads rs l) st h e = settle-Keeps rs l st h e
  handle_send_response-Keeps (total_failure f) st {r} h e = elim (Bool-cases (is_kafka f)) [
    | inl kafka ↦
        let same : check_retry_payloads s payloads deferreds (with_failure f (values payloads)) st
            ≡ r =
          cc (rw kafka at e) in
        rw (← same) (check_retry_payloads-Keeps (with_failure f (values payloads)) st h)
    | inr other ↦
        let same : (deliver_result (λ d. failed d f) (all_of deferreds) st
              then_do complete_batch_send s)
            ≡ r =
          cc (rw other at e) in
        rw (← same) (deliver_all-Keeps (λ d. failed d f) st (λ d e. refl) h)
  ]
