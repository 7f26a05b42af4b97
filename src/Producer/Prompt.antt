-- ===== src/Producer/Prompt.antt =====
-- afkak/producer.py's `Producer` counts right and lets no full batch wait, in every order of events.
use afkak.Prelude.{
  ℕ, ◌+◌, ◌≡◌, refl, inl, inr, Bool, true, false, List, [], ◌∷◌, arith, leb, Bool-cases,
}
use afkak.Result.{Result, ok, err, >>=-eq-ok}
use afkak.MessageSet.Create.{Compressors}
use afkak.Protocol.Data.{ProduceRequest, ProduceResponse}
use afkak.Protocol.Grouping.{Dict}
use afkak.Producer.{
  Part, Submission, Failure, Answer, responses, failed_payloads, total_failure, Batch, idle,
  finding, waiting, delaying, Settings, Producer, new_producer, Effect, failed, deliver_result,
  send_messages, send_batch, cancel_send_messages, cancel_outstanding, complete_batch_send,
}
use afkak.Producer.Batches.{
  Placement, all_of, by_part, values, zip, ◌then_do◌, make_payloads, send_payloads, place_requests,
  fail_unplaced, send_requests,
}
use afkak.Producer.Answers.{
  fail_payloads, retry_or_fail, check_retry_payloads, failed_after, deliver_responses, settled,
  settle, is_kafka, with_failure, unanswered, handle_send_response,
}
use afkak.Producer.Events.{
  Event, submitting, cancelling, timer_ends, stopping, delay_ends, placed, answered,
  retry_cancelled, place_batch, answer_batch, retry_batch, cancel_batch, step, Reaches, made, after,
}
use afkak.Producer.Counts.{
  IsCounted, is_ready, IsPrompt, Same-IsCounted, deliver_result-Same, fail_unplaced-Same,
  fail_payloads-Same, deliver_responses-Same,
}
use afkak.Producer.Checks.{
  complete_batch_send-IsPrompt, send_batch-IsPrompt, send_messages-IsPrompt,
  cancel_send_messages-IsPrompt, cancel_all-IsPrompt,
}

module _ (s : Settings) where
  send_payloads-IsPrompt :
      (r : Result (Dict Part ProduceRequest)) (deferreds : Dict Part (List ℕ)) (st : Producer)
      → IsCounted st
      → IsPrompt s (send_payloads s r deferreds st).0
  send_payloads-IsPrompt (err e) deferreds st h = complete_batch_send-IsPrompt s st h
  send_payloads-IsPrompt (ok []) deferreds st h = complete_batch_send-IsPrompt s st h
  send_payloads-IsPrompt (ok (p ∷ payloads)) deferreds st h = record { counted = h; ready = refl }

  send_requests-IsPrompt :
      (c : Compressors) (l : List Placement) (reqs : List Submission) (st : Producer)
      → IsCounted st
      → IsPrompt s (send_requests c s l reqs st).0
  unfolding send_requests
  send_requests-IsPrompt c l reqs st h =
      let parts = place_requests st.called (zip l reqs) [] in
      send_payloads-IsPrompt (make_payloads c s.codec parts) (by_part parts)
        (fail_unplaced (zip l reqs) st).0 (Same-IsCounted (fail_unplaced-Same (zip l reqs) st) h)

  module _ (payloads : Dict Part ProduceRequest) (deferreds : Dict Part (List ℕ)) where
    retry_or_fail-IsPrompt :
        (b : Bool) (l : List (ProduceRequest × Failure)) (st : Producer)
        → IsCounted st
        → IsPrompt s (retry_or_fail b s payloads deferreds l st).0
    retry_or_fail-IsPrompt true l st h =
        complete_batch_send-IsPrompt s (fail_payloads deferreds l st).0
          (Same-IsCounted (fail_payloads-Same deferreds l st) h)
    retry_or_fail-IsPrompt false l st h = record { counted = h; ready = refl }

    check_retry_payloads-IsPrompt :
        (l : List (ProduceRequest × Failure)) (st : Producer)
        → IsCounted st
        → IsPrompt s (check_retry_payloads s payloads deferreds l st).0
    check_retry_payloads-IsPrompt [] st h = complete_batch_send-IsPrompt s st h
    check_retry_payloads-IsPrompt (x ∷ l) st h =
        retry_or_fail-IsPrompt (leb s.max_attempts st.attempts) (x ∷ l) st h

    deliver_all-IsPrompt :
        (out : ℕ → Effect) (st : Producer)
        → IsCounted st
        → IsPrompt s (deliver_result out (all_of deferreds) st then_do complete_batch_send s).0
    deliver_all-IsPrompt out st h =
        complete_batch_send-IsPrompt s (deliver_result out (all_of deferreds) st).0
          (Same-IsCounted (deliver_result-Same out (all_of deferreds) st) h)

    settle-IsPrompt :
        (rs : List ProduceResponse) (l : List (ProduceRequest × Failure)) (st : Producer)
        {r : Producer × List Effect}
        → IsCounted st
        → settle s payloads deferreds rs l st ≡ ok r
        → IsPrompt s r.0
    settle-IsPrompt rs l st {r} h e =
        let read = >>=-eq-ok (failed_after payloads rs l) (settled s payloads deferreds rs st) e in
        let now = deliver_responses deferreds rs st in
        let same : (now then_do check_retry_payloads s payloads deferreds read.0) ≡ r = cc read.2 in
        rw (← same) (
          check_retry_payloads-IsPrompt read.0 now.0
            (Same-IsCounted (deliver_responses-Same deferreds rs st) h))

    handle_send_response-IsPrompt :
        (a : Answer) (st : Producer) {r : Producer × List Effect}
        → IsCounted st
        → handle_send_response s payloads deferreds a st ≡ ok r
        → IsPrompt s r.0
    unfolding handle_send_response
    handle_send_response-IsPrompt (responses []) st {r} h e =
        let same : (deliver_result (unanswered s) (all_of deferreds) st
              then_do complete_batch_send s)
            ≡ r =
          cc e in
        rw (← same) (deliver_all-IsPrompt (unanswered s) st h)
    handle_send_response-IsPrompt (responses (res ∷ rs)) st h e =
        settle-IsPrompt (res ∷ rs) [] st h e
    handle_send_response-IsPrompt (failed_payloads rs l) st h e = settle-IsPrompt rs l st h e
    handle_send_response-IsPrompt (total_failure f) st {r} h e = elim (Bool-cases (is_kafka f)) [
      | inl kafka ↦
          let same : check_retry_payloads s payloads deferreds (with_failure f (values payloads)) st
              ≡ r =
            cc (rw kafka at e) in
          rw (← same) (check_retry_payloads-IsPrompt (with_failure f (values payloads)) st h)
      | inr other ↦
          let same : (deliver_result (λ d. failed d f) (all_of deferreds) st
                then_do complete_batch_send s)
              ≡ r =
            cc (rw other at e) in
          rw (← same) (deliver_all-IsPrompt (λ d. failed d f) st h)
    ]

  module _ (c : Compressors) (st : Producer) (h : IsPrompt s st) where
    place_batch-IsPrompt :
        (n : ℕ) (l : List Placement) (b : Batch) → IsPrompt s (place_batch c s n l b st).0
    place_batch-IsPrompt n l idle = h
    place_batch-IsPrompt n l (finding reqs) =
        send_requests-IsPrompt c l reqs (record st { attempts = st.attempts + n }) h.counted
    place_batch-IsPrompt n l (waiting payloads deferreds) = h
    place_batch-IsPrompt n l (delaying payloads deferreds ps) = h

    retry_batch-IsPrompt : (b : Batch) → IsPrompt s (retry_batch c s b st).0
    retry_batch-IsPrompt idle = h
    retry_batch-IsPrompt (finding reqs) = h
    retry_batch-IsPrompt (waiting payloads deferreds) = h
    retry_batch-IsPrompt (delaying payloads deferreds ps) = record {
      counted = h.counted;
      ready = refl;
    }

    cancel_batch-IsPrompt : (f : Failure) (b : Batch) → IsPrompt s (cancel_batch c s f b st).0
    cancel_batch-IsPrompt f idle = h
    cancel_batch-IsPrompt f (finding reqs) = h
    cancel_batch-IsPrompt f (waiting payloads deferreds) = h
    cancel_batch-IsPrompt f (delaying payloads deferreds ps) =
        deliver_all-IsPrompt payloads deferreds (λ d. failed d f) st h.counted

    unchanged :
        {r : Producer × List Effect}
        → ◌≡◌ {A = Result (Producer × List Effect)} (ok (st, [])) (ok r)
        → IsPrompt s r.0
    unchanged {r} e = let same : ◌≡◌ {A = Producer × List Effect} (st, []) r = cc e in rw (← same) h

    answer_batch-IsPrompt :
        (a : Answer) (b : Batch) {r : Producer × List Effect}
        → answer_batch c s a b st ≡ ok r
        → IsPrompt s r.0
    answer_batch-IsPrompt a idle {r} e = unchanged e
    answer_batch-IsPrompt a (finding reqs) {r} e = unchanged e
    answer_batch-IsPrompt a (waiting payloads deferreds) e =
        handle_send_response-IsPrompt payloads deferreds a st h.counted e
    answer_batch-IsPrompt a (delaying payloads deferreds ps) {r} e = unchanged e

    step-IsPrompt : (e : Event) {r : Producer × List Effect} → step c s e st ≡ ok r → IsPrompt s r.0
    unfolding step
    step-IsPrompt (submitting topic request) {r} e =
        let same : send_messages s topic request st ≡ r = cc e in
        rw (← same) (send_messages-IsPrompt s topic request st h)
    step-IsPrompt (cancelling d) {r} e =
        let same : cancel_send_messages d st ≡ r = cc e in
        rw (← same) (cancel_send_messages-IsPrompt s d st h)
    step-IsPrompt timer_ends {r} e =
        let same : send_batch st ≡ r = cc e in rw (← same) (send_batch-IsPrompt s st h)
    step-IsPrompt stopping {r} e =
        let same : cancel_outstanding st ≡ r = cc e in
        rw (← same) (cancel_all-IsPrompt s st.outstanding st h)
    step-IsPrompt delay_ends {r} e =
        let same : retry_batch c s st.batch st ≡ r = cc e in
        rw (← same) (retry_batch-IsPrompt st.batch)
    step-IsPrompt (placed n l) {r} e =
        let same : place_batch c s n l st.batch st ≡ r = cc e in
        rw (← same) (place_batch-IsPrompt n l st.batch)
    step-IsPrompt (answered a) e = answer_batch-IsPrompt a st.batch e
    step-IsPrompt (retry_cancelled f) {r} e =
        let same : cancel_batch c s f st.batch st ≡ r = cc e in
        rw (← same) (cancel_batch-IsPrompt f st.batch)

-- In every state that a producer comes to, its counts are the numbers of messages and bytes that wait
-- for the next batch, and while no batch is being sent they are below the thresholds.
pub Reaches-IsPrompt :
    (c : Compressors) (s : Settings) {st : Producer} {log : List Effect}
    → Reaches c s st log
    → IsPrompt s st
Reaches-IsPrompt c s made = record { counted = (refl, refl); ready = ready }
  where
    ready : is_ready s new_producer ≡ true
    ready = ground arith
Reaches-IsPrompt c s (after {st = st} {next = next} {out = out} e before possible done) =
    step-IsPrompt s c st (Reaches-IsPrompt c s before) e {r = (next, out)} done
