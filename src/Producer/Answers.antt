-- ===== src/Producer/Answers.antt =====
-- `_handle_send_response` of afkak/producer.py and the retries.
use afkak.Prelude.{
  ℕ, suc, Bool, true, false, ◌||◌, Option, none, some, List, [], ◌∷◌, ◌++◌, leb, if◌then◌else◌,
}
use afkak.Prelude.Int.{ℤ, pos, eqb_ℤ}
use afkak.Result.{Result, ok, err, attribute_error, ◌>>=◌}
use afkak.Wire.Text.{Text}
use afkak.Protocol.Data.{ProduceRequest, ProduceResponse}
use afkak.Protocol.Grouping.{Dict, text_eq, lookup}
use afkak.Producer.{
  raised, cancelled, outcome, Part, Failure, broker_error, kafka_error, no_response, Answer,
  responses, failed_payloads, total_failure, waiting, delaying, Settings, Producer, Effect,
  called_back, failed, sending, retry_later, reset_topics, deliver_result, complete_batch_send,
}
use afkak.Producer.Batches.{part_eq, all_of, listed, values, ◌then_do◌}

-- The failures after which the metadata of a topic is out of date: UnknownTopicOrPartitionError and
-- NotLeaderForPartitionError, as the loop over the responses raises them; a Failure is no instance of
-- these classes.
abbrev pub is_outdated : Failure → Bool
is_outdated (raised e) = eqb_ℤ e (pos 3) || eqb_ℤ e (pos 6)
is_outdated _ = false

abbrev pub add_topic : Text → List Text → List Text
add_topic t [] = t ∷ []
add_topic t (u ∷ l) = if text_eq.beq u t then u ∷ l else u ∷ add_topic t l

abbrev pub outdated : List (ProduceRequest × Failure) → List Text
outdated [] = []
outdated ((p, f) ∷ l) =
    let rest = outdated l in if is_outdated f then add_topic p.topic rest else rest

abbrev pub reset_effect : List Text → List Effect
reset_effect [] = []
reset_effect (t ∷ l) = reset_topics (t ∷ l) ∷ []

abbrev pub payloads_in : List (ProduceRequest × Failure) → List ProduceRequest
payloads_in [] = []
payloads_in ((p, f) ∷ l) = p ∷ payloads_in l

abbrev pub deferreds_at : Dict Part (List ℕ) → Text → ℤ → List ℕ
deferreds_at deferreds topic partition = listed (lookup (topic, partition) deferreds)

unfoldable pub fail_payloads :
    Dict Part (List ℕ) → List (ProduceRequest × Failure) → Producer → Producer × List Effect
unfolding deliver_result lookup
fail_payloads deferreds [] st = (st, [])
fail_payloads deferreds ((p, f) ∷ l) st =
    deliver_result (outcome f) (deferreds_at deferreds p.topic p.partition) st
    then_do fail_payloads deferreds l

-- _check_retry_payloads, where there are any; the delay is left to the reactor.
abbrev pub retry_or_fail :
    Bool
    → Settings
    → Dict Part ProduceRequest
    → Dict Part (List ℕ)
    → List (ProduceRequest × Failure)
    → Producer
    → Producer × List Effect
retry_or_fail true s payloads deferreds l st =
    fail_payloads deferreds l st then_do complete_batch_send s
retry_or_fail false s payloads deferreds l st = (
  record st { batch = delaying payloads deferreds (payloads_in l) },
  retry_later (payloads_in l) ∷ reset_effect (outdated l),
)

abbrev pub check_retry_payloads :
    Settings
    → Dict Part ProduceRequest
    → Dict Part (List ℕ)
    → List (ProduceRequest × Failure)
    → Producer
    → Producer × List Effect
check_retry_payloads s payloads deferreds [] st = complete_batch_send s st
check_retry_payloads s payloads deferreds (x ∷ l) st =
    retry_or_fail (leb s.max_attempts st.attempts) s payloads deferreds (x ∷ l) st

-- The loop over the responses: the payloads that failed, and the deliveries. KafkaClient answers only
-- the payloads that it was given (`_send_broker_aware_request` drops other responses), so that the
-- payload is there; of the empty list that a defaultdict gives otherwise, a later line reads an
-- attribute, which is the error here, without the state behind it.
abbrev pub add_failed :
    Option ProduceRequest
    → ℤ
    → List (ProduceRequest × Failure)
    → Result (List (ProduceRequest × Failure))
add_failed none e l = err attribute_error
add_failed (some p) e l = ok (l ++ (p, raised e) ∷ [])

unfoldable pub failed_after :
    Dict Part ProduceRequest
    → List ProduceResponse
    → List (ProduceRequest × Failure)
    → Result (List (ProduceRequest × Failure))
unfolding lookup
failed_after payloads [] l = ok l
failed_after payloads (res ∷ rs) l =
    (if eqb_ℤ res.error (pos 0)
      then ok l
      else add_failed (lookup (res.topic, res.partition) payloads) res.error l)
    >>= failed_after payloads rs

unfoldable pub deliver_responses :
    Dict Part (List ℕ) → List ProduceResponse → Producer → Producer × List Effect
unfolding deliver_result lookup
deliver_responses deferreds [] st = (st, [])
deliver_responses deferreds (res ∷ rs) st =
    (if eqb_ℤ res.error (pos 0)
      then deliver_result (λ d. called_back d (some res))
          (deferreds_at deferreds res.topic res.partition) st
      else (st, []))
    then_do deliver_responses deferreds rs

abbrev pub settled :
    Settings
    → Dict Part ProduceRequest
    → Dict Part (List ℕ)
    → List ProduceResponse
    → Producer
    → List (ProduceRequest × Failure)
    → Result (Producer × List Effect)
settled s payloads deferreds rs st l =
    ok (deliver_responses deferreds rs st then_do check_retry_payloads s payloads deferreds l)

abbrev pub settle :
    Settings
    → Dict Part ProduceRequest
    → Dict Part (List ℕ)
    → List ProduceResponse
    → List (ProduceRequest × Failure)
    → Producer
    → Result (Producer × List Effect)
settle s payloads deferreds rs l st =
    failed_after payloads rs l >>= λ all. settled s payloads deferreds rs st all

-- Afkak's own CancelledError and NoResponseError are KafkaErrors.
abbrev pub is_kafka : Failure → Bool
is_kafka (broker_error e) = true
is_kafka (raised e) = true
is_kafka (kafka_error n) = true
is_kafka (cancelled sent) = true
is_kafka no_response = true
is_kafka _ = false

abbrev pub with_failure : Failure → List ProduceRequest → List (ProduceRequest × Failure)
with_failure f [] = []
with_failure f (p ∷ l) = (p, f) ∷ with_failure f l

-- What a deferred of the batch gets where the client answers nothing.
abbrev pub unanswered : Settings → ℕ → Effect
unanswered s d = if eqb_ℤ s.req_acks (pos 0) then called_back d none else failed d no_response

-- _handle_send_response
unfoldable pub handle_send_response :
    Settings
    → Dict Part ProduceRequest
    → Dict Part (List ℕ)
    → Answer
    → Producer
    → Result (Producer × List Effect)
unfolding failed_after deliver_responses fail_payloads deliver_result
handle_send_response s payloads deferreds (responses []) st =
    ok (deliver_result (unanswered s) (all_of deferreds) st then_do complete_batch_send s)
handle_send_response s payloads deferreds (responses (res ∷ rs)) st =
    settle s payloads deferreds (res ∷ rs) [] st
handle_send_response s payloads deferreds (failed_payloads rs l) st =
    settle s payloads deferreds rs l st
handle_send_response s payloads deferreds (total_failure f) st = ok (
    if is_kafka f
    then check_retry_payloads s payloads deferreds (with_failure f (values payloads)) st
    else deliver_result (λ d. failed d f) (all_of deferreds) st then_do complete_batch_send s)

-- _do_retry
abbrev pub do_retry :
    Dict Part ProduceRequest
    → Dict Part (List ℕ)
    → List ProduceRequest
    → Producer
    → Producer × List Effect
do_retry payloads deferreds l st =
    (record st { batch = waiting payloads deferreds; attempts = suc st.attempts }, sending l ∷ [])

-- _cancel_retry, and the end of the batch with its failure.
abbrev pub cancel_retry :
    Settings → Dict Part (List ℕ) → Failure → Producer → Producer × List Effect
cancel_retry s deferreds f st =
    deliver_result (λ d. failed d f) (all_of deferreds) st then_do complete_batch_send s
