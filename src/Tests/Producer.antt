-- ===== src/Tests/Producer.antt =====
-- The theorems on the producer at small batches: two requests that fill one, and a retry of another.
use afkak.Prelude.{ℕ, ◌+◌, ◌≡◌, refl, false, none, some, List, [], ◌∷◌, ◌++◌, arith, ltb}
use afkak.Prelude.Int.{pos}
use afkak.Result.{ok}
use afkak.Wire.Text.{Text}
use afkak.MessageSet.{Message}
use afkak.MessageSet.Create.{SendRequest, create_message, create_message_set}
use afkak.Protocol.Data.{ProduceRequest, ProduceResponse}
use afkak.Protocol.Grouping.{Dict, lookup, insert}
use afkak.Dictionary.{one_if}
use afkak.Producer.{
  raised, Part, Submission, Failure, kafka_error, responses, total_failure, finding, waiting,
  delaying, Settings, Producer, new_producer, looking_up, sending, retry_later, called_back,
  submitted, cancel_outstanding, fired,
}
use afkak.Producer.Batches.{
  part_eq, Placement, found, place_requests, make_payloads, payload_for, values,
}
use afkak.Producer.Answers.{failed_after, handle_send_response}
use afkak.Producer.Events.{submitting, step, Reaches, made, after, times_fired, retry_batch}
use afkak.Producer.Firing.{count}
use afkak.Producer.Reached.{send_messages_once}
use afkak.Producer.Stopping.{cancel_outstanding-fired}
use afkak.Producer.Payloads.{chosen, IsPayload, make_payloads-place_requests}
use afkak.Producer.Resends.{handle_send_response_twice}
use afkak.Producer.Counts.{IsPrompt}
use afkak.Producer.Prompt.{Reaches-IsPrompt}
use afkak.Tests.{compressors}

abbrev settings : Settings
settings = record {
  batch_every_n = 2;
  batch_every_b = 0;
  req_acks = pos 1;
  max_attempts = 5;
  codec = pos 0;
}

abbrev topic : Text
topic = b't' ∷ []

abbrev greeting : SendRequest
greeting = record { key = none; messages = some (b'h' ∷ b'i' ∷ []) ∷ [] }

abbrev one_waits : Producer
one_waits = submitted topic greeting new_producer

abbrev both : List Submission
both =
    record { topic = topic; request = greeting; d = 0 }
    ∷ record { topic = topic; request = greeting; d = 1 }
    ∷ []

abbrev both_go : Producer
both_go = record (submitted topic greeting one_waits) {
  batch_reqs = [];
  msg_count = pos 0;
  byte_count = pos 0;
  batch = finding both;
}

first_waits :
    step compressors settings (submitting topic greeting) new_producer ≡ ok (one_waits, [])
unfolding step
first_waits = refl

second_fills :
    step compressors settings (submitting topic greeting) one_waits
    ≡ ok (both_go, looking_up both ∷ [])
unfolding step
second_fills = refl

reached_both : Reaches compressors settings both_go (looking_up both ∷ [])
reached_both =
    after (submitting topic greeting) (after (submitting topic greeting) made tt first_waits) tt
      second_fills

send_messages_once_example :
    times_fired 1 (looking_up both ∷ []) + count 1 (0 ∷ 1 ∷ []) ≡ one_if (ltb 1 2)
send_messages_once_example = send_messages_once compressors settings 1 reached_both

cancel_outstanding-fired_example :
    times_fired 1 (looking_up both ∷ [] ++ (cancel_outstanding both_go).1) ≡ 1
cancel_outstanding-fired_example =
    cancel_outstanding-fired compressors settings 1 reached_both (omega arith)

Reaches-IsPrompt_example : IsPrompt settings both_go
Reaches-IsPrompt_example = Reaches-IsPrompt compressors settings reached_both

-- Both go to one partition.
abbrev placements : List (Placement × Submission)
placements =
    (found (pos 4), record { topic = topic; request = greeting; d = 0 })
    ∷ (found (pos 4), record { topic = topic; request = greeting; d = 1 })
    ∷ []

abbrev part : Part
part = (topic, pos 4)

abbrev other_part : Part
other_part = (topic, pos 5)

abbrev hi : Message
hi = create_message (some (b'h' ∷ b'i' ∷ [])) none

is_grouped :
    make_payloads compressors (pos 0) (place_requests (λ d. false) placements [])
    ≡ ok ((part, payload_for part (hi ∷ hi ∷ [])) ∷ [])
unfolding make_payloads place_requests lookup insert create_message_set
is_grouped = refl

make_payloads-place_requests_example :
    IsPayload compressors
      (pos 0)
      part
      (chosen (λ d. false) part placements)
      (lookup part ((part, payload_for part (hi ∷ hi ∷ [])) ∷ []))
make_payloads-place_requests_example =
    make_payloads-place_requests compressors (pos 0) (λ d. false) placements part is_grouped

-- Two payloads, of which the first is answered and the second is refused.
abbrev payloads : Dict Part ProduceRequest
payloads = (part, payload_for part (hi ∷ [])) ∷ (other_part, payload_for other_part (hi ∷ [])) ∷ []

abbrev deferreds : Dict Part (List ℕ)
deferreds = (part, 0 ∷ []) ∷ (other_part, 1 ∷ []) ∷ []

abbrev accepted : ProduceResponse
accepted = record { topic = topic; partition = pos 4; error = pos 0; offset = pos 9 }

abbrev timed_out : ProduceResponse
timed_out = record { topic = topic; partition = pos 5; error = pos 7; offset = pos 0 }

abbrev is_sent : Producer
is_sent = record both_go { batch = waiting payloads deferreds; attempts = 1 }

abbrev failed_one : ProduceRequest × Failure
failed_one = (payload_for other_part (hi ∷ []), raised (pos 7))

abbrev half_done : Producer
half_done = record (fired 0 is_sent) {
  batch = delaying payloads deferreds (payload_for other_part (hi ∷ []) ∷ []);
}

abbrev not_done : Producer
not_done = record half_done { batch = delaying payloads deferreds (values payloads); attempts = 2 }

one_failed : failed_after payloads (accepted ∷ timed_out ∷ []) [] ≡ ok (failed_one ∷ [])
unfolding failed_after lookup
one_failed = refl

is_half_done :
    handle_send_response settings payloads deferreds (responses (accepted ∷ timed_out ∷ [])) is_sent
    ≡ ok (
      half_done,
      called_back 0 (some accepted) ∷ retry_later (payload_for other_part (hi ∷ []) ∷ []) ∷ [],
    )
unfolding handle_send_response lookup
is_half_done = refl

fails_again :
    handle_send_response settings payloads deferreds
      (total_failure (kafka_error 1))
      (retry_batch compressors settings half_done.batch half_done).0
    ≡ ok (not_done, retry_later (values payloads) ∷ [])
unfolding handle_send_response
fails_again = refl

handle_send_response_twice_example :
    ((retry_batch compressors settings half_done.batch half_done).1
      ≡ sending (payload_for other_part (hi ∷ []) ∷ []) ∷ [])
    × ((retry_batch compressors settings not_done.batch not_done).1
        ≡ sending (values payloads) ∷ [])
handle_send_response_twice_example =
    handle_send_response_twice compressors settings payloads deferreds is_sent half_done not_done
      (called_back 0 (some accepted) ∷ retry_later (payload_for other_part (hi ∷ []) ∷ []) ∷ [])
      (retry_later (values payloads) ∷ []) accepted (timed_out ∷ []) failed_one [] (kafka_error 1)
      one_failed (omega arith) is_half_done refl (omega arith) fails_again
