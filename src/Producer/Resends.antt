-- ===== src/Producer/Resends.antt =====
-- What afkak/producer.py's retries send again.
use afkak.Prelude.{
  ℕ, suc, ◌<◌, ◌≡◌, refl, sym, ap, ◌∙◌, inl, inr, true, false, some, List, [], ◌∷◌, arith, leb,
  Bool-cases, length,
}
use afkak.Result.{ok}
use afkak.MessageSet.Create.{Compressors}
use afkak.Protocol.Data.{ProduceRequest, ProduceResponse}
use afkak.Protocol.Grouping.{Dict}
use afkak.Prelude.Int.{pos, eqb_ℤ}
use afkak.Producer.{
  deliver_result, fired, called_back, Part, Failure, responses, total_failure, waiting, delaying,
  Settings, Producer, Effect, sending,
}
use afkak.Producer.Batches.{values, ◌then_do◌}
use afkak.Producer.Answers.{
  deferreds_at, payloads_in, is_kafka, with_failure, failed_after, deliver_responses,
  handle_send_response, check_retry_payloads,
}
use afkak.Producer.Events.{retry_batch}

payloads_in-with_failure :
    (f : Failure) (l : List ProduceRequest) → payloads_in (with_failure f l) ≡ l
payloads_in-with_failure f [] = refl
payloads_in-with_failure f (p ∷ l) = ap (λ m. p ∷ m) (payloads_in-with_failure f l)

deliver_result-attempts :
    (out : ℕ → Effect) (l : List ℕ) (st : Producer)
    → (deliver_result out l st).0.attempts ≡ st.attempts
unfolding deliver_result
deliver_result-attempts out [] st = refl
deliver_result-attempts out (d ∷ l) st = elim (Bool-cases (st.called d)) [
  | inl gone ↦ simp gone (deliver_result-attempts out l st)
  | inr open_ ↦ simp open_ (deliver_result-attempts out l (fired d st))
]

deliver_responses-attempts :
    (deferreds : Dict Part (List ℕ)) (rs : List ProduceResponse) (st : Producer)
    → (deliver_responses deferreds rs st).0.attempts ≡ st.attempts
unfolding deliver_responses
deliver_responses-attempts deferreds [] st = refl
deliver_responses-attempts deferreds (res ∷ rs) st = elim (Bool-cases (eqb_ℤ res.error (pos 0))) [
  | inl fine ↦
      let here = deferreds_at deferreds res.topic res.partition in
      let now = deliver_result (λ d. called_back d (some res)) here st in
      simp fine (
        deliver_responses-attempts deferreds rs now.0
        ∙ deliver_result-attempts (λ d. called_back d (some res)) here st)
  | inr error ↦ simp error (deliver_responses-attempts deferreds rs st)
]

nonempty :
    (f : Failure) (payloads : Dict Part ProduceRequest)
    → 0 < length payloads
    → 0 < length (with_failure f (values payloads))
nonempty f [] h = absurd (omega arith)
nonempty f ((k, p) ∷ d) h = omega arith

module _ (c : Compressors) (s : Settings) (payloads : Dict Part ProduceRequest)
    (deferreds : Dict Part (List ℕ)) where
  -- The state in which some payloads wait for their retry.
  abbrev delayed : Producer → List ProduceRequest → Producer
  delayed st l = record st { batch = delaying payloads deferreds l }

  retry_state :
      (l : List (ProduceRequest × Failure)) (st : Producer)
      → 0 < length l
      → st.attempts < s.max_attempts
      → (check_retry_payloads s payloads deferreds l st).0 ≡ delayed st (payloads_in l)
  retry_state [] st some_ left = absurd (omega arith)
  retry_state (x ∷ l) st some_ left =
      let more : leb s.max_attempts st.attempts ≡ false = ground arith in rw more

  -- A retry after responses sends just the payloads that failed. If the client then fails as a whole,
  -- with a KafkaError, the next retry sends every payload of the batch, also those that were answered.
  pub handle_send_response_twice :
      (st first second : Producer) (out out' : List Effect) (res : ProduceResponse)
      (rs : List ProduceResponse) (x : ProduceRequest × Failure)
      (l : List (ProduceRequest × Failure)) (f : Failure)
      → failed_after payloads (res ∷ rs) [] ≡ ok (x ∷ l)
      → suc st.attempts < s.max_attempts
      → handle_send_response s payloads deferreds (responses (res ∷ rs)) st ≡ ok (first, out)
      → is_kafka f ≡ true
      → 0 < length payloads
      → handle_send_response s payloads deferreds
          (total_failure f)
          (retry_batch c s first.batch first).0
        ≡ ok (second, out')
      → ((retry_batch c s first.batch first).1 ≡ sending (payloads_in (x ∷ l)) ∷ [])
        × ((retry_batch c s second.batch second).1 ≡ sending (values payloads) ∷ [])
  unfolding handle_send_response
  handle_send_response_twice st first second out out' res rs x l f h left one kafka some_ two =
      let mid = deliver_responses deferreds (res ∷ rs) st in
      let few : mid.0.attempts < s.max_attempts =
        omega (arith, deliver_responses-attempts deferreds (res ∷ rs) st) in
      let waits = retry_state (x ∷ l) mid.0 (omega arith) few in
      let came : (mid then_do check_retry_payloads s payloads deferreds (x ∷ l)) ≡ (first, out) =
        cc (rw h at one) in
      let state : first ≡ delayed mid.0 (payloads_in (x ∷ l)) = sym (ap (λ r. r.0) came) ∙ waits in
      let again : Producer = record mid.0 {
        batch = waiting payloads deferreds;
        attempts = suc mid.0.attempts;
      } in
      let all = with_failure f (values payloads) in
      let fails : handle_send_response s payloads deferreds (total_failure f) again
          ≡ ok (second, out') =
        rw state at two in
      let retried : check_retry_payloads s payloads deferreds all again ≡ (second, out') =
        cc (rw kafka at fails) in
      let room : again.attempts < s.max_attempts =
        omega (arith, deliver_responses-attempts deferreds (res ∷ rs) st) in
      let last : second ≡ delayed again (payloads_in all) =
        sym (ap (λ r. r.0) retried) ∙ retry_state all again (nonempty f payloads some_) room in
      (rw state, rw (last, payloads_in-with_failure f (values payloads)))
