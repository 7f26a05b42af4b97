-- ===== src/Producer/Counts.antt =====
-- The counts of afkak/producer.py's `Producer`, by which it decides to send a batch.
use afkak.Prelude.{
  ℕ, ◌≡◌, refl, ◌∙◌, inl, inr, Bool, true, ◌||◌, not, some, List, [], ◌∷◌, Bool-cases, length,
}
use afkak.Prelude.Int.{pos, eqb_ℤ}
use afkak.Dictionary.{sum_of}
use afkak.Protocol.Grouping.{Dict}
use afkak.Protocol.Data.{ProduceRequest, ProduceResponse}
use afkak.Producer.{
  outcome, Part, Submission, Failure, Settings, Producer, Effect, failed, called_back, fired,
  deliver_result, is_full, byte_size, is_busy,
}
use afkak.Producer.Batches.{Placement, found, unfound, fail_unplaced}
use afkak.Producer.Answers.{fail_payloads, deliver_responses, deferreds_at}

abbrev pub messages_in : Submission → ℕ
messages_in req = length req.request.messages

abbrev pub bytes_in : Submission → ℕ
bytes_in req = byte_size req.request.messages

-- The counts are those of the requests that wait for the next batch.
abbrev pub IsCounted : Producer → Type 0
IsCounted st =
    (st.msg_count ≡ pos (sum_of messages_in st.batch_reqs))
    × (st.byte_count ≡ pos (sum_of bytes_in st.batch_reqs))

-- No batch that is full waits while nothing is being sent.
abbrev pub is_ready : Settings → Producer → Bool
is_ready s st = is_busy st.batch || not (is_full s st)

pub record IsPrompt (s : Settings) (st : Producer) : Type 0 where
  pub counted : IsCounted st
  pub ready : is_ready s st ≡ true

-- What the firing of deferreds leaves alone.
pub record Same (st next : Producer) : Type 0 where
  pub reqs : next.batch_reqs ≡ st.batch_reqs
  pub messages : next.msg_count ≡ st.msg_count
  pub bytes : next.byte_count ≡ st.byte_count
  pub batch : next.batch ≡ st.batch

abbrev same_refl : (st : Producer) → Same st st
same_refl st = record { reqs = refl; messages = refl; bytes = refl; batch = refl }

Same-trans : {a b c : Producer} → Same a b → Same b c → Same a c
Same-trans p q = record {
  reqs = q.reqs ∙ p.reqs;
  messages = q.messages ∙ p.messages;
  bytes = q.bytes ∙ p.bytes;
  batch = q.batch ∙ p.batch;
}

pub deliver_result-Same :
    (out : ℕ → Effect) (l : List ℕ) (st : Producer) → Same st (deliver_result out l st).0
unfolding deliver_result
deliver_result-Same out [] st = same_refl st
deliver_result-Same out (d ∷ l) st = elim (Bool-cases (st.called d)) [
  | inl gone ↦ simp gone (deliver_result-Same out l st)
  | inr open_ ↦
      let first : Same st (fired d st) = record {
        reqs = refl;
        messages = refl;
        bytes = refl;
        batch = refl;
      } in
      simp open_ (Same-trans first (deliver_result-Same out l (fired d st)))
]

pub fail_unplaced-Same :
    (l : List (Placement × Submission)) (st : Producer) → Same st (fail_unplaced l st).0
unfolding fail_unplaced
fail_unplaced-Same [] st = same_refl st
fail_unplaced-Same ((found p, req) ∷ l) st = fail_unplaced-Same l st
fail_unplaced-Same ((unfound f, req) ∷ l) st =
    let now = deliver_result (λ d. failed d f) (req.d ∷ []) st in
    Same-trans (deliver_result-Same (λ d. failed d f) (req.d ∷ []) st) (fail_unplaced-Same l now.0)

pub fail_payloads-Same :
    (deferreds : Dict Part (List ℕ)) (l : List (ProduceRequest × Failure)) (st : Producer)
    → Same st (fail_payloads deferreds l st).0
unfolding fail_payloads
fail_payloads-Same deferreds [] st = same_refl st
fail_payloads-Same deferreds ((p, f) ∷ l) st =
    let here = deferreds_at deferreds p.topic p.partition in
    Same-trans (deliver_result-Same (outcome f) here st)
      (fail_payloads-Same deferreds l (deliver_result (outcome f) here st).0)

pub deliver_responses-Same :
    (deferreds : Dict Part (List ℕ)) (rs : List ProduceResponse) (st : Producer)
    → Same st (deliver_responses deferreds rs st).0
unfolding deliver_responses
deliver_responses-Same deferreds [] st = same_refl st
deliver_responses-Same deferreds (res ∷ rs) st = elim (Bool-cases (eqb_ℤ res.error (pos 0))) [
  | inl fine ↦
      let here = deferreds_at deferreds res.topic res.partition in
      let now = deliver_result (λ d. called_back d (some res)) here st in
      simp fine (
        Same-trans (deliver_result-Same (λ d. called_back d (some res)) here st)
          (deliver_responses-Same deferreds rs now.0))
  | inr error ↦ simp error (deliver_responses-Same deferreds rs st)
]

pub Same-IsCounted : {st next : Producer} → Same st next → IsCounted st → IsCounted next
Same-IsCounted same h = rw (same.reqs, same.messages, same.bytes) h

pub Same-IsPrompt :
    (s : Settings) {st next : Producer} → Same st next → IsPrompt s st → IsPrompt s next
Same-IsPrompt s same h = record {
  counted = Same-IsCounted same h.counted;
  ready = rw (same.batch, same.messages, same.bytes) h.ready;
}
