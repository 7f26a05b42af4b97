-- ===== src/Producer/Batches.antt =====
-- The way of a batch in afkak/producer.py: `_send_requests`, `_handle_send_response`, and the events
-- that bring a batch on.
use afkak.Prelude.{
  ℕ, suc, ◌≡◌, refl, ◌↔◌, Bool, true, Option, none, some, List, [], ◌∷◌, ◌++◌, arith, if◌then◌else◌,
}
use afkak.Prelude.Int.{ℤ, eqb_ℤ→eq, eqb_ℤ_refl}
use afkak.Result.{Result, ok, err, ◌>>=◌}
use afkak.MessageSet.{Message}
use afkak.MessageSet.Create.{Compressors, SendRequest, create_message_set}
use afkak.Protocol.Data.{ProduceRequest}
use afkak.Protocol.Grouping.{Eq, Dict, text_eq, lookup, insert}
use afkak.Producer.{
  Part, part_beq, Submission, Failure, waiting, Settings, Producer, Effect, failed, sending,
  deliver_result, complete_batch_send,
}

pub part_beq_iff : (a b : Part) → (part_beq a b ≡ true) ↔ (a ≡ b)
part_beq_iff (t, p) (u, q) = (one, other)
  where
    one : part_beq (t, p) (u, q) ≡ true → ◌≡◌ {A = Part} (t, p) (u, q)
    one h =
        let topic : t ≡ u = (text_eq.beq_iff t u).0 (ground (arith, h)) in
        let partition : p ≡ q = eqb_ℤ→eq p q (ground (arith, h)) in rw (topic, partition)

    other : ◌≡◌ {A = Part} (t, p) (u, q) → part_beq (t, p) (u, q) ≡ true
    other h =
        let topic : t ≡ u = cc h in
        let partition : p ≡ q = cc h in
        rw (topic, partition, (text_eq.beq_iff u u).1 refl, eqb_ℤ_refl q)

instance abbrev pub part_eq : Eq Part
part_eq = record { beq = part_beq; beq_iff = part_beq_iff }

-- What became of the search for a request's partition.
pub data Placement : Type 0 where
  found : ℤ → Placement
  unfound : Failure → Placement

-- d[k] of a defaultdict(list).
abbrev pub listed {ℓ} : {A : Type ℓ} → Option (List A) → List A
listed none = []
listed (some l) = l

abbrev pub append_to : {A : Type 0} → Part → A → Dict Part (List A) → Dict Part (List A)
append_to k a d = insert k (listed (lookup k d) ++ a ∷ []) d

-- The loop of _send_requests: reqsByTopicPart, and the requests without a partition. The deferreds of
-- a batch are distinct, so that a failure in the loop changes no later test.
unfoldable pub place_requests :
    (ℕ → Bool)
    → List (Placement × Submission)
    → Dict Part (List Submission)
    → Dict Part (List Submission)
place_requests called [] d = d
place_requests called ((found p, req) ∷ l) d =
    place_requests called l (if called req.d then d else append_to (req.topic, p) req d)
place_requests called ((unfound f, req) ∷ l) d = place_requests called l d

unfoldable pub fail_unplaced : List (Placement × Submission) → Producer → Producer × List Effect
unfolding deliver_result
fail_unplaced [] st = (st, [])
fail_unplaced ((found p, req) ∷ l) st = fail_unplaced l st
fail_unplaced ((unfound f, req) ∷ l) st =
    let one = deliver_result (λ d. failed d f) (req.d ∷ []) st in
    let rest = fail_unplaced l one.0 in (rest.0, one.1 ++ rest.1)

abbrev pub requests_of : List Submission → List SendRequest
requests_of [] = []
requests_of (req ∷ reqs) = req.request ∷ requests_of reqs

abbrev pub deferreds_of : List Submission → List ℕ
deferreds_of [] = []
deferreds_of (req ∷ reqs) = req.d ∷ deferreds_of reqs

-- payloadsByTopicPart and deferredsByTopicPart, out of reqsByTopicPart.
abbrev pub payload_for : Part → List Message → ProduceRequest
payload_for (topic, partition) messages = record {
  topic = topic;
  partition = partition;
  messages = messages;
}

abbrev pub with_payload :
    Part → List Message → Dict Part ProduceRequest → Result (Dict Part ProduceRequest)
with_payload k messages rest = ok ((k, payload_for k messages) ∷ rest)

unfoldable pub make_payloads :
    Compressors → ℤ → Dict Part (List Submission) → Result (Dict Part ProduceRequest)
make_payloads c codec [] = ok []
make_payloads c codec ((k, reqs) ∷ d) =
    create_message_set c (requests_of reqs) codec >>= λ messages.
    make_payloads c codec d >>= λ rest. with_payload k messages rest

abbrev pub by_part : Dict Part (List Submission) → Dict Part (List ℕ)
by_part [] = []
by_part ((k, reqs) ∷ d) = (k, deferreds_of reqs) ∷ by_part d

abbrev pub values : {A : Type 0} → Dict Part A → List A
values [] = []
values ((k, a) ∷ d) = a ∷ values d

abbrev pub all_of : Dict Part (List ℕ) → List ℕ
all_of [] = []
all_of ((k, l) ∷ d) = l ++ all_of d

-- A step and the next.
infixl 5 ◌then_do◌
abbrev pub ◌then_do◌ :
    Producer × List Effect → (Producer → Producer × List Effect) → Producer × List Effect
now then_do f = let next = f now.0 in (next.0, now.1 ++ next.1)

abbrev pub send_payloads :
    Settings
    → Result (Dict Part ProduceRequest)
    → Dict Part (List ℕ)
    → Producer
    → Producer × List Effect
send_payloads s (err e) deferreds st = complete_batch_send s st
send_payloads s (ok []) deferreds st = complete_batch_send s st
send_payloads s (ok (p ∷ payloads)) deferreds st = (
  record st { batch = waiting (p ∷ payloads) deferreds; attempts = suc st.attempts },
  sending (values (p ∷ payloads)) ∷ [],
)

abbrev pub zip {ℓ κ} : {A : Type ℓ} {B : Type κ} → List A → List B → List (A × B)
zip [] bs = []
zip (a ∷ as_) [] = []
zip (a ∷ as_) (b ∷ bs) = (a, b) ∷ zip as_ bs

-- _send_requests
unfoldable pub send_requests :
    Compressors → Settings → List Placement → List Submission → Producer → Producer × List Effect
unfolding place_requests fail_unplaced make_payloads
send_requests c s placements requests st =
    let placed = zip placements requests in
    let reqs = place_requests st.called placed [] in
    fail_unplaced placed st then_do send_payloads s (make_payloads c s.codec reqs) (by_part reqs)
