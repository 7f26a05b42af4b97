-- ===== src/Producer/Payloads.antt =====
-- What afkak/producer.py's _send_requests puts into the payloads of a batch.
use afkak.Prelude.{
  ℕ, ◌≡◌, refl, sym, ap, ◌∙◌, inl, inr, Bool, ◌&&◌, not, Option, none, some, List, [], ◌∷◌, ◌++◌,
  append_assoc, if◌then◌else◌, Bool-cases,
}
use afkak.Prelude.Int.{ℤ}
use afkak.Result.{ok, ◌>>=◌, >>=-eq-ok}
use afkak.MessageSet.{Message}
use afkak.MessageSet.Create.{Compressors, create_message_set}
use afkak.Protocol.Data.{ProduceRequest}
use afkak.Protocol.Grouping.{Dict, lookup, lookup-insert}
use afkak.Producer.{Part, Submission}
use afkak.Producer.Batches.{
  part_eq, Placement, found, unfound, listed, append_to, place_requests, requests_of, make_payloads,
  payload_for, with_payload,
}

-- The requests that go to a partition of a topic, in their order.
abbrev pub chosen : (ℕ → Bool) → Part → List (Placement × Submission) → List Submission
chosen called k [] = []
chosen called k ((found p, req) ∷ l) =
    let rest = chosen called k l in
    if not (called req.d) && part_eq.beq (req.topic, p) k then req ∷ rest else rest
chosen called k ((unfound f, req) ∷ l) = chosen called k l

abbrev more : Option (List Submission) → List Submission → Option (List Submission)
more o [] = o
more o (x ∷ xs) = some (listed o ++ x ∷ xs)

more_last :
    (o : Option (List Submission)) (req : Submission) (xs : List Submission)
    → more (some (listed o ++ req ∷ [])) xs ≡ some (listed o ++ req ∷ xs)
more_last o req [] = refl
more_last o req (x ∷ xs) = ap some (append_assoc (listed o) (req ∷ []) (x ∷ xs))

place_requests_lem :
    (called : ℕ → Bool) (l : List (Placement × Submission)) (d : Dict Part (List Submission))
    (k : Part)
    → lookup k (place_requests called l d) ≡ more (lookup k d) (chosen called k l)
unfolding place_requests
place_requests_lem called [] d k = refl
place_requests_lem called ((unfound f, req) ∷ l) d k = place_requests_lem called l d k
place_requests_lem called ((found p, req) ∷ l) d k = elim (Bool-cases (called req.d)) [
  | inl gone ↦ rw gone (place_requests_lem called l d k)
  | inr open_ ↦
      let rest = place_requests_lem called l (append_to (req.topic, p) req d) k in
      let put = lookup-insert (req.topic, p) k (listed (lookup (req.topic, p) d) ++ req ∷ []) d in
      elim (Bool-cases (part_eq.beq (req.topic, p) k)) [
        | inl same ↦
            let here : ◌≡◌ {A = Part} (req.topic, p) k =
              (part_eq.beq_iff (req.topic, p) k).0 same in
            rw (open_, same)
              (rest ∙ rw put (rw same (rw here (more_last (lookup k d) req (chosen called k l)))))
        | inr other ↦ rw (open_, other) (rest ∙ rw put (rw other))
      ]
]

-- What a dictionary of payloads has for a partition: nothing without a request, and else the message
-- set of the requests.
abbrev pub IsPayload : Compressors → ℤ → Part → List Submission → Option ProduceRequest → Type 0
IsPayload c codec k [] o = o ≡ none
IsPayload c codec k (x ∷ xs) o =
    (messages : List Message) × (create_message_set c (requests_of (x ∷ xs)) codec ≡ ok messages)
    × (o ≡ some (payload_for k messages))

-- An entry of the dictionary and the rest of it.
with_payload_lem :
    (c : Compressors) (codec : ℤ) (j : Part) (reqs : List Submission)
    (d : Dict Part (List Submission)) {payloads : Dict Part ProduceRequest}
    → make_payloads c codec ((j, reqs) ∷ d) ≡ ok payloads
    → (messages : List Message) × (rest : Dict Part ProduceRequest) × (create_message_set c
          (requests_of reqs)
          codec
        ≡ ok messages)
      × (make_payloads c codec d ≡ ok rest)
      × (payloads ≡ (j, payload_for j messages) ∷ rest)
unfolding make_payloads
with_payload_lem c codec j reqs d {payloads} h =
    let then_ = λ (messages : List Message).
      make_payloads c codec d >>= λ rest. with_payload j messages rest in
    let one = >>=-eq-ok (create_message_set c (requests_of reqs) codec) then_ h in
    let two = >>=-eq-ok (make_payloads c codec d) (with_payload j one.0) one.2 in
    (one.0, two.0, one.1, two.1, cc two.2)

make_payloads_lem :
    (c : Compressors) (codec : ℤ) (d : Dict Part (List Submission))
    {payloads : Dict Part ProduceRequest} (k : Part)
    → make_payloads c codec d ≡ ok payloads
    → (reqs : List Submission) → lookup k d ≡ more none reqs
    → IsPayload c codec k reqs (lookup k payloads)
unfolding make_payloads lookup
make_payloads_lem c codec [] {payloads} k h [] e = let none_ : [] ≡ payloads = cc h in rw (← none_)
make_payloads_lem c codec [] k h (x ∷ xs) e = cc e
make_payloads_lem c codec ((j, reqs) ∷ d) {payloads} k h l e =
    let parts = with_payload_lem c codec j reqs d h in
    elim (Bool-cases (part_eq.beq j k)) [
      | inl same ↦
          let here : j ≡ k = (part_eq.beq_iff j k).0 same in
          let found : lookup k payloads ≡ some (payload_for k parts.0) =
            rw parts.4 (rw (same, here)) in
          rw found (by l parts.0 parts.2 (rw same at e))
      | inr other ↦
          let behind : lookup k payloads ≡ lookup k parts.1 = rw parts.4 (rw other) in
          rw behind (make_payloads_lem c codec d k parts.3 l (rw other at e))
    ]
  where
    by :
        (l : List Submission) (messages : List Message)
        → create_message_set c (requests_of reqs) codec ≡ ok messages
        → some reqs ≡ more none l
        → IsPayload c codec k l (some (payload_for k messages))
    by [] messages made e = cc e
    by (x ∷ xs) messages made e =
        let same : reqs ≡ x ∷ xs = cc e in
        (messages, ap (λ r. create_message_set c (requests_of r) codec) (sym same) ∙ made, refl)

-- If the batch can be sent, the payload of a partition of a topic is the message set of exactly the
-- requests that were found to go there and were not cancelled, in their order; a partition without
-- such a request has no payload.
pub make_payloads-place_requests :
    (c : Compressors) (codec : ℤ) (called : ℕ → Bool) (l : List (Placement × Submission))
    {payloads : Dict Part ProduceRequest} (k : Part)
    → make_payloads c codec (place_requests called l []) ≡ ok payloads
    → IsPayload c codec k (chosen called k l) (lookup k payloads)
unfolding lookup
make_payloads-place_requests c codec called l k h =
    make_payloads_lem c codec (place_requests called l []) k h (chosen called k l)
      (place_requests_lem called l [] k)
