-- ===== src/Producer/Checks.antt =====
-- The checks of afkak/producer.py's `Producer` and its cancellations keep the counts.
use afkak.Prelude.{
  ℕ, ◌+◌, ◌≡◌, refl, ap, ◌∙◌, inl, inr, Bool, true, false, ◌||◌, not, Option, none, some, List, [],
  ◌∷◌, arith, ◌==◌, Bool-cases,
}
use afkak.Prelude.Int.{pos}
use afkak.MessageSet.Create.{SendRequest}
use afkak.Wire.Text.{Text}
use afkak.Dictionary.{sum_of, sum_of-append}
use afkak.Producer.{
  Submission, Batch, idle, finding, waiting, delaying, Settings, Producer, begin_batch, send_batch,
  reached, is_full, check_send_batch, is_refused, submitted, send_messages, less, put_back,
  take_request, is_busy, withdraw, cancel_send_messages, cancel_all, complete_batch_send,
}
use afkak.Producer.Counts.{IsCounted, IsPrompt, bytes_in, messages_in}

reached_none : (n : ℕ) → reached n (pos 0) ≡ false
reached_none n = ground arith

ready_below : (busy full : Bool) → full ≡ false → (busy || not full) ≡ true
ready_below true full h = refl
ready_below false full h = rw h

-- _check_send_batch leaves no full batch behind.
pub check_send_batch-IsPrompt :
    (s : Settings) (st : Producer) → IsCounted st → IsPrompt s (check_send_batch s st).0
unfolding check_send_batch
check_send_batch-IsPrompt s st h = elim (Bool-cases (is_full s st)) [
  | inl full ↦ simp full (by st.batch_reqs st.batch refl refl full)
  | inr room ↦
      simp room (record { counted = h; ready = ready_below (is_busy st.batch) (is_full s st) room })
]
  where
    by :
        (l : List Submission) (b : Batch)
        → st.batch_reqs ≡ l
        → st.batch ≡ b
        → is_full s st ≡ true
        → IsPrompt s (begin_batch l b st).0
    by [] b e f full =
        let messages : st.msg_count ≡ pos 0 = rw e at h.0 in
        let bytes : st.byte_count ≡ pos 0 = rw e at h.1 in
        let never : is_full s st ≡ false =
          rw (messages, bytes, reached_none s.batch_every_n, reached_none s.batch_every_b) in
        cc (full, never)
    by (req ∷ l) idle e f full = record { counted = (refl, refl); ready = refl }
    by (req ∷ l) (finding reqs) e f full = record { counted = h; ready = rw f }
    by (req ∷ l) (waiting ps ds) e f full = record { counted = h; ready = rw f }
    by (req ∷ l) (delaying ps ds ls) e f full = record { counted = h; ready = rw f }

pub complete_batch_send-IsPrompt :
    (s : Settings) (st : Producer) → IsCounted st → IsPrompt s (complete_batch_send s st).0
unfolding complete_batch_send
complete_batch_send-IsPrompt s st h =
    check_send_batch-IsPrompt s (record st { batch = idle; attempts = 0 }) h

pub send_batch-IsPrompt :
    (s : Settings) (st : Producer) → IsPrompt s st → IsPrompt s (send_batch st).0
send_batch-IsPrompt s st h = by st.batch_reqs st.batch refl
  where
    by : (l : List Submission) (b : Batch) → st.batch ≡ b → IsPrompt s (begin_batch l b st).0
    by [] b f = h
    by (req ∷ l) idle f = record { counted = (refl, refl); ready = refl }
    by (req ∷ l) (finding reqs) f = h
    by (req ∷ l) (waiting ps ds) f = h
    by (req ∷ l) (delaying ps ds ls) f = h

submitted-IsCounted :
    (topic : Text) (request : SendRequest) (st : Producer)
    → IsCounted st
    → IsCounted (submitted topic request st)
submitted-IsCounted topic request st h =
    let new : Submission = record { topic = topic; request = request; d = st.created } in
    (
      rw h.0 (ap pos (omega (arith, sum_of-append messages_in st.batch_reqs (new ∷ [])))),
      rw h.1 (ap pos (omega (arith, sum_of-append bytes_in st.batch_reqs (new ∷ [])))),
    )

pub send_messages-IsPrompt :
    (s : Settings) (topic : Text) (request : SendRequest) (st : Producer)
    → IsPrompt s st
    → IsPrompt s (send_messages s topic request st).0
unfolding send_messages
send_messages-IsPrompt s topic request st h =
    elim (Bool-cases (is_refused topic request.messages)) [
      | inl bad ↦ simp bad (record { counted = h.counted; ready = h.ready })
      | inr good ↦ simp good (
          check_send_batch-IsPrompt s (submitted topic request st)
            (submitted-IsCounted topic request st h.counted))
    ]

-- A request that is taken out takes its messages with it.
take_request_sum :
    (f : Submission → ℕ) (d : ℕ) (l : List Submission) (req : Submission) (left : List Submission)
    → take_request d l ≡ some (req, left)
    → sum_of f l ≡ sum_of f left + f req
take_request_sum f d [] req left e = cc e
take_request_sum f d (x ∷ l) req left e = elim (Bool-cases (x.d == d)) [
  | inl same ↦
      let it : x ≡ req = cc (rw same at e) in
      let rest : l ≡ left = cc (rw same at e) in rw (← it, ← rest) (omega arith)
  | inr other ↦ by (take_request d l) (take_request_sum f d l) (rw other at e)
]
  where
    by :
        (o : Option (Submission × List Submission))
        → ((req : Submission) (left : List Submission)
            → ◌≡◌ {A = Option (Submission × List Submission)} o (some (req, left))
            → sum_of f l ≡ sum_of f left + f req)
        → put_back x o ≡ some (req, left)
        → sum_of f (x ∷ l) ≡ sum_of f left + f req
    by none g e = cc e
    by (some (taken, rest)) g e =
        let one : taken ≡ req = cc e in
        let two : x ∷ rest ≡ left = cc e in rw (← one, ← two) (omega (arith, g taken rest refl))

less_lem : (a n : ℕ) → less (pos (a + n)) n ≡ pos a
less_lem a n = ground arith

reached_fewer : (n a b : ℕ) → reached n (pos (a + b)) ≡ false → reached n (pos a) ≡ false
reached_fewer n a b h = ground arith

still_ready :
    (s : Settings) (busy : Bool) (a b m n : ℕ)
    → (busy || not (reached s.batch_every_n (pos (a + b)) || reached s.batch_every_b (pos (m + n))))
      ≡ true
    → (busy || not (reached s.batch_every_n (pos a) || reached s.batch_every_b (pos m))) ≡ true
still_ready s true a b m n h = refl
still_ready s false a b m n h =
    let parts =
      neither (reached s.batch_every_n (pos (a + b))) (reached s.batch_every_b (pos (m + n))) h in
    rw (reached_fewer s.batch_every_n a b parts.0, reached_fewer s.batch_every_b m n parts.1)
  where
    neither : (x y : Bool) → not (x || y) ≡ true → (x ≡ false) × (y ≡ false)
    neither true y h = cc h
    neither false true h = cc h
    neither false false h = (refl, refl)

pub cancel_send_messages-IsPrompt :
    (s : Settings) (d : ℕ) (st : Producer)
    → IsPrompt s st
    → IsPrompt s (cancel_send_messages d st).0
unfolding cancel_send_messages
cancel_send_messages-IsPrompt s d st h = by (take_request d st.batch_reqs) refl
  where
    by :
        (o : Option (Submission × List Submission))
        → take_request d st.batch_reqs ≡ o
        → IsPrompt s (withdraw d o st).0
    by none e = record { counted = h.counted; ready = h.ready }
    by (some (req, left)) e =
        let messages = take_request_sum messages_in d st.batch_reqs req left e in
        let bytes = take_request_sum bytes_in d st.batch_reqs req left e in
        let msg_count : st.msg_count ≡ pos (sum_of messages_in left + messages_in req) =
          h.counted.0 ∙ ap pos messages in
        let byte_count : st.byte_count ≡ pos (sum_of bytes_in left + bytes_in req) =
          h.counted.1 ∙ ap pos bytes in
        let fewer : less st.msg_count (messages_in req) ≡ pos (sum_of messages_in left) =
          rw msg_count (less_lem (sum_of messages_in left) (messages_in req)) in
        let smaller : less st.byte_count (bytes_in req) ≡ pos (sum_of bytes_in left) =
          rw byte_count (less_lem (sum_of bytes_in left) (bytes_in req)) in
        record {
          counted = (fewer, smaller);
          ready =
              rw (fewer, smaller)
                (still_ready s (is_busy st.batch) (sum_of messages_in left) (messages_in req)
                  (sum_of bytes_in left) (bytes_in req) (rw (msg_count, byte_count) at h.ready));
        }

pub cancel_all-IsPrompt :
    (s : Settings) (l : List ℕ) (st : Producer) → IsPrompt s st → IsPrompt s (cancel_all l st).0
unfolding cancel_all
cancel_all-IsPrompt s [] st h = h
cancel_all-IsPrompt s (d ∷ l) st h = elim (Bool-cases (st.called d)) [
  | inl gone ↦ simp gone (cancel_all-IsPrompt s l st h)
  | inr open_ ↦ simp open_ (
      cancel_all-IsPrompt s l (cancel_send_messages d st).0
        (cancel_send_messages-IsPrompt s d st h))
]
