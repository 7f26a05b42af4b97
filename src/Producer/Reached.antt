-- ===== src/Producer/Reached.antt =====
-- Every deferred of afkak/producer.py's `Producer` fires once or is outstanding, and stop() fires those.
use afkak.Prelude.{
  ℕ, suc, ◌+◌, ◌≤◌, ◌<◌, ◌≡◌, refl, inl, inr, false, List, [], ◌∷◌, ◌++◌, arith, ltb, ◌==◌, ltb→lt,
  ==_refl, Bool-cases,
}
use afkak.Result.{Result, ok}
use afkak.Wire.Text.{Text}
use afkak.MessageSet.Create.{Compressors, SendRequest}
use afkak.Dictionary.{one_if, sum_of-append, All-mono}
use afkak.Producer.{
  Submission, Failure, Batch, idle, finding, waiting, delaying, Settings, Producer, Effect, failed,
  send_messages, submitted, refused, is_refused, send_batch, cancel_send_messages,
  cancel_outstanding, invalid_value, Answer,
}
use afkak.Producer.Batches.{Placement, all_of, deferreds_of}
use afkak.Producer.Answers.{do_retry}
use afkak.Producer.Events.{
  Event, submitting, cancelling, timer_ends, stopping, delay_ends, placed, answered,
  retry_cancelled, place_batch, answer_batch, retry_batch, cancel_batch, step, IsPossible, Reaches,
  made, after, fires, times_fired,
}
use afkak.Producer.Firing.{
  Once, Keeps, Keeps-then_do, Keeps-plain, IsBounded, IsBelow, AllBelow, send_batch-Keeps,
  check_send_batch-Keeps, cancel_send_messages-Keeps, cancel_all-Keeps, count, called_now,
}
use afkak.Producer.Batches.{send_requests}
use afkak.Producer.Once.{send_requests-Keeps, handle_send_response-Keeps, deliver_all-Keeps}

pub record IsKept (st : Producer) (log : List Effect) : Type 0 where
  pub once : Once st log
  pub bounded : IsBounded st

Keeps-IsKept :
    {st : Producer} {log : List Effect} {r : Producer × List Effect}
    → IsKept st log
    → Keeps st r
    → IsKept r.0 (log ++ r.1)
Keeps-IsKept {st} {log} {r} i k = record { once = k.once log i.once; bounded = k.bounded i.bounded }

AllBelow-suc : (n : ℕ) (l : List ℕ) → AllBelow n l → AllBelow (suc n) l
AllBelow-suc n l h = All-mono (λ d. d < n) (λ d. d < suc n) l (λ d lt. omega (arith, lt)) h

IsBelow-suc : (n : ℕ) (b : Batch) → IsBelow n b → IsBelow (suc n) b
IsBelow-suc n idle h = tt
IsBelow-suc n (finding reqs) h = AllBelow-suc n (deferreds_of reqs) h
IsBelow-suc n (waiting payloads deferreds) h = AllBelow-suc n (all_of deferreds) h
IsBelow-suc n (delaying payloads deferreds l) h = AllBelow-suc n (all_of deferreds) h

deferreds_of-AllBelow :
    (n : ℕ) (l : List Submission) (req : Submission)
    → AllBelow (suc n) (deferreds_of l)
    → req.d ≡ n
    → AllBelow (suc n) (deferreds_of (l ++ req ∷ []))
deferreds_of-AllBelow n [] req h e = (omega (arith, e), tt)
deferreds_of-AllBelow n (x ∷ l) req h e = (h.0, deferreds_of-AllBelow n l req h.1 e)

-- The outstanding deferreds were made.
count-AllBelow : (n : ℕ) (l : List ℕ) → ((d : ℕ) → count d l ≤ one_if (ltb d n)) → AllBelow n l
count-AllBelow n [] h = tt
count-AllBelow n (x ∷ l) h = (first, count-AllBelow n l (λ d. omega (arith, h d)))
  where
    first : x < n
    first = elim (Bool-cases (ltb x n)) [
      | inl old ↦ ltb→lt x n old
      | inr new ↦
          let none_ : count x (x ∷ l) ≤ 0 = rw new at (h x) in
          let one : one_if (x == x) ≡ 1 = rw (==_refl x) in absurd (omega (arith, none_, one))
    ]

newer : (d c : ℕ) → one_if (ltb d (suc c)) ≡ one_if (c == d) + one_if (ltb d c)
newer d c = ground arith

module _ {st : Producer} {log : List Effect} (i : IsKept st log) where
  outstanding-AllBelow : AllBelow st.created st.outstanding
  outstanding-AllBelow =
      count-AllBelow st.created st.outstanding (λ d. let k = i.once.kept d in omega (arith, k))

  new_uncalled : (one_if (st.called st.created) ≡ 0) × (count st.created st.outstanding ≡ 0)
  new_uncalled =
      let k = i.once.kept st.created in
      let none_ : one_if (ltb st.created st.created) ≡ 0 = ground arith in
      (omega (arith, k, none_), omega (arith, k, none_))

  uncalled : st.called st.created ≡ false
  uncalled = elim (Bool-cases (st.called st.created)) [
    | inl yes_ ↦
        let one : ◌≡◌ {A = ℕ} 1 0 = rw yes_ at new_uncalled.0 in absurd (omega (arith, one))
    | inr no_ ↦ no_
  ]

  refused-IsKept : IsKept (refused st) (log ++ failed st.created invalid_value ∷ [])
  refused-IsKept = record {
    once = record {
      told = λ d. omega (
        arith,
        i.once.told d,
        sum_of-append (fires d) log (failed st.created invalid_value ∷ []),
        called_now st.called st.created d uncalled,
      );
      kept = λ d.
          omega
            (arith, i.once.kept d, newer d st.created, called_now st.called st.created d uncalled);
    };
    bounded = (
      AllBelow-suc st.created (deferreds_of st.batch_reqs) i.bounded.0,
      IsBelow-suc st.created st.batch i.bounded.1,
    );
  }

  submitted-IsKept :
      (topic : Text) (request : SendRequest) → IsKept (submitted topic request st) log
  submitted-IsKept topic request = record {
    once = record {
      told = λ d. i.once.told d;
      kept = λ d. omega (
        arith,
        i.once.kept d,
        newer d st.created,
        sum_of-append (λ e. one_if (e == d)) st.outstanding (st.created ∷ []),
      );
    };
    bounded = (
      deferreds_of-AllBelow st.created st.batch_reqs
          (record { topic = topic; request = request; d = st.created })
          (AllBelow-suc st.created (deferreds_of st.batch_reqs) i.bounded.0) refl,
      IsBelow-suc st.created st.batch i.bounded.1,
    );
  }

  send_messages-IsKept :
      (s : Settings) (topic : Text) (request : SendRequest)
      → IsKept (send_messages s topic request st).0 (log ++ (send_messages s topic request st).1)
  unfolding send_messages
  send_messages-IsKept s topic request = elim (Bool-cases (is_refused topic request.messages)) [
    | inl bad ↦ simp bad refused-IsKept
    | inr good ↦ simp good (
        Keeps-IsKept (submitted-IsKept topic request)
          (check_send_batch-Keeps s (submitted topic request st)))
  ]

  -- A step without an effect on the deferreds.
  stays : Keeps st (st, [])
  stays = Keeps-plain st st [] refl refl refl tt (λ b. b)

  module _ (c : Compressors) (s : Settings) where
    place_batch-Keeps :
        (n : ℕ) (l : List Placement) (b : Batch)
        → st.batch ≡ b
        → Keeps st (place_batch c s n l b st)
    place_batch-Keeps n l idle e = stays
    place_batch-Keeps n l (finding reqs) e =
        let tried : Producer = record st { attempts = st.attempts + n } in
        Keeps-then_do st (tried, []) (send_requests c s l reqs)
          (Keeps-plain st tried [] refl refl refl tt (λ b. b))
          (send_requests-Keeps c s l reqs tried (rw e at i.bounded.1))
    place_batch-Keeps n l (waiting payloads deferreds) e = stays
    place_batch-Keeps n l (delaying payloads deferreds ps) e = stays

    retry_batch-Keeps : (b : Batch) → st.batch ≡ b → Keeps st (retry_batch c s b st)
    retry_batch-Keeps idle e = stays
    retry_batch-Keeps (finding reqs) e = stays
    retry_batch-Keeps (waiting payloads deferreds) e = stays
    retry_batch-Keeps (delaying payloads deferreds ps) e =
        let next = do_retry payloads deferreds ps st in
        Keeps-plain st next.0 next.1 refl refl refl (tt, tt) (λ b. (b.0, rw e at b.1))

    cancel_batch-Keeps :
        (f : Failure) (b : Batch) → st.batch ≡ b → Keeps st (cancel_batch c s f b st)
    cancel_batch-Keeps f idle e = stays
    cancel_batch-Keeps f (finding reqs) e = stays
    cancel_batch-Keeps f (waiting payloads deferreds) e = stays
    cancel_batch-Keeps f (delaying payloads deferreds ps) e =
        deliver_all-Keeps s payloads deferreds (λ d. failed d f) st (λ d e. refl)
          (rw e at i.bounded.1)

    nothing :
        {r : Producer × List Effect}
        → ◌≡◌ {A = Result (Producer × List Effect)} (ok (st, [])) (ok r)
        → Keeps st r
    nothing {r} h =
        let same : ◌≡◌ {A = Producer × List Effect} (st, []) r = cc h in rw (← same) stays

    answer_batch-Keeps :
        (a : Answer) (b : Batch) {r : Producer × List Effect}
        → st.batch ≡ b
        → answer_batch c s a b st ≡ ok r
        → Keeps st r
    answer_batch-Keeps a idle {r} e h = nothing h
    answer_batch-Keeps a (finding reqs) {r} e h = nothing h
    answer_batch-Keeps a (waiting payloads deferreds) e h =
        handle_send_response-Keeps s payloads deferreds a st (rw e at i.bounded.1) h
    answer_batch-Keeps a (delaying payloads deferreds ps) {r} e h = nothing h

    pub step-IsKept :
        (e : Event) {r : Producer × List Effect}
        → IsPossible e st
        → step c s e st ≡ ok r
        → IsKept r.0 (log ++ r.1)
    unfolding step
    step-IsKept (submitting topic request) {r} p h =
        let same : send_messages s topic request st ≡ r = cc h in
        rw (← same) (send_messages-IsKept s topic request)
    step-IsKept (cancelling d) {r} p h =
        let same : cancel_send_messages d st ≡ r = cc h in
        rw (← same) (Keeps-IsKept i (cancel_send_messages-Keeps d st p.0 p.1))
    step-IsKept timer_ends {r} p h =
        let same : send_batch st ≡ r = cc h in rw (← same) (Keeps-IsKept i (send_batch-Keeps st))
    step-IsKept stopping {r} p h =
        let same : cancel_outstanding st ≡ r = cc h in
        rw (← same) (Keeps-IsKept i (cancel_all-Keeps st.outstanding st outstanding-AllBelow))
    step-IsKept delay_ends {r} p h =
        let same : retry_batch c s st.batch st ≡ r = cc h in
        rw (← same) (Keeps-IsKept i (retry_batch-Keeps st.batch refl))
    step-IsKept (placed n l) {r} p h =
        let same : place_batch c s n l st.batch st ≡ r = cc h in
        rw (← same) (Keeps-IsKept i (place_batch-Keeps n l st.batch refl))
    step-IsKept (answered a) p h = Keeps-IsKept i (answer_batch-Keeps a st.batch refl h)
    step-IsKept (retry_cancelled f) {r} p h =
        let same : cancel_batch c s f st.batch st ≡ r = cc h in
        rw (← same) (Keeps-IsKept i (cancel_batch-Keeps f st.batch refl))

pub Reaches-IsKept :
    (c : Compressors) (s : Settings) {st : Producer} {log : List Effect}
    → Reaches c s st log
    → IsKept st log
Reaches-IsKept c s made = record {
  once = record { told = λ d. refl; kept = λ d. ground arith };
  bounded = (tt, tt);
}
Reaches-IsKept c s (after {next = next} {out = out} e before possible done) =
    step-IsKept (Reaches-IsKept c s before) c s e {r = (next, out)} possible done

-- In every state that a producer comes to, each deferred that send_messages made has fired once or is
-- outstanding, once, and no other deferred has fired or is outstanding.
pub send_messages_once :
    (c : Compressors) (s : Settings) {st : Producer} {log : List Effect} (d : ℕ)
    → Reaches c s st log
    → times_fired d log + count d st.outstanding ≡ one_if (ltb d st.created)
send_messages_once c s d reached =
    let i = Reaches-IsKept c s reached in omega (arith, i.once.told d, i.once.kept d)
