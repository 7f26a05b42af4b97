-- ===== src/Producer/Firing.antt =====
-- The deferreds of afkak/producer.py's `Producer`: each fires once or is outstanding. Here the steps
-- that fire them.
use afkak.Prelude.{
  ℕ, ◌+◌, ◌<◌, ◌≡◌, refl, ◌∙◌, inl, inr, Bool, true, false, Option, none, some, List, [], ◌∷◌, ◌++◌,
  append_assoc, arith, ltb, ◌==◌, if◌then◌else◌, lt→ltb, ==_iff, ==_refl, Bool-cases, length, All,
}
use afkak.Dictionary.{one_if, sum_of, sum_of-append}
use afkak.Producer.{
  handed_error, put_back, byte_size, failed, cancelled, remove, begin_batch, send_batch,
  check_send_batch, complete_batch_send, cancel_send_messages, cancel_all, withdraw, take_request,
  is_full, is_busy, less, Submission, Batch, idle, finding, waiting, delaying, Settings, Producer,
  fired, deliver_result, Effect, called_back, looking_up, sending, retry_later, reset_topics,
}
use afkak.Producer.Batches.{deferreds_of, all_of, ◌then_do◌}
use afkak.Producer.Events.{fires, times_fired}

abbrev pub count : ℕ → List ℕ → ℕ
count d l = sum_of (λ e. one_if (e == d)) l

-- A deferred has fired once if it was called, and else is outstanding; no other is known.
pub record Once (st : Producer) (log : List Effect) : Type 0 where
  pub told : (d : ℕ) → times_fired d log ≡ one_if (st.called d)
  pub kept : (d : ℕ) → one_if (st.called d) + count d st.outstanding ≡ one_if (ltb d st.created)

-- The deferreds of a batch were made.
abbrev pub AllBelow : ℕ → List ℕ → Type 0
AllBelow n l = All (λ d. d < n) l

abbrev pub IsBelow : ℕ → Batch → Type 0
IsBelow n idle = Unit {0}
IsBelow n (finding reqs) = AllBelow n (deferreds_of reqs)
IsBelow n (waiting payloads deferreds) = AllBelow n (all_of deferreds)
IsBelow n (delaying payloads deferreds l) = AllBelow n (all_of deferreds)

abbrev pub IsBounded : Producer → Type 0
IsBounded st = AllBelow st.created (deferreds_of st.batch_reqs) × IsBelow st.created st.batch

-- A step that makes no deferreds and keeps that.
pub record Keeps (st : Producer) (r : Producer × List Effect) : Type 0 where
  pub created : r.0.created ≡ st.created
  pub bounded : IsBounded st → IsBounded r.0
  pub once : (log : List Effect) → Once st log → Once r.0 (log ++ r.1)

pub Keeps-then_do :
    (st : Producer) (r : Producer × List Effect) (f : Producer → Producer × List Effect)
    → Keeps st r
    → Keeps r.0 (f r.0)
    → Keeps st (r then_do f)
Keeps-then_do st r f one two = record {
  created = two.created ∙ one.created;
  bounded = λ b. two.bounded (one.bounded b);
  once = λ log h. rw (← append_assoc log r.1 (f r.0).1) (two.once (log ++ r.1) (one.once log h));
}

-- An effect that fires nothing.
abbrev pub IsPlain : Effect → Type 0
IsPlain (called_back d response) = ⊥
IsPlain (failed d f) = ⊥
IsPlain (handed_error d x) = ⊥
IsPlain _ = Unit {0}

plain-fires : (d : ℕ) (l : List Effect) → All IsPlain l → times_fired d l ≡ 0
plain-fires d [] h = refl
plain-fires d (called_back e response ∷ l) h = elim h.0 [ ]
plain-fires d (failed e f ∷ l) h = elim h.0 [ ]
plain-fires d (handed_error e x ∷ l) h = elim h.0 [ ]
plain-fires d (looking_up reqs ∷ l) h = omega (arith, plain-fires d l h.1)
plain-fires d (sending ps ∷ l) h = omega (arith, plain-fires d l h.1)
plain-fires d (retry_later ps ∷ l) h = omega (arith, plain-fires d l h.1)
plain-fires d (reset_topics ts ∷ l) h = omega (arith, plain-fires d l h.1)

pub Keeps-plain :
    (st next : Producer) (out : List Effect)
    → next.created ≡ st.created
    → next.called ≡ st.called
    → next.outstanding ≡ st.outstanding
    → All IsPlain out
    → (IsBounded st → IsBounded next)
    → Keeps st (next, out)
Keeps-plain st next out created called outstanding h bounded = record {
  created = created;
  bounded = bounded;
  once = λ log o. record {
    told = λ d.
        rw called (omega (arith, o.told d, sum_of-append (fires d) log out, plain-fires d out h));
    kept = λ d. rw (created, called, outstanding) (o.kept d);
  };
}

count-remove :
    (d e : ℕ) (l : List ℕ) → 0 < count d l → count e (remove d l) + one_if (d == e) ≡ count e l
count-remove d e [] h = absurd (omega arith)
count-remove d e (x ∷ l) h = elim (Bool-cases (x == d)) [
  | inl same ↦ let here : x ≡ d = (==_iff x d).0 same in rw same (rw here (omega arith))
  | inr other ↦
      let there : 0 < 0 + count d l = rw other at h in
      rw other (omega (arith, count-remove d e l (omega arith)))
]

pub called_now :
    (called : ℕ → Bool) (d e : ℕ)
    → called d ≡ false
    → one_if (if e == d then true else called e) ≡ one_if (d == e) + one_if (called e)
called_now called d e h = elim (Bool-cases (e == d)) [
  | inl same ↦ let here : e ≡ d = (==_iff e d).0 same in rw (same, here, ==_refl d, h)
  | inr other ↦
      let back : (d == e) ≡ false = ground (arith, other) in rw (other, back) (omega arith)
]

-- The firing of a deferred that was made and not called.
pub fired-Keeps :
    (st : Producer) (d : ℕ) (x : Effect)
    → ((e : ℕ) → fires e x ≡ one_if (d == e))
    → st.called d ≡ false
    → d < st.created
    → Keeps st (fired d st, x ∷ [])
fired-Keeps st d x fires_it open_ old = record {
  created = refl;
  bounded = λ b. b;
  once = λ log o. record {
    told = λ e. omega (
      arith,
      o.told e,
      sum_of-append (fires e) log (x ∷ []),
      fires_it e,
      called_now st.called d e open_,
    );
    kept = λ e.
        let made : one_if (st.called d) + count d st.outstanding ≡ 1 =
          rw (lt→ltb d st.created old) at (o.kept d) in
        let there : 0 + count d st.outstanding ≡ 1 = rw open_ at made in
        omega (
          arith,
          o.kept e,
          called_now st.called d e open_,
          count-remove d e st.outstanding (omega (arith, there)),
        );
  };
}

-- _deliver_result, of deferreds that were made.
pub deliver_result-Keeps :
    (out : ℕ → Effect) (l : List ℕ) (st : Producer)
    → ((d e : ℕ) → fires e (out d) ≡ one_if (d == e))
    → All (λ d. d < st.created) l
    → Keeps st (deliver_result out l st)
unfolding deliver_result
deliver_result-Keeps out [] st f h = Keeps-plain st st [] refl refl refl tt (λ b. b)
deliver_result-Keeps out (d ∷ l) st f h = elim (Bool-cases (st.called d)) [
  | inl called ↦ simp called (deliver_result-Keeps out l st f h.1)
  | inr open_ ↦
      let rest = deliver_result-Keeps out l (fired d st) f h.1 in
      let first = fired-Keeps st d (out d) (f d) open_ h.0 in
      simp open_ (Keeps-then_do st (fired d st, out d ∷ []) (deliver_result out l) first rest)
]

pub send_batch-Keeps : (st : Producer) → Keeps st (send_batch st)
send_batch-Keeps st = by st.batch_reqs st.batch refl
  where
    by : (l : List Submission) (b : Batch) → st.batch_reqs ≡ l → Keeps st (begin_batch l b st)
    by [] b e = Keeps-plain st st [] refl refl refl tt (λ b. b)
    by (req ∷ l) idle e =
        Keeps-plain st (begin_batch (req ∷ l) idle st).0 (begin_batch (req ∷ l) idle st).1 refl refl
          refl (tt, tt) (λ b. (tt, rw e at b.0))
    by (req ∷ l) (finding reqs) e = Keeps-plain st st [] refl refl refl tt (λ b. b)
    by (req ∷ l) (waiting p ds) e = Keeps-plain st st [] refl refl refl tt (λ b. b)
    by (req ∷ l) (delaying p ds ps) e = Keeps-plain st st [] refl refl refl tt (λ b. b)

pub check_send_batch-Keeps : (s : Settings) (st : Producer) → Keeps st (check_send_batch s st)
unfolding check_send_batch
check_send_batch-Keeps s st = elim (Bool-cases (is_full s st)) [
  | inl full ↦ simp full (send_batch-Keeps st)
  | inr room ↦ simp room (Keeps-plain st st [] refl refl refl tt (λ b. b))
]

pub complete_batch_send-Keeps : (s : Settings) (st : Producer) → Keeps st (complete_batch_send s st)
unfolding complete_batch_send
complete_batch_send-Keeps s st =
    let ready : Producer = record st { batch = idle; attempts = 0 } in
    Keeps-then_do st (ready, []) (check_send_batch s)
      (Keeps-plain st ready [] refl refl refl tt (λ b. (b.0, tt))) (check_send_batch-Keeps s ready)

take_request-AllBelow :
    (n d : ℕ) (l : List Submission)
    → AllBelow n (deferreds_of l)
    → (req : Submission) (left : List Submission) → take_request d l ≡ some (req, left)
    → AllBelow n (deferreds_of left)
take_request-AllBelow n d [] h req left e = cc e
take_request-AllBelow n d (x ∷ l) h req left e = elim (Bool-cases (x.d == d)) [
  | inl same ↦ let it : l ≡ left = cc (rw same at e) in rw (← it) h.1
  | inr other ↦ by (take_request d l) (take_request-AllBelow n d l h.1) (rw other at e)
]
  where
    by :
        (o : Option (Submission × List Submission))
        → ((req : Submission) (left : List Submission)
            → ◌≡◌ {A = Option (Submission × List Submission)} o (some (req, left))
            → AllBelow n (deferreds_of left))
        → put_back x o ≡ some (req, left)
        → AllBelow n (deferreds_of left)
    by none f e = cc e
    by (some (found, rest)) f e =
        let it : x ∷ rest ≡ left = cc e in rw (← it) (h.0, f found rest refl)

pub cancel_send_messages-Keeps :
    (d : ℕ) (st : Producer)
    → st.called d ≡ false
    → d < st.created
    → Keeps st (cancel_send_messages d st)
unfolding cancel_send_messages
cancel_send_messages-Keeps d st open_ old = by (take_request d st.batch_reqs) refl
  where
    by :
        (o : Option (Submission × List Submission))
        → take_request d st.batch_reqs ≡ o
        → Keeps st (withdraw d o st)
    by none e = fired-Keeps st d (failed d (cancelled (is_busy st.batch))) (λ e. refl) open_ old
    by (some (req, left)) e =
        let less_ : Producer = record st {
          msg_count = less st.msg_count (length req.request.messages);
          byte_count = less st.byte_count (byte_size req.request.messages);
          batch_reqs = left;
        } in
        Keeps-then_do st (less_, []) (λ st. (fired d st, failed d (cancelled false) ∷ []))
          (Keeps-plain st less_ [] refl refl refl tt
            (λ b. (take_request-AllBelow st.created d st.batch_reqs b.0 req left e, b.1)))
          (fired-Keeps less_ d (failed d (cancelled false)) (λ e. refl) open_ old)

pub cancel_all-Keeps :
    (l : List ℕ) (st : Producer) → AllBelow st.created l → Keeps st (cancel_all l st)
unfolding cancel_all
cancel_all-Keeps [] st h = Keeps-plain st st [] refl refl refl tt (λ b. b)
cancel_all-Keeps (d ∷ l) st h = elim (Bool-cases (st.called d)) [
  | inl called ↦ simp called (cancel_all-Keeps l st h.1)
  | inr open_ ↦
      let one = cancel_send_messages-Keeps d st open_ h.0 in
      let rest = cancel_all-Keeps l (cancel_send_messages d st).0 (rw one.created h.1) in
      simp open_ (Keeps-then_do st (cancel_send_messages d st) (cancel_all l) one rest)
]
