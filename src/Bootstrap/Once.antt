-- ===== src/Bootstrap/Once.antt =====
-- Every deferred of `KafkaBootstrapProtocol` fires once.
use afkak.Prelude.{
  ℕ, ◌+◌, ◌≤◌, ◌<◌, ◌≡◌, refl, sym, ap, inl, inr, false, Option, none, some, List, [], ◌∷◌, ◌++◌,
  arith, ltb, lt→ltb, Bool-cases,
}
use afkak.Result.{Result, ok, err}
use afkak.Wire.Struct.{Bytes}
use afkak.Protocol.Grouping.{Dict, text_eq, lookup}
use afkak.Dictionary.{one_if}
use afkak.Bootstrap.{
  Reason, Effect, called_back, lose_connection, BootstrapProtocol, pop, response_id, request_id,
  cancel, popped, received, lost, asked, unless_pending, Event, receive, oversize, lose, ask,
  time_out, step, Reaches, made, after, IsPossible,
}
use afkak.Bootstrap.Books.{
  times_fired, times_settled, held-insert, held-pop, times_waiting, IsCounted, Books, Moves, Counts,
  one_if_most, Books-Moves, one_if-suc, one_if-mark, mark_itself, IsFiring, settle-settles,
  settle-fires, settle_le, fail_all-Fails, fires, settles,
}

module _ (d : ℕ) (st : BootstrapProtocol) where
  unchanged : (x : Effect) → fires d x ≡ 0 → settles d x ≡ 0 → Moves d st st (x ∷ [])
  unchanged x f g = record {
    ended = omega (arith, g);
    told = omega (arith, f);
    still = λ h. omega (arith, g);
    fresh = omega (arith, f);
    grows = omega arith;
  }

  popped-Counts :
      (response : Bytes) (p : Dict Bytes ℕ)
      → st.pending ≡ some p
      → (r : Option (ℕ × Dict Bytes ℕ)) → pop (response_id response) p ≡ r
      → Counts d st (ok (popped st response r))
  popped-Counts response p here none back = unchanged lose_connection refl refl
  popped-Counts response p here (some (e, q)) back =
      let x = called_back e response in
      let f : IsFiring e d x = record { one = refl; two = refl } in
      let count = held-pop d e (response_id response) p q back in
      let settled = settle-settles st.called d e x f in
      record {
        ended = rw here (omega (arith, count, settled));
        told = omega (arith, settle-fires st.called d e x f);
        still = λ h. omega (arith, settled, mark_itself st.called d e h);
        fresh = omega (arith, settle_le st.called d e x f);
        grows = omega arith;
      }

  received-Counts :
      (response : Bytes) (o : Option (Dict Bytes ℕ))
      → st.pending ≡ o
      → Counts d st (received st response o)
  received-Counts response none here = tt
  received-Counts response (some p) here = popped-Counts response p here _ refl

  lost-Counts :
      (reason : Reason) (o : Option (Dict Bytes ℕ))
      → st.pending ≡ o
      → Counts d st (lost st reason o)
  lost-Counts reason none here = tt
  lost-Counts reason (some p) here =
      let all = fail_all-Fails d reason st.called p in
      record {
        ended = rw here (omega (arith, all.ended));
        told = all.told;
        still = all.still;
        fresh = omega (arith, all.fresh);
        grows = omega arith;
      }

  unless_pending-Counts :
      (bytes : Bytes) (p : Dict Bytes ℕ)
      → st.pending ≡ some p
      → (r : Option ℕ) → lookup (request_id bytes) p ≡ r
      → Counts d st (unless_pending st bytes p r)
  unless_pending-Counts bytes p here (some e) back = tt
  unless_pending-Counts bytes p here none back =
      let count = one_if-suc d st.created in
      record {
        ended = rw here (omega (arith, held-insert d st.created (request_id bytes) p back, count));
        told = omega arith;
        still = λ h. refl;
        fresh = omega arith;
        grows = omega (arith, count);
      }

  -- A deferred that is made is not one that has fired.
  asked-Counts :
      (bytes : Bytes) (f : Option Reason) (o : Option (Dict Bytes ℕ))
      → st.pending ≡ o
      → st.called st.created ≡ false
      → Counts d st (asked st bytes f o)
  asked-Counts bytes (some reason) o here open_ =
      let count = one_if-suc d st.created in
      record {
        ended = omega (arith, count);
        told = omega (arith, one_if-mark st.called d st.created open_);
        still = λ h. omega (arith, mark_itself st.called d st.created h);
        fresh = omega arith;
        grows = omega (arith, count);
      }
  asked-Counts bytes none none here open_ = tt
  asked-Counts bytes none (some p) here open_ = unless_pending-Counts bytes p here _ refl

  cancel-Moves : (e : ℕ) → e < st.created → Moves d st (cancel st e).0 (cancel st e).1
  cancel-Moves e made_before = elim (Bool-cases (st.called e)) [
    | inl gone ↦ rw gone (record {
      ended = omega arith;
      told = omega arith;
      still = λ h. refl;
      fresh = omega arith;
      grows = omega arith;
    })
    | inr open_ ↦ rw open_ (record {
      ended = omega arith;
      told = omega (arith, one_if-mark st.called d e open_);
      still = λ h. refl;
      fresh = ground (arith, made_before);
      grows = omega arith;
    })
  ]

  step-Counts :
      (e : Event) → IsPossible e st → st.called st.created ≡ false → Counts d st (step e st)
  unfolding step
  step-Counts (receive response) possible open_ = received-Counts response st.pending refl
  step-Counts oversize possible open_ = unchanged lose_connection refl refl
  step-Counts (lose reason) possible open_ = lost-Counts reason st.pending refl
  step-Counts (ask bytes) possible open_ = asked-Counts bytes st.failed st.pending refl open_
  step-Counts (time_out e) possible open_ = cancel-Moves e possible

-- One that has fired was made, so that the next one has not.
next_open :
    (st : BootstrapProtocol) (log : List Effect)
    → Books st.created st log
    → st.called st.created ≡ false
next_open st log b = elim (Bool-cases (st.called st.created)) [
  | inl gone ↦
      let bad : 1 ≤ one_if (ltb st.created st.created) = rw gone at b.old in ground (arith, bad)
  | inr open_ ↦ open_
]

Reaches-Books :
    (st : BootstrapProtocol) (log : List Effect) → Reaches st log → (d : ℕ) → Books d st log
Reaches-Books st log made d = record {
  ended = ground arith;
  told = omega arith;
  still = λ h. refl;
  old = omega arith;
}
Reaches-Books last log
      (after {st = st} {next = next} {log = before} {out = out} e reached possible h) d =
    let known = Reaches-Books st before reached in
    let open_ = next_open st before (known st.created) in
    Books-Moves d st next before out (known d) (rw h at (step-Counts d st e possible open_))

Books-fired :
    (d : ℕ) (st : BootstrapProtocol) (log : List Effect)
    → Books d st log
    → times_fired d log + times_waiting d st ≡ one_if (ltb d st.created)
Books-fired d st log b = elim (Bool-cases (st.called d)) [
  | inl gone ↦
      let one : times_fired d log ≡ 1 = rw gone at b.told in
      let most : 1 ≤ one_if (ltb d st.created) = rw gone at b.old in
      rw gone (omega (arith, one, most, one_if_most (ltb d st.created)))
  | inr open_ ↦
      let one : times_fired d log ≡ 0 = rw open_ at b.told in
      let none_ : times_settled d log ≡ 0 = b.still (rw open_ refl) in
      rw open_ (omega (arith, one, none_, b.ended))
]

-- In every state that a connection comes to, also where requests are cancelled, as by a timeout,
-- each deferred that was made has fired once, or is pending and has not fired; never both and never
-- twice. The protocol has called it back or failed it once, which is ignored if it was cancelled
-- before, or it is pending, once. No other deferred has fired or is pending.
pub Reaches-IsCounted :
    (st : BootstrapProtocol) (log : List Effect) → Reaches st log → IsCounted st log
Reaches-IsCounted st log reached = record {
  fired = λ d. Books-fired d st log (Reaches-Books st log reached d);
  settled = λ d. (Reaches-Books st log reached d).ended;
}

abbrev pending_of : Result (BootstrapProtocol × List Effect) → Option (Dict Bytes ℕ)
pending_of (ok (st, out)) = st.pending
pending_of (err e) = none

lost_pending :
    (st next : BootstrapProtocol) (out : List Effect) (reason : Reason) (o : Option (Dict Bytes ℕ))
    → lost st reason o ≡ ok (next, out)
    → next.pending ≡ none
lost_pending st next out reason none h = cc
lost_pending st next out reason (some p) h = sym (ap pending_of h)

-- Once the connection is lost, every deferred that was made has fired, and once only, cancelled ones
-- included.
pub connection_lost_fires :
    (st next : BootstrapProtocol) (log out : List Effect) (reason : Reason) (d : ℕ)
    → Reaches st log
    → step (lose reason) st ≡ ok (next, out)
    → d < next.created
    → times_fired d (log ++ out) ≡ 1
unfolding step
connection_lost_fires st next log out reason d reached h made_before =
    let gone = lost_pending st next out reason st.pending h in
    let count = (Reaches-IsCounted next (log ++ out) (after (lose reason) reached tt h)).fired d in
    let none_left : times_waiting d next ≡ 0 = rw gone (ground arith) in
    let was_made = ap one_if (lt→ltb d next.created made_before) in
    omega (arith, count, none_left, was_made)
