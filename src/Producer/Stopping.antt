-- ===== src/Producer/Stopping.antt =====
-- The end of stop() in afkak/producer.py: all that is outstanding is cancelled.
use afkak.Prelude.{
  ℕ, ◌+◌, ◌<◌, ◌≡◌, refl, ◌∙◌, inl, inr, true, false, Option, none, some, List, [], ◌∷◌, ◌++◌,
  arith, ◌==◌, if◌then◌else◌, lt→ltb, ==_iff, Bool-cases,
}
use afkak.MessageSet.Create.{Compressors}
use afkak.Dictionary.{one_if}
use afkak.Producer.{
  Submission, Settings, Producer, Effect, cancel_send_messages, cancel_outstanding, cancel_all,
  withdraw, take_request,
}
use afkak.Producer.Events.{stopping, step, Reaches, times_fired}
use afkak.Producer.Firing.{count}
use afkak.Producer.Reached.{step-IsKept, Reaches-IsKept}

cancel_send_messages-called :
    (d e : ℕ) (st : Producer)
    → (cancel_send_messages d st).0.called e ≡ (if e == d then true else st.called e)
unfolding cancel_send_messages
cancel_send_messages-called d e st = by (take_request d st.batch_reqs)
  where
    by :
        (o : Option (Submission × List Submission))
        → (withdraw d o st).0.called e ≡ (if e == d then true else st.called e)
    by none = refl
    by (some (req, left)) = refl

cancel_all-called :
    (l : List ℕ) (st : Producer) (d : ℕ)
    → 0 < one_if (st.called d) + count d l
    → (cancel_all l st).0.called d ≡ true
unfolding cancel_all
cancel_all-called [] st d h = ground (arith, h)
cancel_all-called (e ∷ l) st d h = elim (Bool-cases (st.called e)) [
  | inl gone ↦ simp gone (cancel_all-called l st d (still gone))
  | inr open_ ↦ simp open_ (cancel_all-called l (cancel_send_messages e st).0 d now)
]
  where
    still : st.called e ≡ true → 0 < one_if (st.called d) + count d l
    still gone = elim (Bool-cases (e == d)) [
      | inl same ↦
          let here : e ≡ d = (==_iff e d).0 same in
          let one : one_if (st.called d) ≡ 1 = rw (← here, gone) in omega (arith, one)
      | inr other ↦
          let less : 0 < one_if (st.called d) + (0 + count d l) = rw other at h in
          omega (arith, less)
    ]

    now : 0 < one_if ((cancel_send_messages e st).0.called d) + count d l
    now = elim (Bool-cases (d == e)) [
      | inl same ↦
          let one : one_if ((cancel_send_messages e st).0.called d) ≡ 1 =
            rw (cancel_send_messages-called e d st, same) in
          omega (arith, one)
      | inr other ↦
          let back : (e == d) ≡ false = ground (arith, other) in
          let less : 0 < one_if (st.called d) + (0 + count d l) = rw back at h in
          let as_before : (cancel_send_messages e st).0.called d ≡ st.called d =
            cancel_send_messages-called e d st ∙ rw other in
          rw as_before (omega (arith, less))
    ]

-- After the cancellations of stop(), every deferred that was made has fired, and once only.
pub cancel_outstanding-fired :
    (c : Compressors) (s : Settings) {st : Producer} {log : List Effect} (d : ℕ)
    → Reaches c s st log
    → d < st.created
    → times_fired d (log ++ (cancel_outstanding st).1) ≡ 1
unfolding step
cancel_outstanding-fired c s {st} {log} d reached old =
    let i = Reaches-IsKept c s reached in
    let next = step-IsKept i c s stopping {r = cancel_outstanding st} tt refl in
    let made = lt→ltb d st.created old in
    let k : one_if (st.called d) + count d st.outstanding ≡ 1 = rw made at (i.once.kept d) in
    let called = cancel_all-called st.outstanding st d (omega (arith, k)) in
    let one : times_fired d (log ++ (cancel_outstanding st).1) ≡ one_if true =
      rw called at (next.once.told d) in
    one
