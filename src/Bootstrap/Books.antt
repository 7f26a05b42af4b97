-- ===== src/Bootstrap/Books.antt =====
-- The books that are kept of each deferred of `KafkaBootstrapProtocol`.
use afkak.Prelude.{
  ℕ, suc, ◌+◌, ◌≤◌, ◌≡◌, refl, inl, inr, Bool, true, false, Option, none, some, List, [], ◌∷◌, ◌++◌,
  arith, ltb, ◌==◌, if◌then◌else◌, ==_iff, ==_refl, Bool-cases,
}
use afkak.Result.{Result, ok, err}
use afkak.Wire.Struct.{Bytes}
use afkak.Protocol.Grouping.{Dict, text_eq, lookup, insert}
use afkak.Dictionary.{one_if, sum_of, sum_of-append}
use afkak.Bootstrap.{
  Reason, Effect, called_back, failed_with, cancelled, ignored, BootstrapProtocol, keep, pop,
  settle, mark, fail_all,
}

-- How often the deferred fires in some effects, how often the protocol calls it back or fails it,
-- and how often it is pending.
abbrev pub fires : ℕ → Effect → ℕ
fires d (called_back e response) = one_if (e == d)
fires d (failed_with e reason) = one_if (e == d)
fires d (cancelled e) = one_if (e == d)
fires d _ = 0

abbrev pub settles : ℕ → Effect → ℕ
settles d (called_back e response) = one_if (e == d)
settles d (failed_with e reason) = one_if (e == d)
settles d (ignored e) = one_if (e == d)
settles d _ = 0

abbrev pub times_fired : ℕ → List Effect → ℕ
times_fired d log = sum_of (fires d) log

abbrev pub times_settled : ℕ → List Effect → ℕ
times_settled d log = sum_of (settles d) log

abbrev pub held : ℕ → Dict Bytes ℕ → ℕ
held d [] = 0
held d ((k, e) ∷ p) = one_if (e == d) + held d p

abbrev pub times_pending : ℕ → Option (Dict Bytes ℕ) → ℕ
times_pending d none = 0
times_pending d (some p) = held d p

pub held-insert :
    (d e : ℕ) (k : Bytes) (p : Dict Bytes ℕ)
    → lookup k p ≡ none
    → held d (insert k e p) ≡ one_if (e == d) + held d p
unfolding lookup insert
held-insert d e k [] h = refl
held-insert d e k ((j, v) ∷ p) h = elim (Bool-cases (text_eq.beq j k)) [
  | inl same ↦ cc (rw same at h)
  | inr other ↦ rw other (omega (arith, held-insert d e k p (rw other at h)))
]

pub held-pop :
    (d e : ℕ) (k : Bytes) (p q : Dict Bytes ℕ)
    → pop k p ≡ some (e, q)
    → held d p ≡ one_if (e == d) + held d q
unfolding pop
held-pop d e k [] q h = cc
held-pop d e k ((j, v) ∷ p) q h = elim (Bool-cases (text_eq.beq j k)) [
  | inl same ↦ first (rw same at h)
  | inr other ↦ later (λ x rest back. held-pop d x k p rest back) (pop k p) refl (rw other at h)
]
  where
    first :
        ◌≡◌ {A = Option (ℕ × Dict Bytes ℕ)} (some (v, p)) (some (e, q))
        → held d ((j, v) ∷ p) ≡ one_if (e == d) + held d q
    first g = let one : v ≡ e = cc in let two : p ≡ q = cc in rw (one, two)

    later :
        ((x : ℕ) (rest : Dict Bytes ℕ)
          → pop k p ≡ some (x, rest)
          → held d p ≡ one_if (x == d) + held d rest)
        → (r : Option (ℕ × Dict Bytes ℕ)) → pop k p ≡ r
        → keep j v r ≡ some (e, q)
        → held d ((j, v) ∷ p) ≡ one_if (e == d) + held d q
    later again none back g = cc
    later again (some (x, rest)) back g =
        let one : x ≡ e = cc in
        let front : List (Bytes × ℕ) = (j, v) ∷ rest in
        let two : front ≡ q = cc in rw (← one, ← two) (omega (arith, again x rest back))

-- A deferred that waits is pending and has not fired.
abbrev pub times_waiting : ℕ → BootstrapProtocol → ℕ
times_waiting d st = if st.called d then 0 else times_pending d st.pending

-- Of the deferreds that were made, each has fired or waits, once in all, and each was called back or
-- failed by the protocol, or is pending, once in all; the others neither.
pub record IsCounted (st : BootstrapProtocol) (log : List Effect) : Type 0 where
  pub fired : (d : ℕ) → times_fired d log + times_waiting d st ≡ one_if (ltb d st.created)
  pub settled :
      (d : ℕ) → times_settled d log + times_pending d st.pending ≡ one_if (ltb d st.created)

-- What is known of one deferred after some effects: the last two say that one that has not fired
-- was not settled either, and that one that has fired was made.
pub record Books (d : ℕ) (st : BootstrapProtocol) (log : List Effect) : Type 0 where
  pub ended : times_settled d log + times_pending d st.pending ≡ one_if (ltb d st.created)
  pub told : times_fired d log ≡ one_if (st.called d)
  pub still : one_if (st.called d) ≡ 0 → times_settled d log ≡ 0
  pub old : one_if (st.called d) ≤ one_if (ltb d st.created)

-- How one deferred fares in an operation.
pub record Moves (d : ℕ) (st next : BootstrapProtocol) (out : List Effect) : Type 0 where
  pub ended :
      times_settled d out + times_pending d next.pending + one_if (ltb d st.created)
      ≡ times_pending d st.pending + one_if (ltb d next.created)
  pub told : times_fired d out + one_if (st.called d) ≡ one_if (next.called d)
  pub still : one_if (next.called d) ≡ 0 → times_settled d out ≡ 0
  pub fresh : times_fired d out ≤ times_settled d out + one_if (ltb d next.created)
  pub grows : one_if (ltb d st.created) ≤ one_if (ltb d next.created)

abbrev pub Counts : ℕ → BootstrapProtocol → Result (BootstrapProtocol × List Effect) → Type 0
Counts d st (err e) = Unit {0}
Counts d st (ok (next, out)) = Moves d st next out

pub one_if_most : (b : Bool) → one_if b ≤ 1
one_if_most true = omega arith
one_if_most false = omega arith

pub Books-Moves :
    (d : ℕ) (st next : BootstrapProtocol) (log out : List Effect)
    → Books d st log
    → Moves d st next out
    → Books d next (log ++ out)
Books-Moves d st next log out b m =
    let settled = sum_of-append (settles d) log out in
    let most = one_if_most (ltb d next.created) in
    let most_called = one_if_most (next.called d) in
    record {
      ended = omega (arith, settled, b.ended, m.ended);
      told = omega (arith, sum_of-append (fires d) log out, b.told, m.told);
      still = λ h. omega (arith, settled, m.still h, b.still (omega (arith, m.told, h)));
      old = omega (arith, b.ended, b.old, m.ended, m.told, m.fresh, m.grows, most, most_called);
    }

-- A deferred is new exactly when it is number `created`.
pub one_if-suc : (d n : ℕ) → one_if (ltb d (suc n)) ≡ one_if (n == d) + one_if (ltb d n)
one_if-suc d n = ground arith

pub one_if-mark :
    (called : ℕ → Bool) (d e : ℕ)
    → called e ≡ false
    → one_if (e == d) + one_if (called d) ≡ one_if (mark e called d)
one_if-mark called d e open_ = elim (Bool-cases (d == e)) [
  | inl same ↦ let here : d ≡ e = (==_iff d e).0 same in rw (same, here, ==_refl e, open_)
  | inr other ↦
      let back : (e == d) ≡ false = ground (arith, other) in rw (other, back) (omega arith)
]

mark_called :
    (called : ℕ → Bool) (d e : ℕ) → called e ≡ true → one_if (mark e called d) ≡ one_if (called d)
mark_called called d e gone = elim (Bool-cases (d == e)) [
  | inl same ↦ let here : d ≡ e = (==_iff d e).0 same in rw (same, here, gone)
  | inr other ↦ rw other
]

pub mark_itself : (called : ℕ → Bool) (d e : ℕ) → one_if (mark e called d) ≡ 0 → one_if (e == d) ≡ 0
mark_itself called d e h = ground (arith, h)

-- An effect that is the callback or the errback of a deferred.
pub record IsFiring (e d : ℕ) (x : Effect) : Type 0 where
  pub one : fires d x ≡ one_if (e == d)
  pub two : settles d x ≡ one_if (e == d)

pub settle-settles :
    (called : ℕ → Bool) (d e : ℕ) (x : Effect)
    → IsFiring e d x
    → settles d (settle called e x) ≡ one_if (e == d)
settle-settles called d e x f = elim (Bool-cases (called e)) [
  | inl gone ↦ rw gone
  | inr open_ ↦ rw open_ f.two
]

pub settle-fires :
    (called : ℕ → Bool) (d e : ℕ) (x : Effect)
    → IsFiring e d x
    → fires d (settle called e x) + one_if (called d) ≡ one_if (mark e called d)
settle-fires called d e x f = elim (Bool-cases (called e)) [
  | inl gone ↦ rw gone (omega (arith, mark_called called d e gone))
  | inr open_ ↦ rw open_ (omega (arith, f.one, one_if-mark called d e open_))
]

pub settle_le :
    (called : ℕ → Bool) (d e : ℕ) (x : Effect)
    → IsFiring e d x
    → fires d (settle called e x) ≤ settles d (settle called e x)
settle_le called d e x f = elim (Bool-cases (called e)) [
  | inl gone ↦ rw gone (omega arith)
  | inr open_ ↦ rw open_ (omega (arith, f.one, f.two))
]

pub record Fails (d : ℕ) (called : ℕ → Bool) (p : Dict Bytes ℕ) (r : (ℕ → Bool) × List Effect)
    : Type 0 where
  pub ended : times_settled d r.1 ≡ held d p
  pub told : times_fired d r.1 + one_if (called d) ≡ one_if (r.0 d)
  pub still : one_if (r.0 d) ≡ 0 → times_settled d r.1 ≡ 0
  pub fresh : times_fired d r.1 ≤ times_settled d r.1

pub fail_all-Fails :
    (d : ℕ) (reason : Reason) (called : ℕ → Bool) (p : Dict Bytes ℕ)
    → Fails d called p (fail_all reason called p)
unfolding fail_all
fail_all-Fails d reason called [] = record {
  ended = refl;
  told = omega arith;
  still = λ h. refl;
  fresh = omega arith;
}
fail_all-Fails d reason called ((k, e) ∷ p) =
    let rest = fail_all-Fails d reason (mark e called) p in
    let x = failed_with e reason in
    let f : IsFiring e d x = record { one = refl; two = refl } in
    let settled = settle-settles called d e x f in
    let fired = settle-fires called d e x f in
    record {
      ended = omega (arith, rest.ended, settled);
      told = omega (arith, rest.told, fired);
      still = λ h.
          let itself = mark_itself called d e (omega (arith, rest.told, h)) in
          omega (arith, rest.still h, settled, itself);
      fresh = omega (arith, rest.fresh, settle_le called d e x f);
    }
