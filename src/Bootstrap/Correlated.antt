-- ===== src/Bootstrap/Correlated.antt =====
-- The responses that `KafkaBootstrapProtocol` gives its deferreds.
use afkak.Prelude.{
  ℕ, ◌≡◌, refl, ◌∙◌, inl, inr, Bool, true, false, ◌&&◌, ◌||◌, Option, none, some, List, [], ◌∷◌,
  ◌++◌, arith, ◌==◌, ==_refl, Bool-cases, All, All-append,
}
use afkak.Result.{Result, ok, err}
use afkak.Wire.Struct.{Bytes}
use afkak.Protocol.Grouping.{Dict, text_beq, text_eq, insert}
use afkak.Bootstrap.{
  Reason, Effect, sent, called_back, failed_with, lose_connection, BootstrapProtocol, keep, pop,
  response_id, request_id, fail_all, popped, received, lost, asked, unless_pending, Event, receive,
  oversize, lose, ask, step, time_out, cancelled, ignored, settle, mark, Reaches, made, after,
}

-- A request with that correlation id was sent for the deferred.
abbrev sends : ℕ → Bytes → Effect → Bool
sends d k (sent e bytes) = e == d && text_beq (request_id bytes) k
sends d k _ = false

abbrev pub was_sent : ℕ → Bytes → List Effect → Bool
was_sent d k [] = false
was_sent d k (x ∷ log) = sends d k x || was_sent d k log

was_sent-append :
    (d : ℕ) (k : Bytes) (xs ys : List Effect)
    → was_sent d k (xs ++ ys) ≡ (was_sent d k xs || was_sent d k ys)
was_sent-append d k [] ys = refl
was_sent-append d k (x ∷ xs) ys = ground (arith, was_sent-append d k xs ys)

was_sent_before :
    (d : ℕ) (k : Bytes) (xs ys : List Effect)
    → was_sent d k xs ≡ true
    → was_sent d k (xs ++ ys) ≡ true
was_sent_before d k xs ys h = was_sent-append d k xs ys ∙ ground (arith, h)

-- A response answers the request of its deferred, of which `log` tells.
abbrev IsAnswer : List Effect → Effect → Type 0
IsAnswer log (called_back d response) = was_sent d (response_id response) log ≡ true
IsAnswer log _ = Unit {0}

abbrev IsAsked : List Effect → Bytes × ℕ → Type 0
IsAsked log (k, d) = was_sent d k log ≡ true

abbrev AllAsked : List Effect → Option (Dict Bytes ℕ) → Type 0
AllAsked log none = Unit {0}
AllAsked log (some p) = All (IsAsked log) p

-- All responses so far, and what is pending.
pub record IsCorrelated (st : BootstrapProtocol) (log : List Effect) : Type 0 where
  pub answers : All (IsAnswer log) log
  pub asks : AllAsked log st.pending

answers_later :
    (log out : List Effect) (l : List Effect) → All (IsAnswer log) l → All (IsAnswer (log ++ out)) l
answers_later log out [] h = tt
answers_later log out (sent d bytes ∷ l) h = (tt, answers_later log out l h.1)
answers_later log out (called_back d response ∷ l) h =
    (was_sent_before d (response_id response) log out h.0, answers_later log out l h.1)
answers_later log out (failed_with d reason ∷ l) h = (tt, answers_later log out l h.1)
answers_later log out (lose_connection ∷ l) h = (tt, answers_later log out l h.1)
answers_later log out (cancelled d ∷ l) h = (tt, answers_later log out l h.1)
answers_later log out (ignored d ∷ l) h = (tt, answers_later log out l h.1)

asks_later :
    (log out : List Effect) (p : Dict Bytes ℕ) → All (IsAsked log) p → All (IsAsked (log ++ out)) p
asks_later log out [] h = tt
asks_later log out ((k, d) ∷ p) h = (was_sent_before d k log out h.0, asks_later log out p h.1)

-- The key under which a deferred is found is the one it was looked for by.
asks-pop :
    (log : List Effect) (k : Bytes) (p : Dict Bytes ℕ) (d : ℕ) (q : Dict Bytes ℕ)
    → All (IsAsked log) p
    → pop k p ≡ some (d, q)
    → (was_sent d k log ≡ true) × All (IsAsked log) q
unfolding pop
asks-pop log k [] d q h e = cc
asks-pop log k ((j, v) ∷ p) d q h e = elim (Bool-cases (text_beq j k)) [
  | inl same ↦ first ((text_eq.beq_iff j k).0 same) (rw same at e)
  | inr other ↦
      later (λ x rest back. asks-pop log k p x rest h.1 back) (pop k p) refl (rw other at e)
]
  where
    first :
        j ≡ k
        → ◌≡◌ {A = Option (ℕ × Dict Bytes ℕ)} (some (v, p)) (some (d, q))
        → (was_sent d k log ≡ true) × All (IsAsked log) q
    first here g = let one : v ≡ d = cc in let two : p ≡ q = cc in rw (← one, ← two, ← here) h

    later :
        ((x : ℕ) (rest : Dict Bytes ℕ)
          → pop k p ≡ some (x, rest)
          → (was_sent x k log ≡ true) × All (IsAsked log) rest)
        → (r : Option (ℕ × Dict Bytes ℕ)) → pop k p ≡ r
        → keep j v r ≡ some (d, q)
        → (was_sent d k log ≡ true) × All (IsAsked log) q
    later again none back g = cc
    later again (some (x, rest)) back g =
        let one : x ≡ d = cc in
        let front : List (Bytes × ℕ) = (j, v) ∷ rest in
        let two : front ≡ q = cc in
        let (asked, others) = again x rest back in rw (← one, ← two) (asked, (h.0, others))

asks-insert :
    (log : List Effect) (k : Bytes) (d : ℕ) (p : Dict Bytes ℕ)
    → All (IsAsked log) p
    → was_sent d k log ≡ true
    → All (IsAsked log) (insert k d p)
unfolding insert
asks-insert log k d [] h new = (new, tt)
asks-insert log k d ((j, v) ∷ p) h new = elim (Bool-cases (text_beq j k)) [
  | inl same ↦ let here : j ≡ k = (text_eq.beq_iff j k).0 same in rw same (rw here new, h.1)
  | inr other ↦ rw other (h.0, asks-insert log k d p h.1 new)
]

-- A callback that may be ignored.
settle-IsAnswer :
    (log : List Effect) (called : ℕ → Bool) (d : ℕ) (x : Effect)
    → IsAnswer log x
    → IsAnswer log (settle called d x)
settle-IsAnswer log called d x h = elim (Bool-cases (called d)) [
  | inl gone ↦ rw gone tt
  | inr open_ ↦ rw open_ h
]

fail_all-IsAnswer :
    (log : List Effect) (reason : Reason) (called : ℕ → Bool) (p : Dict Bytes ℕ)
    → All (IsAnswer log) (fail_all reason called p).1
unfolding fail_all
fail_all-IsAnswer log reason called [] = tt
fail_all-IsAnswer log reason called ((k, d) ∷ p) = (
  settle-IsAnswer log called d (failed_with d reason) tt,
  fail_all-IsAnswer log reason (mark d called) p,
)

-- What an operation has to keep, after `log`.
abbrev Keeps : List Effect → Result (BootstrapProtocol × List Effect) → Type 0
Keeps log (err e) = Unit {0}
Keeps log (ok (next, out)) = All (IsAnswer (log ++ out)) out × AllAsked (log ++ out) next.pending

AllAsked-later :
    (log out : List Effect) (o : Option (Dict Bytes ℕ)) → AllAsked log o → AllAsked (log ++ out) o
AllAsked-later log out none h = tt
AllAsked-later log out (some p) h = asks_later log out p h

module _ (log : List Effect) (st : BootstrapProtocol) (h : AllAsked log st.pending) where
  popped-Keeps :
      (response : Bytes) (p : Dict Bytes ℕ)
      → All (IsAsked log) p
      → (r : Option (ℕ × Dict Bytes ℕ)) → pop (response_id response) p ≡ r
      → Keeps log (ok (popped st response r))
  popped-Keeps response p asks none back =
      ((tt, tt), AllAsked-later log (lose_connection ∷ []) st.pending h)
  popped-Keeps response p asks (some (d, q)) back =
      let (known, others) = asks-pop log (response_id response) p d q asks back in
      let out : List Effect = settle st.called d (called_back d response) ∷ [] in
      let answer = was_sent_before d (response_id response) log out known in
      (
        (settle-IsAnswer (log ++ out) st.called d (called_back d response) answer, tt),
        asks_later log out q others,
      )

  received-Keeps :
      (response : Bytes) (o : Option (Dict Bytes ℕ))
      → AllAsked log o
      → Keeps log (received st response o)
  received-Keeps response none asks = tt
  received-Keeps response (some p) asks = popped-Keeps response p asks _ refl

  lost-Keeps : (reason : Reason) (o : Option (Dict Bytes ℕ)) → Keeps log (lost st reason o)
  lost-Keeps reason none = tt
  lost-Keeps reason (some p) =
      (fail_all-IsAnswer (log ++ (fail_all reason st.called p).1) reason st.called p, tt)

  unless_pending-Keeps :
      (bytes : Bytes) (p : Dict Bytes ℕ) (r : Option ℕ)
      → All (IsAsked log) p
      → Keeps log (unless_pending st bytes p r)
  unless_pending-Keeps bytes p (some e) asks = tt
  unless_pending-Keeps bytes p none asks =
      let out : List Effect = sent st.created bytes ∷ [] in
      let new : was_sent st.created (request_id bytes) (log ++ out) ≡ true =
        was_sent-append st.created (request_id bytes) log out
        ∙ ground (
          arith,
          ==_refl st.created,
          (text_eq.beq_iff (request_id bytes) (request_id bytes)).1 refl,
        ) in
      (
        (tt, tt),
        asks-insert (log ++ out) (request_id bytes) st.created p (asks_later log out p asks) new,
      )

  asked-Keeps :
      (bytes : Bytes) (f : Option Reason) (o : Option (Dict Bytes ℕ))
      → AllAsked log o
      → Keeps log (asked st bytes f o)
  asked-Keeps bytes (some reason) o asks =
      ((tt, tt), AllAsked-later log (failed_with st.created reason ∷ []) st.pending h)
  asked-Keeps bytes none none asks = tt
  asked-Keeps bytes none (some p) asks = unless_pending-Keeps bytes p _ asks

  step-Keeps : (e : Event) → Keeps log (step e st)
  unfolding step
  step-Keeps (receive response) = received-Keeps response st.pending h
  step-Keeps oversize = ((tt, tt), AllAsked-later log (lose_connection ∷ []) st.pending h)
  step-Keeps (lose reason) = lost-Keeps reason st.pending
  step-Keeps (ask bytes) = asked-Keeps bytes st.failed st.pending h
  step-Keeps (time_out d) = elim (Bool-cases (st.called d)) [
    | inl gone ↦ rw gone (tt, AllAsked-later log [] st.pending h)
    | inr open_ ↦ rw open_ ((tt, tt), AllAsked-later log (cancelled d ∷ []) st.pending h)
  ]

-- In every state that a connection comes to, each response that a deferred was called back with has
-- in its first four bytes the correlation id, bytes 4 to 7, of a request that was sent for that very
-- deferred; and each pending deferred stands under the correlation id of such a request.
pub Reaches-IsCorrelated :
    (st : BootstrapProtocol) (log : List Effect) → Reaches st log → IsCorrelated st log
Reaches-IsCorrelated st log made = record { answers = tt; asks = tt }
Reaches-IsCorrelated last log
      (after {st = st} {next = next} {log = before} {out = out} e reached possible h) =
    let known = Reaches-IsCorrelated st before reached in
    let (new, asks) = rw h at (step-Keeps before st known.asks e) in
    record {
      answers =
          All-append (IsAnswer (before ++ out)) before out
            (answers_later before out before known.answers) new;
      asks = asks;
    }
