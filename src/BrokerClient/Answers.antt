-- ===== src/BrokerClient/Answers.antt =====
-- What a response and a cancellation change in afkak/brokerclient.py's client.
use afkak.Prelude.{
  ℕ, ◌+◌, ◌≤◌, ◌<◌, ◌≡◌, refl, sym, ◌∙◌, inl, inr, Bool, true, false, not, Option, none, some, List,
  [], ◌∷◌, arith, ltb, ◌==◌, if◌then◌else◌, ltb_false→le, ==_iff, Bool-cases,
}
use afkak.Prelude.Int.{ℤ, eqb_ℤ, eqb_ℤ→eq, eqb_ℤ_refl}
use afkak.Result.{ok}
use afkak.Wire.Struct.{Bytes}
use afkak.Protocol.Grouping.{Dict, ℤ_eq, lookup, insert}
use afkak.Dictionary.{
  one_if, sum_of, sum_of-insert_known, sum_of-delete, delete, delete-none, All-insert, All-delete,
}
use afkak.BrokerClient.{
  RequestState, BrokerClient, Effect, called_back, failed_with, deliver, cancelled_error,
  cancel_request,
}
use afkak.BrokerClient.Events.{times_fired, id_of}
use afkak.BrokerClient.Order.{delete-IsBetween, insert_known-IsBetween}
use afkak.BrokerClient.Counting.{waiting, IsFlagged}
use afkak.BrokerClient.Written.{unsent, times_written, budget_step}
use afkak.BrokerClient.Change.{Change, Invariant, by_key, is_id, is_strange}
use afkak.BrokerClient.Steps.{if_none, quiet-Change, IsQuiet-nil}

sum_of-delete_le :
    (f : ℤ × RequestState → ℕ) (k : ℤ) (l : Dict ℤ RequestState)
    → sum_of f (delete k l) ≤ sum_of f l
sum_of-delete_le f k l = by (lookup k l) refl
  where
    by : (o : Option RequestState) → lookup k l ≡ o → sum_of f (delete k l) ≤ sum_of f l
    by none h = rw (delete-none k l h) (omega arith)
    by (some r) h = omega (arith, sum_of-delete f k r l h)

-- What a response does to the deferred of an entry.
deliver_lem :
    (c d : ℕ) (k : ℤ) (response : Bytes) (r : RequestState)
    → (times_fired d (deliver response (some r)) ≡ waiting d (k, r))
      × (times_written c d (deliver response (some r)) ≡ 0)
      × (id_of d (deliver response (some r)) ≡ none)
deliver_lem c d k response r = by r.cancelled
  where
    by :
        (b : Bool)
        → let out = if b then [] else called_back r.d (some response) ∷ [] in
          (times_fired d out ≡ (if b then 0 else one_if (r.d == d)))
          × (times_written c d out ≡ 0)
          × (id_of d out ≡ none)
    by true = (refl, refl, refl)
    by false = (omega arith, refl, refl)

module _ {st : BrokerClient} {log : List Effect} (i : Invariant st log) where
  -- An entry is deleted, and its deferred fires if it still waits.
  dropped-Change :
      (k : ℤ) (r : RequestState) (out : List Effect)
      → lookup k st.requests ≡ some r
      → ((d : ℕ) → times_fired d out ≡ waiting d (k, r))
      → ((c d : ℕ) → times_written c d out ≡ 0)
      → ((d : ℕ) → id_of d out ≡ none)
      → Change st (record st { requests = delete k st.requests }) out none
  dropped-Change k r out found fired silent unasked = record {
    absent = λ j h. cc;
    created = omega arith;
    asked = λ d. unasked d ∙ sym (if_none (d == st.created));
    once = λ d. omega (arith, fired d, sum_of-delete (waiting d) k r st.requests found);
    kept = λ g. omega (arith, sum_of-delete_le (by_key g) k st.requests);
    ordered = delete-IsBetween 0 k st.requests st.created i.ordered;
    flags = All-delete IsFlagged k st.requests i.flags;
    numbered = i.numbered;
    wrote = λ c d.
        budget_step c d (times_written c d out) st (record st { requests = delete k st.requests })
          refl refl (i.numbered c) (λ h. silent c d)
          (omega (arith, silent c d, sum_of-delete_le (unsent d) k st.requests));
  }

  pub response-Change :
      (k : ℤ) (response : Bytes) (o : Option RequestState)
      → lookup k st.requests ≡ o
      → Change st (record st { requests = delete k st.requests }) (deliver response o) none
  response-Change k response none h =
      rw (delete-none k st.requests h) (quiet-Change i refl refl refl refl IsQuiet-nil)
  response-Change k response (some r) h =
      dropped-Change k r (deliver response (some r)) h (λ d. (deliver_lem 0 d k response r).0)
        (λ c d. (deliver_lem c d k response r).1) (λ d. (deliver_lem 0 d k response r).2)

  -- An entry is flagged as cancelled.
  flagged-Change :
      (k : ℤ) (d : ℕ) (r : RequestState)
      → lookup k st.requests ≡ some r
      → r.d ≡ d
      → r.cancelled ≡ false
      → r.sent ≡ true
      → Change st
          (record st { requests = insert k (record r { cancelled = true }) st.requests })
          (failed_with d cancelled_error ∷ [])
          none
  flagged-Change k d r found its waits sent = record {
    absent = λ j h. cc;
    created = omega arith;
    asked = λ e. sym (if_none (e == st.created));
    once = λ e.
        let before : waiting e (k, r) ≡ one_if (r.d == e) = rw waits in
        let same : one_if (r.d == e) ≡ one_if (d == e) = rw its in
        omega (
          arith,
          before,
          same,
          sum_of-insert_known (waiting e) k (record r { cancelled = true }) r st.requests found,
        );
    kept = λ g. omega (
      arith,
      sum_of-insert_known (by_key g) k (record r { cancelled = true }) r st.requests found,
    );
    ordered =
        insert_known-IsBetween 0 k (record r { cancelled = true }) r st.requests st.created found
          refl i.ordered;
    flags = All-insert IsFlagged k (record r { cancelled = true }) st.requests (rw sent) i.flags;
    numbered = i.numbered;
    wrote = λ c d.
        budget_step c d 0 st
          (record st { requests = insert k (record r { cancelled = true }) st.requests }) refl refl
          (i.numbered c) (λ h. refl)
          (omega (
            arith,
            sum_of-insert_known (unsent d) k (record r { cancelled = true }) r st.requests found,
          ));
  }

-- The entry of a deferred that waits.
pub record Entry (k : ℤ) (d : ℕ) (l : Dict ℤ RequestState) : Type 0 where
  pub entry : RequestState
  pub found : lookup k l ≡ some entry
  pub its : entry.d ≡ d
  pub waits : entry.cancelled ≡ false

Entry-cons :
    {k : ℤ} {d : ℕ} {l : Dict ℤ RequestState} (j : ℤ) (r : RequestState)
    → eqb_ℤ j k ≡ false
    → Entry k d l
    → Entry k d ((j, r) ∷ l)
unfolding lookup
Entry-cons j r other e = record {
  entry = e.entry;
  found = rw other e.found;
  its = e.its;
  waits = e.waits;
}

-- A deferred waits in an entry that is its own and was not cancelled.
waits_lem :
    (j : ℤ) (d : ℕ) (r : RequestState) → 0 < waiting d (j, r) → (r.d ≡ d) × (r.cancelled ≡ false)
waits_lem j d r h = by r.cancelled h
  where
    by : (b : Bool) → 0 < (if b then 0 else one_if (r.d == d)) → (r.d ≡ d) × (b ≡ false)
    by true h = absurd (omega arith)
    by false h = (ground arith, refl)

module _ (log : List Effect) (k : ℤ) (d : ℕ) (asked_for : id_of d log ≡ some k) where
  -- An entry of the deferred stands under its id.
  waiting_le :
      (j : ℤ) (r : RequestState)
      → waiting d (j, r) ≤ by_key (is_id k) (j, r) + by_key (is_strange log) (j, r)
  waiting_le j r = elim (Bool-cases (r.d == d)) [
    | inl same ↦
        let here : r.d ≡ d = (==_iff r.d d).0 same in
        let id : id_of r.d log ≡ some k = rw here asked_for in
        let bound = by r.cancelled (r.d == d) in rw id (omega (arith, bound, one))
    | inr other ↦ let none_ : waiting d (j, r) ≤ 0 = ground (arith, other) in omega arith
  ]
    where
      by : (b e : Bool) → (if b then 0 else one_if e) ≤ 1
      by true e = omega arith
      by false true = omega arith
      by false false = omega arith

      one : 1 ≤ one_if (eqb_ℤ j k) + one_if (not (eqb_ℤ k j))
      one = elim (Bool-cases (eqb_ℤ k j)) [
        | inl same ↦ let e : k ≡ j = eqb_ℤ→eq k j same in rw (e, eqb_ℤ_refl j) (omega arith)
        | inr other ↦ rw other (omega arith)
      ]

  waiting-sum_of_le :
      (l : Dict ℤ RequestState)
      → sum_of (waiting d) l ≤ sum_of (by_key (is_id k)) l + sum_of (by_key (is_strange log)) l
  waiting-sum_of_le [] = omega arith
  waiting-sum_of_le ((j, r) ∷ l) = omega (arith, waiting-sum_of_le l, waiting_le j r)

  pub find_waiting :
      (l : Dict ℤ RequestState)
      → 0 < sum_of (waiting d) l
      → sum_of (by_key (is_id k)) l ≤ 1
      → sum_of (by_key (is_strange log)) l ≡ 0
      → Entry k d l
  unfolding lookup
  find_waiting [] some_ keyed known = absurd (omega arith)
  find_waiting ((j, r) ∷ l) some_ keyed known = elim (Bool-cases (eqb_ℤ j k)) [
    | inl same ↦
        let alone : 1 + sum_of (by_key (is_id k)) l ≤ 1 = rw same at keyed in
        let here : 0 < waiting d (j, r) = omega (arith, waiting-sum_of_le l) in
        let its = waits_lem j d r here in
        record { entry = r; found = rw same; its = its.0; waits = its.1 }
    | inr other ↦
        let fewer : 0 + sum_of (by_key (is_id k)) l ≤ 1 = rw other at keyed in
        let not_here : waiting d (j, r) ≤ 0 + by_key (is_strange log) (j, r) =
          rw other at (waiting_le j r) in
        let rest = find_waiting l (omega arith) (omega arith) (omega arith) in
        Entry-cons j r other rest
  ]

module _ {st : BrokerClient} {log : List Effect} (i : Invariant st log) where
  -- The entry of a deferred that has not fired.
  pub known_waiting :
      (k : ℤ) (d : ℕ) → id_of d log ≡ some k → times_fired d log ≡ 0 → Entry k d st.requests
  known_waiting k d asked_for unfired =
      let made : ltb d st.created ≡ true = was_made d asked_for in
      let once : times_fired d log + sum_of (waiting d) st.requests ≡ 1 = rw made at (i.once d) in
      find_waiting log k d asked_for st.requests (omega arith) (i.keyed k) i.known
    where
      was_made : (d : ℕ) → id_of d log ≡ some k → ltb d st.created ≡ true
      was_made d h = elim (Bool-cases (ltb d st.created)) [
        | inl old ↦ old
        | inr new ↦
            let late : st.created ≤ d = ltb_false→le d st.created new in cc (i.fresh d late, h)
      ]

  pub cancel-Change :
      (k : ℤ) (d : ℕ) (r : RequestState)
      → lookup k st.requests ≡ some r
      → r.d ≡ d
      → r.cancelled ≡ false
      → (next : BrokerClient) × (cancel_request k d st
          ≡ ok (next, failed_with d cancelled_error ∷ []))
        × Change st next (failed_with d cancelled_error ∷ []) none
  unfolding cancel_request
  cancel-Change k d r found its waits = elim (Bool-cases r.sent) [
    | inl before ↦ (
      record st { requests = insert k (record r { cancelled = true }) st.requests },
      rw found (rw before),
      flagged-Change i k d r found its waits before,
    )
    | inr queued_ ↦ (
      record st { requests = delete k st.requests },
      rw found (rw queued_),
      dropped-Change i k r (failed_with d cancelled_error ∷ []) found
          (λ e.
            let before : waiting e (k, r) ≡ one_if (r.d == e) = rw waits in
            let same : one_if (r.d == e) ≡ one_if (d == e) = rw its in omega (arith, before, same))
          (λ c e. refl) (λ e. refl),
    )
  ]
