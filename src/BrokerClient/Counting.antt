-- ===== src/BrokerClient/Counting.antt =====
-- What the methods of afkak/brokerclient.py's client do to the requests, counted by deferred and by id.
use afkak.Prelude.{
  ℕ, ◌+◌, ◌≤◌, ◌≡◌, refl, ap, ◌∙◌, inl, inr, Bool, true, false, ◌&&◌, not, Option, none, some, List,
  [], ◌∷◌, ◌++◌, arith, ◌==◌, if◌then◌else◌, Bool-cases, All,
}
use afkak.Prelude.Int.{ℤ, eqb_ℤ}
use afkak.Wire.Struct.{Bytes}
use afkak.Protocol.Grouping.{Dict, ℤ_eq, lookup}
use afkak.Dictionary.{one_if, sum_of, sum_of-append, sum_of-insert_new}
use afkak.BrokerClient.{
  RequestState, Effect, after_write, sent_with, send_request, keep_entry, send_queued, set_entry,
}
use afkak.BrokerClient.Events.{fires, times_fired, asks, id_of, or_else}

-- The deferred of an entry has not fired; the entry has a deferred; the entry has a key.
abbrev pub waiting : ℕ → ℤ × RequestState → ℕ
waiting d (k, r) = if r.cancelled then 0 else one_if (r.d == d)

abbrev pub holds : ℕ → ℤ × RequestState → ℕ
holds d (k, r) = one_if (r.d == d)

abbrev pub is_key : ℤ → ℤ × RequestState → ℕ
is_key j (k, r) = one_if (eqb_ℤ k j)

-- Only what was sent is kept after it was cancelled.
abbrev pub IsFlagged : ℤ × RequestState → Type 0
IsFlagged (k, r) = (r.cancelled && not r.sent) ≡ false

-- A count that does not look at the flag `sent`.
abbrev pub IgnoresSent : (ℤ × RequestState → ℕ) → Type 0
IgnoresSent f = (k : ℤ) (r : RequestState) (b : Bool) → f (k, record r { sent = b }) ≡ f (k, r)

abbrev pub count_option : (ℤ × RequestState → ℕ) → ℤ → Option RequestState → ℕ
count_option f k none = 0
count_option f k (some r) = f (k, r)

pub times_fired-append :
    (d : ℕ) (xs ys : List Effect) → times_fired d (xs ++ ys) ≡ times_fired d xs + times_fired d ys
times_fired-append d xs ys = sum_of-append (fires d) xs ys

pub id_of-append :
    (d : ℕ) (xs ys : List Effect) → id_of d (xs ++ ys) ≡ or_else (id_of d xs) (id_of d ys)
id_of-append d [] ys = refl
id_of-append d (x ∷ xs) ys =
    ap (or_else (asks d x)) (id_of-append d xs ys) ∙ assoc (asks d x) (id_of d xs) (id_of d ys)
  where
    assoc : (a b c : Option ℤ) → or_else a (or_else b c) ≡ or_else (or_else a b) c
    assoc none b c = refl
    assoc (some x) b c = refl

pub sum_of-set_entry :
    (f : ℤ × RequestState → ℕ) (k : ℤ) (o : Option RequestState) (d : Dict ℤ RequestState)
    → lookup k d ≡ none
    → sum_of f (set_entry k o d) ≡ count_option f k o + sum_of f d
sum_of-set_entry f k none d h = omega arith
sum_of-set_entry f k (some r) d h = sum_of-insert_new f k r d h

pub sum_of-keep_entry :
    (f : ℤ × RequestState → ℕ) (k : ℤ) (o : Option RequestState) (d : Dict ℤ RequestState)
    → sum_of f (keep_entry k o d) ≡ count_option f k o + sum_of f d
sum_of-keep_entry f k none d = omega arith
sum_of-keep_entry f k (some r) d = refl

module _ (send_string : Bytes → Option ℕ) (conn : ℕ) where
  -- Sending fires the deferred, or keeps it waiting.
  pub send_request-waiting :
      (d : ℕ) (k : ℤ) (r : RequestState)
      → r.cancelled ≡ false
      → times_fired d (send_request send_string conn r).1
          + count_option (waiting d) k (send_request send_string conn r).0
        ≡ one_if (r.d == d)
  send_request-waiting d k r h = by (send_string r.request)
    where
      by :
          (o : Option ℕ)
          → times_fired d (sent_with conn r o).1 + count_option (waiting d) k (sent_with conn r o).0
            ≡ one_if (r.d == d)
      by (some e) = omega arith
      by none = elim (Bool-cases r.expect_response) [
        | inl expects ↦ rw (expects, h) (omega arith)
        | inr silent ↦ rw silent (omega arith)
      ]

  pub send_request_le :
      (f : ℤ × RequestState → ℕ) (k : ℤ) (r : RequestState)
      → IgnoresSent f
      → count_option f k (send_request send_string conn r).0 ≤ f (k, r)
  send_request_le f k r h = by (send_string r.request)
    where
      left : (b : Bool) → count_option f k (after_write conn r b).0 ≤ f (k, r)
      left true = omega (arith, h k r true)
      left false = omega arith

      by : (o : Option ℕ) → count_option f k (sent_with conn r o).0 ≤ f (k, r)
      by (some e) = omega arith
      by none = let it = left r.expect_response in ground (arith, it)

  -- No deferred is made.
  pub send_request-id_of :
      (d : ℕ) (r : RequestState) → id_of d (send_request send_string conn r).1 ≡ none
  send_request-id_of d r = by (send_string r.request)
    where
      by : (o : Option ℕ) → id_of d (sent_with conn r o).1 ≡ none
      by (some e) = refl
      by none = elim (Bool-cases r.expect_response) [
        | inl expects ↦ rw expects
        | inr silent ↦ rw silent
      ]

  pub send_queued-waiting :
      (d : ℕ) (l : Dict ℤ RequestState)
      → All IsFlagged l
      → times_fired d (send_queued send_string conn l).1
          + sum_of (waiting d) (send_queued send_string conn l).0
        ≡ sum_of (waiting d) l
  unfolding send_queued
  send_queued-waiting d [] h = refl
  send_queued-waiting d ((k, r) ∷ l) h =
      let rest = send_queued-waiting d l h.1 in
      elim (Bool-cases r.sent) [
        | inl before ↦ rw before (omega (arith, rest))
        | inr unsent ↦
            let going : r.cancelled ≡ false = ground (arith, h.0, unsent) in
            let one = send_request-waiting d k r going in
            let it : waiting d (k, r) ≡ one_if (r.d == d) = rw going in
            simp unsent (
              omega (
                arith,
                rest,
                one,
                it,
                sum_of-keep_entry (waiting d) k (send_request send_string conn r).0
                    (send_queued send_string conn l).0,
                times_fired-append d (send_request send_string conn r).1
                    (send_queued send_string conn l).1,
              ))
      ]

  pub send_queued_le :
      (f : ℤ × RequestState → ℕ) (l : Dict ℤ RequestState)
      → IgnoresSent f
      → sum_of f (send_queued send_string conn l).0 ≤ sum_of f l
  unfolding send_queued
  send_queued_le f [] h = omega arith
  send_queued_le f ((k, r) ∷ l) h =
      let rest = send_queued_le f l h in
      elim (Bool-cases r.sent) [
        | inl before ↦ rw before (omega (arith, rest))
        | inr unsent ↦ simp unsent (
            omega (
              arith,
              rest,
              send_request_le f k r h,
              sum_of-keep_entry f k (send_request send_string conn r).0
                  (send_queued send_string conn l).0,
            ))
      ]
