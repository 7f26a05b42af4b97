-- ===== src/BrokerClient/Order.antt =====
-- The order of the requests of afkak/brokerclient.py's client: the deferreds of its dictionary rise.
use afkak.Prelude.{
  ℕ, suc, ◌≤◌, ◌≡◌, inl, inr, Bool, true, false, Option, none, some, [], ◌∷◌, arith, Bool-cases,
}
use afkak.Prelude.Int.{ℤ}
use afkak.Wire.Struct.{Bytes}
use afkak.Protocol.Grouping.{Dict, ℤ_eq, lookup, insert}
use afkak.Dictionary.{delete}
use afkak.BrokerClient.{
  RequestState, after_write, sent_with, keep_entry, set_entry, send_queued, mark_unsent,
}

-- From `low` on, below `top`, each above the one before.
abbrev pub IsBetween : ℕ → Dict ℤ RequestState → ℕ → Type 0
IsBetween low [] top = low ≤ top
IsBetween low ((k, r) ∷ l) top = (low ≤ r.d) × IsBetween (suc r.d) l top

pub IsBetween-lower :
    (low low' : ℕ) (l : Dict ℤ RequestState) (top : ℕ)
    → low' ≤ low
    → IsBetween low l top
    → IsBetween low' l top
IsBetween-lower low low' [] top le h = omega arith
IsBetween-lower low low' ((k, r) ∷ l) top le h = (omega (arith, h.0), h.1)

pub IsBetween-higher :
    (low : ℕ) (l : Dict ℤ RequestState) (top top' : ℕ)
    → top ≤ top'
    → IsBetween low l top
    → IsBetween low l top'
IsBetween-higher low [] top top' le h = omega arith
IsBetween-higher low ((k, r) ∷ l) top top' le h =
    (h.0, IsBetween-higher (suc r.d) l top top' le h.1)

-- Without its first entry.
pub IsBetween-tail :
    (low : ℕ) (k : ℤ) (r : RequestState) (l : Dict ℤ RequestState) (top : ℕ)
    → IsBetween low ((k, r) ∷ l) top
    → IsBetween low l top
IsBetween-tail low k r l top h = IsBetween-lower (suc r.d) low l top (omega (arith, h.0)) h.1

pub delete-IsBetween :
    (low : ℕ) (k : ℤ) (l : Dict ℤ RequestState) (top : ℕ)
    → IsBetween low l top
    → IsBetween low (delete k l) top
unfolding delete
delete-IsBetween low k [] top h = h
delete-IsBetween low k ((j, r) ∷ l) top h = elim (Bool-cases (ℤ_eq.beq j k)) [
  | inl same ↦ rw same (IsBetween-tail low j r l top h)
  | inr other ↦ rw other (h.0, delete-IsBetween (suc r.d) k l top h.1)
]

-- A new request comes last.
pub insert_new-IsBetween :
    (low : ℕ) (k : ℤ) (r : RequestState) (l : Dict ℤ RequestState)
    → lookup k l ≡ none
    → IsBetween low l r.d
    → IsBetween low (insert k r l) (suc r.d)
unfolding lookup insert
insert_new-IsBetween low k r [] absent h = (h, omega arith)
insert_new-IsBetween low k r ((j, q) ∷ l) absent h = elim (Bool-cases (ℤ_eq.beq j k)) [
  | inl same ↦ cc (rw same at absent)
  | inr other ↦ rw other (h.0, insert_new-IsBetween (suc q.d) k r l (rw other at absent) h.1)
]

pub insert_known-IsBetween :
    (low : ℕ) (k : ℤ) (r q : RequestState) (l : Dict ℤ RequestState) (top : ℕ)
    → lookup k l ≡ some q
    → r.d ≡ q.d
    → IsBetween low l top
    → IsBetween low (insert k r l) top
unfolding lookup insert
insert_known-IsBetween low k r q [] top found its h = cc
insert_known-IsBetween low k r q ((j, p) ∷ l) top found its h = elim (Bool-cases (ℤ_eq.beq j k)) [
  | inl same ↦ let it : p ≡ q = cc (rw same at found) in rw same (rw (its, ← it) h)
  | inr other ↦
      rw other (h.0, insert_known-IsBetween (suc p.d) k r q l top (rw other at found) its h.1)
]

pub mark_unsent-IsBetween :
    (low : ℕ) (l : Dict ℤ RequestState) (top : ℕ)
    → IsBetween low l top
    → IsBetween low (mark_unsent l) top
unfolding mark_unsent
mark_unsent-IsBetween low [] top h = h
mark_unsent-IsBetween low ((k, r) ∷ l) top h = elim (Bool-cases r.cancelled) [
  | inl gone ↦ rw gone (mark_unsent-IsBetween low l top (IsBetween-tail low k r l top h))
  | inr stays ↦ simp stays (h.0, mark_unsent-IsBetween (suc r.d) l top h.1)
]

pub set_entry-IsBetween :
    (low conn : ℕ) (k : ℤ) (r : RequestState) (o : Option ℕ) (l : Dict ℤ RequestState)
    → lookup k l ≡ none
    → IsBetween low l r.d
    → IsBetween low (set_entry k (sent_with conn r o).0 l) (suc r.d)
set_entry-IsBetween low conn k r (some e) l absent h =
    IsBetween-higher low l r.d (suc r.d) (omega arith) h
set_entry-IsBetween low conn k r none l absent h = by r.expect_response
  where
    by : (b : Bool) → IsBetween low (set_entry k (after_write conn r b).0 l) (suc r.d)
    by true = insert_new-IsBetween low k (record r { sent = true }) l absent h
    by false = IsBetween-higher low l r.d (suc r.d) (omega arith) h

keep_entry-IsBetween :
    (low conn : ℕ) (k : ℤ) (r : RequestState) (o : Option ℕ) (l : Dict ℤ RequestState) (top : ℕ)
    → low ≤ r.d
    → IsBetween (suc r.d) l top
    → IsBetween low (keep_entry k (sent_with conn r o).0 l) top
keep_entry-IsBetween low conn k r (some e) l top le h =
    IsBetween-lower (suc r.d) low l top (omega arith) h
keep_entry-IsBetween low conn k r none l top le h = by r.expect_response
  where
    by : (b : Bool) → IsBetween low (keep_entry k (after_write conn r b).0 l) top
    by true = (le, h)
    by false = IsBetween-lower (suc r.d) low l top (omega arith) h

pub send_queued-IsBetween :
    (send_string : Bytes → Option ℕ) (conn low : ℕ) (l : Dict ℤ RequestState) (top : ℕ)
    → IsBetween low l top
    → IsBetween low (send_queued send_string conn l).0 top
unfolding send_queued
send_queued-IsBetween send_string conn low [] top h = h
send_queued-IsBetween send_string conn low ((k, r) ∷ l) top h =
    let rest = send_queued-IsBetween send_string conn (suc r.d) l top h.1 in
    elim (Bool-cases r.sent) [
      | inl before ↦ simp before (h.0, rest)
      | inr waits ↦ simp waits (
          keep_entry-IsBetween low conn k r (send_string r.request)
            (send_queued send_string conn l).0 top h.0 rest)
    ]
