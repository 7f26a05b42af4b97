-- ===== src/BrokerClient/Resent.antt =====
-- What afkak/brokerclient.py's client sends again over a new connection.
use afkak.Prelude.{
  ℕ, suc, ◌≤◌, ◌≡◌, refl, ap, ◌∙◌, inl, inr, Bool, true, false, Option, none, List, [], ◌∷◌, ◌++◌,
  arith, if◌then◌else◌, Bool-cases,
}
use afkak.Prelude.Int.{ℤ}
use afkak.Result.{ok}
use afkak.Wire.Struct.{Bytes}
use afkak.Protocol.Data.{BrokerMetadata}
use afkak.Protocol.Grouping.{Dict, ℤ_eq}
use afkak.BrokerClient.{
  connect, RequestState, Down, up, closing, closed, BrokerClient, Effect, written, asked,
  called_back, failed_with, lose_connection, connecting, retry_after, cancel_connector, down_fired,
  connected, connection_lost, after_loss, mark_unsent, send_queued, after_write, send_request,
}
use afkak.BrokerClient.Events.{Reaches}
use afkak.BrokerClient.Reached.{Reaches-Invariant}
use afkak.BrokerClient.Order.{IsBetween}

-- The connection, the deferred and the request of each writing.
abbrev pub writings : List Effect → List (ℕ × ℕ × Bytes)
writings [] = []
writings (written conn d request ∷ out) = (conn, d, request) ∷ writings out
writings (_ ∷ out) = writings out

-- The requests that were not cancelled.
abbrev pub outstanding : ℕ → Dict ℤ RequestState → List (ℕ × ℕ × Bytes)
outstanding conn [] = []
outstanding conn ((k, r) ∷ l) =
    let rest = outstanding conn l in if r.cancelled then rest else (conn, r.d, r.request) ∷ rest

-- The deferreds rise, from `low` on.
abbrev pub IsRising : ℕ → List (ℕ × ℕ × Bytes) → Type 0
IsRising low [] = Unit {0}
IsRising low ((conn, d, request) ∷ l) = (low ≤ d) × IsRising (suc d) l

IsRising-lower :
    (low low' : ℕ) (l : List (ℕ × ℕ × Bytes)) → low' ≤ low → IsRising low l → IsRising low' l
IsRising-lower low low' [] le h = tt
IsRising-lower low low' ((conn, d, request) ∷ l) le h = (omega (arith, h.0), h.1)

outstanding-IsRising :
    (conn low : ℕ) (l : Dict ℤ RequestState) (top : ℕ)
    → IsBetween low l top
    → IsRising low (outstanding conn l)
outstanding-IsRising conn low [] top h = tt
outstanding-IsRising conn low ((k, r) ∷ l) top h =
    let rest = outstanding-IsRising conn (suc r.d) l top h.1 in
    elim (Bool-cases r.cancelled) [
      | inl gone ↦
          rw gone (IsRising-lower (suc r.d) low (outstanding conn l) (omega (arith, h.0)) rest)
      | inr stays ↦ rw stays (h.0, rest)
    ]

writings-append : (xs ys : List Effect) → writings (xs ++ ys) ≡ writings xs ++ writings ys
writings-append [] ys = refl
writings-append (written conn d request ∷ xs) ys =
    ap (λ l. (conn, d, request) ∷ l) (writings-append xs ys)
writings-append (asked d k ∷ xs) ys = writings-append xs ys
writings-append (called_back d response ∷ xs) ys = writings-append xs ys
writings-append (failed_with d reason ∷ xs) ys = writings-append xs ys
writings-append (lose_connection conn ∷ xs) ys = writings-append xs ys
writings-append (connecting metadata ∷ xs) ys = writings-append xs ys
writings-append (retry_after n ∷ xs) ys = writings-append xs ys
writings-append (cancel_connector ∷ xs) ys = writings-append xs ys
writings-append (down_fired ∷ xs) ys = writings-append xs ys

if_false {ℓ} : {A : Type ℓ} (b : Bool) (x y : A) → b ≡ false → (if b then x else y) ≡ y
if_false true x y h = cc
if_false false x y h = refl

module _ (send_string : Bytes → Option ℕ) (sends : (b : Bytes) → send_string b ≡ none) where
  sent-writings :
      (conn : ℕ) (r : RequestState)
      → writings (send_request send_string conn r).1 ≡ (conn, r.d, r.request) ∷ []
  sent-writings conn r = rw (sends r.request) (by r.expect_response)
    where
      by : (b : Bool) → writings (after_write conn r b).1 ≡ (conn, r.d, r.request) ∷ []
      by true = refl
      by false = refl

  resent :
      (conn : ℕ) (l : Dict ℤ RequestState)
      → writings (send_queued send_string conn (mark_unsent l)).1 ≡ outstanding conn l
  unfolding send_queued mark_unsent
  resent conn [] = refl
  resent conn ((k, r) ∷ l) =
      let rest = resent conn l in
      let again : RequestState = record r { sent = false } in
      let both =
        writings-append (send_request send_string conn again).1
          (send_queued send_string conn (mark_unsent l)).1 in
      let one = sent-writings conn again in
      elim (Bool-cases r.cancelled) [
        | inl gone ↦ rw gone rest
        | inr stays ↦
            let kept = if_false r.cancelled (mark_unsent l) ((k, again) ∷ mark_unsent l) stays in
            let left =
              if_false r.cancelled (outstanding conn l)
                ((conn, r.d, r.request) ∷ outstanding conn l) stays in
            rw (kept, left) (both ∙ rw (one, rest))
      ]

  lost_state :
      (st : BrokerClient) {next : BrokerClient} {out : List Effect}
      → connection_lost st ≡ ok (next, out)
      → st.down ≡ up
      → (next.requests ≡ mark_unsent st.requests)
        × (next.connections ≡ st.connections)
        × (next.down ≡ up)
  unfolding connection_lost
  lost_state st {next} {out} done open_ = by st.down (mark_unsent st.requests) open_ done
    where
      lost : BrokerClient
      lost = record st { proto = none; requests = mark_unsent st.requests }

      by :
          (down : Down) (l : Dict ℤ RequestState)
          → down ≡ up
          → after_loss down l lost ≡ ok (next, out)
          → (next.requests ≡ mark_unsent st.requests)
            × (next.connections ≡ st.connections)
            × (next.down ≡ up)
      by up [] e h = let same : lost ≡ next = cc h in rw (← same) (refl, refl, open_)
      by up (x ∷ l) e h =
          let same : (connect lost).0 ≡ next = cc h in rw (← same) (refl, refl, open_)
      by closing l e h = cc e
      by closed l e h = cc e

  -- A new connection after a lost one is sent every request that was not answered or cancelled, and
  -- no other, each once and in the order in which they were made, if sendString does not raise.
  pub connected-connection_lost :
      (metadata : BrokerMetadata) {st next : BrokerClient} {log out : List Effect}
      → Reaches send_string metadata st log
      → connection_lost st ≡ ok (next, out)
      → st.down ≡ up
      → (writings (connected send_string next).1 ≡ outstanding st.connections st.requests)
        × IsRising 0 (writings (connected send_string next).1)
  unfolding connected
  connected-connection_lost metadata {st} reached done open_ =
      let left = lost_state st done open_ in
      let again = resent st.connections st.requests in
      let i = Reaches-Invariant send_string metadata reached in
      let rising = outstanding-IsRising st.connections 0 st.requests st.created i.ordered in
      rw (left.2, left.1, left.0) (again, rw again rising)
