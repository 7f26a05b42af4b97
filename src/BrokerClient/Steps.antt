-- ===== src/BrokerClient/Steps.antt =====
-- What the steps of afkak/brokerclient.py's client that make, send or drop requests change.
use afkak.Prelude.{
  ℕ, suc, ◌+◌, ◌≤◌, ◌≡◌, refl, sym, ◌∙◌, inl, inr, Bool, true, false, Option, none, some, List, [],
  ◌∷◌, arith, leb, ◌==◌, if◌then◌else◌, ==_iff, Bool-cases, All,
}
use afkak.Prelude.Int.{ℤ}
use afkak.Wire.Struct.{Bytes}
use afkak.Protocol.Grouping.{ℤ_eq, lookup, insert}
use afkak.Dictionary.{one_if, sum_of, sum_of-insert_new, All-insert}
use afkak.BrokerClient.{
  called_back, written, RequestState, BrokerClient, Effect, asked, failed_with, client_closed,
  Connector, new_request, sent_with, after_write, set_entry, send_request,
}
use afkak.BrokerClient.Events.{fires, asks, times_fired, id_of}
use afkak.BrokerClient.Order.{IsBetween-higher, insert_new-IsBetween, set_entry-IsBetween}
use afkak.BrokerClient.Counting.{
  waiting, IsFlagged, send_request-waiting, send_request_le, send_request-id_of, sum_of-set_entry,
}
use afkak.BrokerClient.Written.{
  writes, unsent, times_written, budget_step, sent_with-written, sent_with_elsewhere,
}
use afkak.BrokerClient.Change.{Change, Invariant, by_key}

-- Effects that no deferred and no request has a part in.
pub record IsQuiet (out : List Effect) : Type 0 where
  pub unasked : (d : ℕ) → id_of d out ≡ none
  pub unfired : (d : ℕ) → times_fired d out ≡ 0
  pub unwritten : (c d : ℕ) → times_written c d out ≡ 0

pub IsQuiet-nil : IsQuiet []
IsQuiet-nil = record { unasked = λ d. refl; unfired = λ d. refl; unwritten = λ c d. refl }

-- An effect on a connection or on the reactor.
abbrev pub IsPlain : Effect → Type 0
IsPlain (asked d k) = ⊥
IsPlain (written c d request) = ⊥
IsPlain (called_back d response) = ⊥
IsPlain (failed_with d reason) = ⊥
IsPlain _ = Unit {0}

plain_lem :
    (x : Effect) → IsPlain x → (c d : ℕ) → (asks d x ≡ none) × (fires d x ≡ 0) × (writes c d x ≡ 0)
plain_lem (asked e k) h c d = elim h [ ]
plain_lem (written conn e request) h c d = elim h [ ]
plain_lem (called_back e response) h c d = elim h [ ]
plain_lem (failed_with e reason) h c d = elim h [ ]
plain_lem _ h c d = (refl, refl, refl)

pub IsQuiet-cons : (x : Effect) (out : List Effect) → IsPlain x → IsQuiet out → IsQuiet (x ∷ out)
IsQuiet-cons x out h quiet = record {
  unasked = λ d. rw ((plain_lem x h 0 d).0) (quiet.unasked d);
  unfired = λ d. omega (arith, (plain_lem x h 0 d).1, quiet.unfired d);
  unwritten = λ c d. omega (arith, (plain_lem x h c d).2, quiet.unwritten c d);
}

pub if_none : (b : Bool) → ◌≡◌ {A = Option ℤ} (if b then none else none) none
if_none true = refl
if_none false = refl

-- A step that keeps the requests and the connection.
pub quiet-Change :
    {st next : BrokerClient} {log out : List Effect}
    → Invariant st log
    → next.requests ≡ st.requests
    → next.created ≡ st.created
    → next.connections ≡ st.connections
    → next.proto ≡ st.proto
    → IsQuiet out
    → Change st next out none
quiet-Change {st} {next} {log} {out} i requests created connections proto quiet = record {
  absent = λ k h. cc;
  created = rw created (omega arith);
  asked = λ d. quiet.unasked d ∙ sym (if_none (d == st.created));
  once = λ d. rw (quiet.unfired d, requests) (omega arith);
  kept = λ g. rw requests (omega arith);
  flags = rw requests i.flags;
  ordered = rw (requests, created) i.ordered;
  numbered = rw (connections, proto) i.numbered;
  wrote = λ c d.
      budget_step c d (times_written c d out) st next connections proto (i.numbered c)
        (λ h. quiet.unwritten c d) (rw (quiet.unwritten c d, requests, created) (omega arith));
}

module _ (send_string : Bytes → Option ℕ) {st : BrokerClient} {log : List Effect}
    (i : Invariant st log) (k : ℤ) (request : Bytes) (expect : Bool)
    (absent : lookup k st.requests ≡ none) where
  abbrev pub made : RequestState
  made = new_request k request expect st.created

  asked_as :
      (d : ℕ) (out : List Effect)
      → id_of d out ≡ none
      → id_of d (asked st.created k ∷ out) ≡ (if d == st.created then some k else none)
  asked_as d out h = elim (Bool-cases (d == st.created)) [
    | inl same ↦ let back : (st.created == d) ≡ true = ground (arith, same) in rw (same, back)
    | inr other ↦
        let back : (st.created == d) ≡ false = ground (arith, other) in rw (other, back, h)
  ]

  pub refused-Change :
      Change st
        (record st { created = suc st.created })
        (asked st.created k ∷ failed_with st.created client_closed ∷ [])
        (some k)
  refused-Change = record {
    absent = λ j h. let e : k ≡ j = cc h in rw (← e) absent;
    created = omega arith;
    asked = λ d. asked_as d (failed_with st.created client_closed ∷ []) refl;
    once = λ d. omega arith;
    kept = λ g. omega arith;
    flags = i.flags;
    ordered = IsBetween-higher 0 st.requests st.created (suc st.created) (omega arith) i.ordered;
    numbered = i.numbered;
    wrote = λ c d.
        budget_step c d 0 st (record st { created = suc st.created }) refl refl (i.numbered c)
          (λ h. refl) (ground arith);
  }

  one_later :
      (d : ℕ)
      → one_if (st.created == d) + one_if (leb (suc st.created) d) ≡ one_if (leb st.created d)
  one_later d = ground arith

  sent-flags :
      (conn : ℕ) (o : Option ℕ) → All IsFlagged (set_entry k (sent_with conn made o).0 st.requests)
  sent-flags conn (some e) = i.flags
  sent-flags conn none = by expect
    where
      by : (b : Bool) → All IsFlagged (set_entry k (after_write conn made b).0 st.requests)
      by true = All-insert IsFlagged k (record made { sent = true }) st.requests refl i.flags
      by false = i.flags

  sent-wrote :
      (conn c d : ℕ) (o : Option ℕ)
      → times_written c d (sent_with conn made o).1
          + (sum_of (unsent d) (set_entry k (sent_with conn made o).0 st.requests)
              + one_if (leb (suc st.created) d))
        ≤ sum_of (unsent d) st.requests + one_if (leb st.created d)
  sent-wrote conn c d o =
      let bound = sent_with-written send_string conn d k made o in
      let sum = sum_of-set_entry (unsent d) k (sent_with conn made o).0 st.requests absent in
      let one = one_later d in
      elim (Bool-cases (conn == c)) [
        | inl same ↦
            let here : conn ≡ c = (==_iff conn c).0 same in
            rw (← here) (omega (arith, bound, sum, one))
        | inr other ↦
            rw (sent_with_elsewhere send_string conn c d made o other)
              (omega (arith, bound, sum, one))
      ]

  pub sent-Change :
      (conn : ℕ)
      → st.proto ≡ some conn
      → Change st
          (record st {
            requests = set_entry k (send_request send_string conn made).0 st.requests;
            created = suc st.created;
          })
          (asked st.created k ∷ (send_request send_string conn made).1)
          (some k)
  sent-Change conn proto = record {
    absent = λ j h. let e : k ≡ j = cc h in rw (← e) absent;
    created = omega arith;
    asked = λ d.
        asked_as d (send_request send_string conn made).1
          (send_request-id_of send_string conn d made);
    once = λ d. omega (
      arith,
      send_request-waiting send_string conn d k made refl,
      sum_of-set_entry (waiting d) k (send_request send_string conn made).0 st.requests absent,
    );
    kept = λ g. omega (
      arith,
      send_request_le send_string conn (by_key g) k made (λ j r b. refl),
      sum_of-set_entry (by_key g) k (send_request send_string conn made).0 st.requests absent,
    );
    ordered = set_entry-IsBetween 0 conn k made (send_string request) st.requests absent i.ordered;
    flags = sent-flags conn (send_string request);
    numbered = i.numbered;
    wrote = λ c d. omega (
      arith,
      budget_step c d (times_written c d (send_request send_string conn made).1) st
          (record st {
            requests = set_entry k (send_request send_string conn made).0 st.requests;
            created = suc st.created;
          })
          refl refl (i.numbered c)
          (λ h. sent_with_elsewhere send_string conn c d made (send_string request) (rw proto at h))
          (sent-wrote conn c d (send_string request)),
    );
  }

  pub queued-Change :
      (out : List Effect)
      → IsQuiet out
      → (connector : Option Connector) (failures : ℕ)
      → Change st
          (record st {
            requests = insert k made st.requests;
            created = suc st.created;
            connector = connector;
            failures = failures;
          })
          (asked st.created k ∷ out)
          (some k)
  queued-Change out quiet connector failures = record {
    absent = λ j h. let e : k ≡ j = cc h in rw (← e) absent;
    created = omega arith;
    asked = λ d. asked_as d out (quiet.unasked d);
    once = λ d.
        omega (arith, quiet.unfired d, sum_of-insert_new (waiting d) k made st.requests absent);
    kept = λ g. omega (arith, sum_of-insert_new (by_key g) k made st.requests absent);
    ordered = insert_new-IsBetween 0 k made st.requests absent i.ordered;
    flags = All-insert IsFlagged k made st.requests refl i.flags;
    numbered = i.numbered;
    wrote = λ c d. omega (
      arith,
      budget_step c d (times_written c d out) st
          (record st {
            requests = insert k made st.requests;
            created = suc st.created;
            connector = connector;
            failures = failures;
          })
          refl refl (i.numbered c) (λ h. quiet.unwritten c d)
          (omega (
            arith,
            quiet.unwritten c d,
            sum_of-insert_new (unsent d) k made st.requests absent,
            one_later d,
          )),
    );
  }
