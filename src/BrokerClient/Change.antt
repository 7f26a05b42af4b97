-- ===== src/BrokerClient/Change.antt =====
-- What one step of afkak/brokerclient.py's client may change, in counts, and the invariant that such a
-- change keeps.
use afkak.Prelude.{
  ℕ, ◌+◌, ◌≤◌, ◌≡◌, refl, inl, inr, true, not, Option, none, some, List, [], ◌∷◌, ◌++◌, arith, ltb,
  ◌==◌, if◌then◌else◌, ==_refl, Bool-cases, All,
}
use afkak.Prelude.Int.{ℤ, eqb_ℤ, eqb_ℤ→eq, eqb_ℤ_refl}
use afkak.Protocol.Grouping.{Dict, ℤ_eq, lookup}
use afkak.Dictionary.{one_if, sum_of, sum_of-append}
use afkak.BrokerClient.{RequestState, BrokerClient, Effect}
use afkak.BrokerClient.Events.{times_fired, id_of, or_else}
use afkak.BrokerClient.Written.{writes, times_written, is_proto, budget}
use afkak.BrokerClient.Order.{IsBetween}
use afkak.BrokerClient.Counting.{waiting, IsFlagged, id_of-append, times_fired-append}

-- A count by the id and the deferred of an entry.
abbrev pub by_key : (ℤ → ℕ → ℕ) → ℤ × RequestState → ℕ
by_key g (k, r) = g k r.d

abbrev pub is_id : ℤ → ℤ → ℕ → ℕ
is_id j k d = one_if (eqb_ℤ k j)

abbrev pub is_deferred : ℕ → ℤ → ℕ → ℕ
is_deferred e k d = one_if (d == e)

-- The deferred was not made for that id.
abbrev pub differs : ℤ → Option ℤ → ℕ
differs k none = 1
differs k (some j) = one_if (not (eqb_ℤ j k))

abbrev pub is_strange : List Effect → ℤ → ℕ → ℕ
is_strange log k d = differs k (id_of d log)

-- The deferred that a step makes, by the id of its request.
abbrev pub count_new : (ℤ → ℕ → ℕ) → ℕ → Option ℤ → ℕ
count_new g d none = 0
count_new g d (some k) = g k d

pub record Change (st next : BrokerClient) (out : List Effect) (new : Option ℤ) : Type 0 where
  pub absent : (k : ℤ) → new ≡ some k → lookup k st.requests ≡ none
  pub created : next.created ≡ st.created + count_new (λ k d. 1) st.created new
  pub asked : (d : ℕ) → id_of d out ≡ (if d == st.created then new else none)
  pub once :
      (d : ℕ)
      → times_fired d out + sum_of (waiting d) next.requests
        ≡ sum_of (waiting d) st.requests + count_new (is_deferred d) st.created new
  pub kept :
      (g : ℤ → ℕ → ℕ)
      → sum_of (by_key g) next.requests ≤ sum_of (by_key g) st.requests + count_new g st.created new
  pub flags : All IsFlagged next.requests
  pub ordered : IsBetween 0 next.requests next.created
  pub numbered : (c : ℕ) → is_proto c next.proto ≡ true → ltb c next.connections ≡ true
  pub wrote : (c d : ℕ) → times_written c d out + budget c d next ≤ budget c d st

-- Every deferred has fired once or has one entry that will fire it. An entry's id is the one that its
-- deferred was made for, no two entries share an id or a deferred, and the deferreds rise.
pub record Invariant (st : BrokerClient) (log : List Effect) : Type 0 where
  pub once :
      (d : ℕ) → times_fired d log + sum_of (waiting d) st.requests ≡ one_if (ltb d st.created)
  pub keyed : (k : ℤ) → sum_of (by_key (is_id k)) st.requests ≤ 1
  pub held : (d : ℕ) → sum_of (by_key (is_deferred d)) st.requests ≤ one_if (ltb d st.created)
  pub known : sum_of (by_key (is_strange log)) st.requests ≡ 0
  pub fresh : (d : ℕ) → st.created ≤ d → id_of d log ≡ none
  pub flags : All IsFlagged st.requests
  pub ordered : IsBetween 0 st.requests st.created
  pub numbered : (c : ℕ) → is_proto c st.proto ≡ true → ltb c st.connections ≡ true
  pub wrote : (c d : ℕ) → times_written c d log + budget c d st ≤ 1

-- What no entry has, has no sum.
pub lookup-none-sum_of :
    (k : ℤ) (l : Dict ℤ RequestState) → lookup k l ≡ none → sum_of (by_key (is_id k)) l ≡ 0
unfolding lookup
lookup-none-sum_of k [] h = refl
lookup-none-sum_of k ((j, r) ∷ l) h = elim (Bool-cases (eqb_ℤ j k)) [
  | inl same ↦ cc (rw same at h)
  | inr other ↦ rw other (omega (arith, lookup-none-sum_of k l (rw other at h)))
]

-- What is known of a deferred stays known.
is_strange-append :
    (log out : List Effect) (l : Dict ℤ RequestState)
    → sum_of (by_key (is_strange (log ++ out))) l ≤ sum_of (by_key (is_strange log)) l
is_strange-append log out [] = omega arith
is_strange-append log out ((k, r) ∷ l) =
    let rest = is_strange-append log out l in
    let first = less (id_of r.d log) (id_of r.d out) in
    rw (id_of-append r.d log out) (omega (arith, rest, first))
  where
    less : (a b : Option ℤ) → differs k (or_else a b) ≤ differs k a
    less none none = omega arith
    less none (some j) = elim (Bool-cases (eqb_ℤ j k)) [
      | inl same ↦ rw same (omega arith)
      | inr other ↦ rw other (omega arith)
    ]
    less (some j) b = omega arith

one_if_new :
    (d c : ℕ) (new : Option ℤ)
    → one_if (ltb d c) + count_new (is_deferred d) c new
      ≡ one_if (ltb d (c + count_new (λ k e. 1) c new))
one_if_new d c none = ground arith
one_if_new d c (some k) = ground arith

is_id_new :
    (k : ℤ) (c : ℕ) (new : Option ℤ) (l : Dict ℤ RequestState)
    → ((j : ℤ) → new ≡ some j → lookup j l ≡ none)
    → sum_of (by_key (is_id k)) l ≤ 1
    → sum_of (by_key (is_id k)) l + count_new (is_id k) c new ≤ 1
is_id_new k c none l absent h = omega arith
is_id_new k c (some j) l absent h = elim (Bool-cases (eqb_ℤ j k)) [
  | inl same ↦
      let here : j ≡ k = eqb_ℤ→eq j k same in
      let gone : lookup k l ≡ none = rw (← here) (absent j refl) in
      rw same (omega (arith, lookup-none-sum_of k l gone))
  | inr other ↦ rw other (omega arith)
]

is_strange_new :
    (c : ℕ) (new : Option ℤ) (log : List Effect)
    → id_of c log ≡ new
    → count_new (is_strange log) c new ≡ 0
is_strange_new c none log h = refl
is_strange_new c (some k) log h = rw (h, eqb_ℤ_refl k)

id_of_new :
    (c d : ℕ) (new : Option ℤ)
    → c + count_new (λ k e. 1) c new ≤ d
    → (if d == c then new else none) ≡ none
id_of_new c d none h = elim (Bool-cases (d == c)) [ inl same ↦ rw same | inr other ↦ rw other ]
id_of_new c d (some k) h = ground arith

module _ {st next : BrokerClient} {log out : List Effect} {new : Option ℤ} (i : Invariant st log)
    (c : Change st next out new) where
  Change-once :
      (d : ℕ)
      → times_fired d (log ++ out) + sum_of (waiting d) next.requests ≡ one_if (ltb d next.created)
  Change-once d =
      rw c.created (
        omega
          (arith, times_fired-append d log out, i.once d, c.once d, one_if_new d st.created new))

  Change-keyed : (k : ℤ) → sum_of (by_key (is_id k)) next.requests ≤ 1
  Change-keyed k =
      omega (arith, c.kept (is_id k), is_id_new k st.created new st.requests c.absent (i.keyed k))

  Change-held :
      (d : ℕ) → sum_of (by_key (is_deferred d)) next.requests ≤ one_if (ltb d next.created)
  Change-held d =
      rw c.created (omega (arith, c.kept (is_deferred d), i.held d, one_if_new d st.created new))

  -- The new deferred, if there is one, was made for the new id.
  asked_new : id_of st.created (log ++ out) ≡ new
  asked_new = rw (
    id_of-append st.created log out,
    i.fresh st.created (omega arith),
    c.asked st.created,
    ==_refl st.created,
  )

  Change-known : sum_of (by_key (is_strange (log ++ out))) next.requests ≡ 0
  Change-known = omega (
    arith,
    c.kept (is_strange (log ++ out)),
    is_strange-append log out st.requests,
    i.known,
    is_strange_new st.created new (log ++ out) asked_new,
  )

  Change-fresh : (d : ℕ) → next.created ≤ d → id_of d (log ++ out) ≡ none
  Change-fresh d h =
      let before : st.created ≤ d = omega (arith, c.created) in
      let bound : st.created + count_new (λ k e. 1) st.created new ≤ d = omega (arith, c.created) in
      rw (id_of-append d log out, i.fresh d before, c.asked d, id_of_new st.created d new bound)

  Change-wrote : (e d : ℕ) → times_written e d (log ++ out) + budget e d next ≤ 1
  Change-wrote e d = omega (arith, sum_of-append (writes e d) log out, i.wrote e d, c.wrote e d)

  pub Change-Invariant : Invariant next (log ++ out)
  Change-Invariant = record {
    once = Change-once;
    keyed = Change-keyed;
    held = Change-held;
    known = Change-known;
    fresh = Change-fresh;
    flags = c.flags;
    ordered = c.ordered;
    numbered = c.numbered;
    wrote = Change-wrote;
  }
