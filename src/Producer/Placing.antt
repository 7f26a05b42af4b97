-- ===== src/Producer/Placing.antt =====
-- The deferreds that afkak/producer.py's dictionaries by topic and partition hold were made.
use afkak.Prelude.{
  ℕ, ◌<◌, ◌≡◌, refl, ap, ◌∙◌, inl, inr, Bool, true, false, List, [], ◌∷◌, ◌++◌, Bool-cases, All,
  All-append,
}
use afkak.Prelude.Int.{ℤ}
use afkak.Wire.Text.{Text}
use afkak.Protocol.Grouping.{Dict, lookup, insert}
use afkak.Producer.{Part, Submission, Producer, failed, deliver_result}
use afkak.Producer.Batches.{
  part_eq, Placement, found, unfound, listed, append_to, place_requests, fail_unplaced,
  deferreds_of, by_part, all_of, zip,
}
use afkak.Producer.Answers.{deferreds_at}
use afkak.Producer.Firing.{AllBelow, Keeps, Keeps-plain, Keeps-then_do, deliver_result-Keeps}

All-append-left : {A : Type 0} (P : A → Type 0) (xs ys : List A) → All P (xs ++ ys) → All P xs
All-append-left P [] ys h = tt
All-append-left P (x ∷ xs) ys h = (h.0, All-append-left P xs ys h.1)

All-append-right : {A : Type 0} (P : A → Type 0) (xs ys : List A) → All P (xs ++ ys) → All P ys
All-append-right P [] ys h = h
All-append-right P (x ∷ xs) ys h = All-append-right P xs ys h.1

pub deferreds_at-AllBelow :
    (n : ℕ) (d : Dict Part (List ℕ)) (topic : Text) (partition : ℤ)
    → AllBelow n (all_of d)
    → AllBelow n (deferreds_at d topic partition)
unfolding lookup
deferreds_at-AllBelow n [] topic partition h = tt
deferreds_at-AllBelow n ((k, l) ∷ d) topic partition h =
    elim (Bool-cases (part_eq.beq k (topic, partition))) [
      | inl here ↦ rw here (All-append-left (λ e. e < n) l (all_of d) h)
      | inr there ↦
          rw there (
            deferreds_at-AllBelow n d topic partition
              (All-append-right (λ e. e < n) l (all_of d) h))
    ]

deferreds_of-append :
    (xs ys : List Submission) → deferreds_of (xs ++ ys) ≡ deferreds_of xs ++ deferreds_of ys
deferreds_of-append [] ys = refl
deferreds_of-append (x ∷ xs) ys = ap (λ l. x.d ∷ l) (deferreds_of-append xs ys)

-- The entries in front of a key stay.
lookup_cons :
    {A : Type 0} (k j : Part) (v : A) (d : Dict Part A)
    → part_eq.beq j k ≡ false
    → lookup k ((j, v) ∷ d) ≡ lookup k d
unfolding lookup
lookup_cons k j v d other = rw other

insert_cons :
    {A : Type 0} (k j : Part) (v w : A) (d : Dict Part A)
    → part_eq.beq j k ≡ false
    → insert k w ((j, v) ∷ d) ≡ (j, v) ∷ insert k w d
unfolding insert
insert_cons k j v w d other = rw other

append_to_here :
    {A : Type 0} (k j : Part) (a : A) (l : List A) (d : Dict Part (List A))
    → part_eq.beq j k ≡ true
    → append_to k a ((j, l) ∷ d) ≡ (j, l ++ a ∷ []) ∷ d
unfolding lookup insert
append_to_here k j a l d same = rw same

append_to_there :
    {A : Type 0} (k j : Part) (a : A) (l : List A) (d : Dict Part (List A))
    → part_eq.beq j k ≡ false
    → append_to k a ((j, l) ∷ d) ≡ (j, l) ∷ append_to k a d
append_to_there k j a l d other =
    insert_cons k j l (listed (lookup k ((j, l) ∷ d)) ++ a ∷ []) d other
    ∙ ap (λ o. (j, l) ∷ insert k (listed o ++ a ∷ []) d) (lookup_cons k j l d other)

append_to_empty : {A : Type 0} (k : Part) (a : A) → append_to k a [] ≡ (k, a ∷ []) ∷ []
unfolding lookup insert
append_to_empty k a = refl

append_to-AllBelow :
    (n : ℕ) (k : Part) (req : Submission) (d : Dict Part (List Submission))
    → req.d < n
    → AllBelow n (all_of (by_part d))
    → AllBelow n (all_of (by_part (append_to k req d)))
append_to-AllBelow n k req [] new h = rw (append_to_empty k req) (new, tt)
append_to-AllBelow n k req ((j, reqs) ∷ d) new h =
    let front = All-append-left (λ e. e < n) (deferreds_of reqs) (all_of (by_part d)) h in
    let back = All-append-right (λ e. e < n) (deferreds_of reqs) (all_of (by_part d)) h in
    elim (Bool-cases (part_eq.beq j k)) [
      | inl same ↦
          let more = All-append (λ e. e < n) (deferreds_of reqs) (req.d ∷ []) front (new, tt) in
          rw (append_to_here k j req reqs d same) (
            rw (deferreds_of-append reqs (req ∷ [])) (
              All-append (λ e. e < n) (deferreds_of reqs ++ req.d ∷ []) (all_of (by_part d)) more
                back))
      | inr other ↦
          let rest = append_to-AllBelow n k req d new back in
          rw (append_to_there k j req reqs d other) (
            All-append (λ e. e < n) (deferreds_of reqs) (all_of (by_part (append_to k req d))) front
              rest)
    ]

-- The requests of the search.
abbrev pub placed_deferreds : List (Placement × Submission) → List ℕ
placed_deferreds [] = []
placed_deferreds ((p, req) ∷ l) = req.d ∷ placed_deferreds l

pub zip-AllBelow :
    (n : ℕ) (ps : List Placement) (reqs : List Submission)
    → AllBelow n (deferreds_of reqs)
    → AllBelow n (placed_deferreds (zip ps reqs))
zip-AllBelow n [] reqs h = tt
zip-AllBelow n (p ∷ ps) [] h = tt
zip-AllBelow n (p ∷ ps) (req ∷ reqs) h = (h.0, zip-AllBelow n ps reqs h.1)

pub place_requests-AllBelow :
    (n : ℕ) (called : ℕ → Bool) (l : List (Placement × Submission))
    (d : Dict Part (List Submission))
    → AllBelow n (placed_deferreds l)
    → AllBelow n (all_of (by_part d))
    → AllBelow n (all_of (by_part (place_requests called l d)))
unfolding place_requests
place_requests-AllBelow n called [] d h b = b
place_requests-AllBelow n called ((found p, req) ∷ l) d h b = elim (Bool-cases (called req.d)) [
  | inl gone ↦ rw gone (place_requests-AllBelow n called l d h.1 b)
  | inr open_ ↦ rw open_ (
      place_requests-AllBelow n called l (append_to (req.topic, p) req d) h.1
        (append_to-AllBelow n (req.topic, p) req d h.0 b))
]
place_requests-AllBelow n called ((unfound f, req) ∷ l) d h b =
    place_requests-AllBelow n called l d h.1 b

pub fail_unplaced-Keeps :
    (l : List (Placement × Submission)) (st : Producer)
    → AllBelow st.created (placed_deferreds l)
    → Keeps st (fail_unplaced l st)
unfolding fail_unplaced
fail_unplaced-Keeps [] st h = Keeps-plain st st [] refl refl refl tt (λ b. b)
fail_unplaced-Keeps ((found p, req) ∷ l) st h = fail_unplaced-Keeps l st h.1
fail_unplaced-Keeps ((unfound f, req) ∷ l) st h =
    let now = deliver_result (λ d. failed d f) (req.d ∷ []) st in
    let one = deliver_result-Keeps (λ d. failed d f) (req.d ∷ []) st (λ d e. refl) (h.0, tt) in
    Keeps-then_do st now (fail_unplaced l) one (fail_unplaced-Keeps l now.0 (rw one.created h.1))
