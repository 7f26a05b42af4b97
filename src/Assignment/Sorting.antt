-- ===== src/Assignment/Sorting.antt =====
-- The sorting and the sets of afkak/_group.py's assignment keep what they are given.
use afkak.Prelude.{
  ℕ, suc, ◌+◌, ◌≡◌, refl, ◌∙◌, inl, inr, Bool, true, false, ◌||◌, List, [], ◌∷◌, ◌++◌, arith,
  Bool-cases, length, All,
}
use afkak.Wire.Text.{Text}
use afkak.Protocol.Grouping.{text_beq, text_beq_iff}
use afkak.Assignment.{contains, update, Members, subscribed, put, sort_into}

module _ {ℓ} {A : Type ℓ} where
  -- A count that depends on the elements only.
  abbrev pub sum_of : (A → ℕ) → List A → ℕ
  sum_of f [] = 0
  sum_of f (x ∷ xs) = f x + sum_of f xs

  -- Some element has a property.
  abbrev pub some_of : (A → Bool) → List A → Bool
  some_of f [] = false
  some_of f (x ∷ xs) = f x || some_of f xs

module _ {ℓ} {A : Type ℓ} (less : A → A → Bool) where
  All-put {κ} : (P : A → Type κ) (x : A) (ys : List A) → P x → All P ys → All P (put less x ys)
  All-put P x [] h hs = (h, hs)
  All-put P x (y ∷ ys) h hs = elim (Bool-cases (less x y)) [
    | inl first ↦ rw first (h, hs)
    | inr later ↦ rw later (hs.0, All-put P x ys h hs.1)
  ]

  pub All-sort_into {κ} :
      (P : A → Type κ) (done xs : List A) → All P done → All P xs → All P (sort_into less done xs)
  All-sort_into P done [] h hs = h
  All-sort_into P done (x ∷ xs) h hs =
      All-sort_into P (put less x done) xs (All-put P x done hs.0 h) hs.1

  sum_of-put : (f : A → ℕ) (x : A) (ys : List A) → sum_of f (put less x ys) ≡ f x + sum_of f ys
  sum_of-put f x [] = refl
  sum_of-put f x (y ∷ ys) = elim (Bool-cases (less x y)) [
    | inl first ↦ rw first
    | inr later ↦ rw later (omega (arith, sum_of-put f x ys))
  ]

  pub sum_of-sort_into :
      (f : A → ℕ) (done xs : List A)
      → sum_of f (sort_into less done xs) ≡ sum_of f done + sum_of f xs
  sum_of-sort_into f done [] = omega arith
  sum_of-sort_into f done (x ∷ xs) =
      omega (arith, sum_of-sort_into f (put less x done) xs, sum_of-put f x done)

  pub length-put : (x : A) (ys : List A) → length (put less x ys) ≡ suc (length ys)
  length-put x [] = refl
  length-put x (y ∷ ys) = elim (Bool-cases (less x y)) [
    | inl first ↦ rw first
    | inr later ↦ rw later (omega (arith, length-put x ys))
  ]

  some_of-put :
      (f : A → Bool) (x : A) (ys : List A) → some_of f (put less x ys) ≡ (f x || some_of f ys)
  some_of-put f x [] = refl
  some_of-put f x (y ∷ ys) = elim (Bool-cases (less x y)) [
    | inl first ↦ rw first
    | inr later ↦ rw later (ground (arith, some_of-put f x ys))
  ]

  pub some_of-sort_into :
      (f : A → Bool) (done xs : List A)
      → some_of f (sort_into less done xs) ≡ (some_of f done || some_of f xs)
  some_of-sort_into f done [] = ground arith
  some_of-sort_into f done (x ∷ xs) =
      ground (arith, some_of-sort_into f (put less x done) xs, some_of-put f x done)

abbrev pub one_if : Bool → ℕ
one_if true = 1
one_if false = 0

-- How often a topic is listed; in a set once or not at all.
abbrev pub times : Text → List Text → ℕ
times topic [] = 0
times topic (t ∷ ts) = one_if (text_beq t topic) + times topic ts

contains-append :
    (topic : Text) (xs ys : List Text)
    → contains topic (xs ++ ys) ≡ (contains topic xs || contains topic ys)
contains-append topic [] ys = refl
contains-append topic (x ∷ xs) ys = ground (arith, contains-append topic xs ys)

times-append :
    (topic : Text) (xs ys : List Text) → times topic (xs ++ ys) ≡ times topic xs + times topic ys
times-append topic [] ys = omega arith
times-append topic (x ∷ xs) ys = omega (arith, times-append topic xs ys)

pub contains-update :
    (topic : Text) (set ts : List Text)
    → contains topic (update set ts) ≡ (contains topic set || contains topic ts)
contains-update topic set [] = ground arith
contains-update topic set (t ∷ ts) = elim (Bool-cases (contains t set)) [
  | inl known ↦ rw known (contains-update topic set ts ∙ listed_twice known)
  | inr new ↦ rw new (
      contains-update topic (set ++ t ∷ []) ts ∙ ground (arith, contains-append topic set (t ∷ [])))
]
  where
    listed_twice :
        contains t set ≡ true
        → (contains topic set || contains topic ts)
          ≡ (contains topic set || contains topic (t ∷ ts))
    listed_twice known = elim (Bool-cases (text_beq t topic)) [
      | inl same ↦
          let here : t ≡ topic = (text_beq_iff t topic).0 same in
          let seen : contains topic set ≡ true = rw here at known in rw seen
      | inr other ↦ rw other
    ]

-- A set: each topic stands in it once if at all.
abbrev pub IsOnce : List Text → Type 0
IsOnce set = (topic : Text) → times topic set ≡ one_if (contains topic set)

update-IsOnce : (set ts : List Text) → IsOnce set → IsOnce (update set ts)
update-IsOnce set [] h = h
update-IsOnce set (t ∷ ts) h = elim (Bool-cases (contains t set)) [
  | inl known ↦ rw known (update-IsOnce set ts h)
  | inr new ↦ rw new (update-IsOnce (set ++ t ∷ []) ts (λ topic. added topic new))
]
  where
    added :
        (topic : Text)
        → contains t set ≡ false
        → times topic (set ++ t ∷ []) ≡ one_if (contains topic (set ++ t ∷ []))
    added topic new = elim (Bool-cases (text_beq t topic)) [
      | inl same ↦
          let here : t ≡ topic = (text_beq_iff t topic).0 same in
          let unseen : contains topic set ≡ false = rw here at new in
          rw (
            times-append topic set (t ∷ []),
            contains-append topic set (t ∷ []),
            h topic,
            unseen,
            same,
          )
      | inr other ↦
          rw (times-append topic set (t ∷ []), contains-append topic set (t ∷ []), h topic, other)
            (ground arith)
    ]

pub subscribed-IsOnce :
    (set : List Text) (members : Members) → IsOnce set → IsOnce (subscribed set members)
subscribed-IsOnce set [] h = h
subscribed-IsOnce set ((m, metadata) ∷ members) h =
    subscribed-IsOnce (update set metadata.subscriptions) members
      (update-IsOnce set metadata.subscriptions h)
