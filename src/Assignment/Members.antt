-- ===== src/Assignment/Members.antt =====
-- The search for a member in the assignment of afkak/_group.py: it ends, and at a member that has
-- subscribed to the topic.
use afkak.Prelude.{
  ℕ, zero, suc, ◌+◌, ◌≤◌, ◌<◌, ◌≡◌, refl, sym, ap, ◌∙◌, inl, inr, Bool, true, false, ◌||◌, some,
  List, [], ◌∷◌, arith, Bool-cases, length, All,
}
use afkak.Result.{Result, ok, err}
use afkak.Wire.Text.{Text}
use afkak.Protocol.Grouping.{Dict, text_eq, text_beq, text_beq_iff, lookup}
use afkak.Protocol.Grouping.Distinct.{IsDict}
use afkak.Protocol.Data.{JoinGroupProtocolMetadata}
use afkak.Assignment.{contains, update, Members, subscribed, advance, wants, next_member, keys}
use afkak.Assignment.Sorting.{some_of, contains-update}

abbrev is_true : Result Bool → Bool
is_true (ok b) = b
is_true (err e) = false

module _ (members : Members) where
  -- A member of the group.
  abbrev pub IsMember : Text → Type 0
  IsMember m = (metadata : JoinGroupProtocolMetadata) × (lookup m members ≡ some metadata)

  -- The member has subscribed to the topic.
  abbrev pub Wants : Text → Text → Type 0
  Wants topic m = wants topic (lookup m members) ≡ ok true

  abbrev pub wanted_by : Text → Text → Bool
  wanted_by topic m = is_true (wants topic (lookup m members))

  module _ (ids : List Text) where
    -- What the search comes to: a member that wants the topic, and the rest of a round.
    abbrev pub Finds : Text → Result (Text × List Text) → Type 0
    Finds topic r =
        (m : Text) × (rest : List Text) × (r ≡ ok (m, rest))
        × Wants topic m
        × All IsMember rest
        × (length rest ≤ length ids)

    -- One step, at a member.
    at_member :
        (fuel : ℕ) (topic m : Text) (rest : List Text)
        → IsMember m
        → All IsMember rest
        → length rest ≤ length ids
        → (wanted_by topic m ≡ false → Finds topic (next_member members ids fuel topic rest))
        → Finds topic (next_member members ids (suc fuel) topic (m ∷ rest))
    unfolding next_member
    at_member fuel topic m rest (metadata, known) others room later =
        elim (Bool-cases (contains topic metadata.subscriptions)) [
          | inl here ↦ (m, rest, rw (known, here), rw (known, here), others, room)
          | inr elsewhere ↦
              let unwanted : wanted_by topic m ≡ false = rw (known, elsewhere) in
              rw (known, elsewhere) (later unwanted)
        ]

    -- The rest of a round in which some member wants the topic.
    first_round :
        (fuel : ℕ) (topic : Text) (rest : List Text)
        → All IsMember rest
        → length rest ≤ length ids
        → length rest ≤ fuel
        → some_of (wanted_by topic) rest ≡ true
        → Finds topic (next_member members ids fuel topic rest)
    first_round fuel topic [] known room enough h = cc
    first_round zero topic (m ∷ rest) known room enough h = absurd (omega arith)
    first_round (suc fuel) topic (m ∷ rest) known room enough h =
        at_member fuel topic m rest known.0 known.1 (omega arith) (λ unwanted.
          first_round fuel topic rest known.1 (omega arith) (omega arith) (rw unwanted at h))

    advance_restarts : (all : List Text) → advance all [] ≡ advance all all
    advance_restarts [] = refl
    advance_restarts (m ∷ all) = refl

    restarts :
        (fuel : ℕ) (topic : Text)
        → next_member members ids (suc fuel) topic [] ≡ next_member members ids (suc fuel) topic ids
    unfolding next_member
    restarts fuel topic = rw (advance_restarts ids)

    -- With what is left of a round and one round more, the search ends.
    pub next_member-Finds :
        (fuel : ℕ) (topic : Text) (rest : List Text)
        → All IsMember ids
        → some_of (wanted_by topic) ids ≡ true
        → All IsMember rest
        → length rest ≤ length ids
        → length rest + length ids < fuel
        → Finds topic (next_member members ids fuel topic rest)
    next_member-Finds zero topic rest all h known room enough = absurd (omega arith)
    next_member-Finds (suc fuel) topic [] all h known room enough =
        rw (restarts fuel topic)
          (first_round (suc fuel) topic ids all (omega arith) (omega arith) h)
    next_member-Finds (suc fuel) topic (m ∷ rest) all h known room enough =
        at_member fuel topic m rest known.0 known.1 (omega arith)
          (λ unwanted. next_member-Finds fuel topic rest all h known.1 (omega arith) (omega arith))

  pub keys-IsMember :
      (l : Members)
      → All (λ (p : Text × JoinGroupProtocolMetadata). lookup p.0 members ≡ some p.1) l
      → All IsMember (keys l)
  keys-IsMember [] h = tt
  keys-IsMember ((m, metadata) ∷ l) h = ((metadata, h.0), keys-IsMember l h.1)

-- What a dictionary says of its own entries.
pub lookup-entries {ℓ} :
    {W : Type ℓ} (d : Dict Text W) → IsDict d → All (λ (p : Text × W). lookup p.0 d ≡ some p.1) d
unfolding lookup
lookup-entries [] h = tt
lookup-entries {W = W} ((k, v) ∷ d) h =
    (rw ((text_beq_iff k k).1 refl), later d h.0 (lookup-entries d h.1))
  where
    later :
        (l : Dict Text W)
        → All (λ (p : Text × W). text_beq k p.0 ≡ false) l
        → All (λ (p : Text × W). lookup p.0 d ≡ some p.1) l
        → All (λ (p : Text × W). lookup p.0 ((k, v) ∷ d) ≡ some p.1) l
    later [] other found = tt
    later (p ∷ l) other found = (rw other.0 found.0, later l other.1 found.1)

abbrev asked_for : Text → Members → Bool
asked_for topic [] = false
asked_for topic ((m, metadata) ∷ l) = contains topic metadata.subscriptions || asked_for topic l

contains-subscribed :
    (topic : Text) (set : List Text) (l : Members)
    → contains topic (subscribed set l) ≡ (contains topic set || asked_for topic l)
contains-subscribed topic set [] = ground arith
contains-subscribed topic set ((m, metadata) ∷ l) =
    contains-subscribed topic (update set metadata.subscriptions) l
    ∙ ground (arith, contains-update topic set metadata.subscriptions)

asked_for-keys :
    (topic : Text) (members l : Members)
    → All (λ (p : Text × JoinGroupProtocolMetadata). lookup p.0 members ≡ some p.1) l
    → some_of (wanted_by members topic) (keys l) ≡ asked_for topic l
asked_for-keys topic members [] h = refl
asked_for-keys topic members ((m, metadata) ∷ l) h =
    rw h.0
      (ap (λ b. contains topic metadata.subscriptions || b) (asked_for-keys topic members l h.1))

-- A topic of the set is wanted by some member.
pub subscribed-wanted :
    (topic : Text) (members : Members)
    → IsDict members
    → contains topic (subscribed [] members) ≡ true
    → some_of (wanted_by members topic) (keys members) ≡ true
subscribed-wanted topic members distinct h =
    asked_for-keys topic members members (lookup-entries members distinct)
    ∙ sym (contains-subscribed topic [] members)
    ∙ h
