-- ===== src/Protocol/Grouping.antt =====
-- Python's insertion-ordered dictionaries, and `group_by_topic_and_partition` of afkak/_util.py.
pub mod Distinct
use afkak.Prelude.{
  ◌≡◌, refl, ap, ◌∙◌, ◌↔◌, inl, inr, Bool, true, false, ◌&&◌, Option, none, some, List, [], ◌∷◌,
  arith, ◌==◌, if◌then◌else◌, Bool-cases,
}
use afkak.Prelude.Int.{ℤ, eqb_ℤ, eqb_ℤ→eq, eqb_ℤ_refl}
use afkak.Wire.Text.{Text}

-- A test for equality, as `dict` uses one for its keys.
pub record Eq {ℓ} (K : Type ℓ) : Type ℓ where
  pub beq : K → K → Bool
  pub beq_iff : (a b : K) → (beq a b ≡ true) ↔ (a ≡ b)

abbrev pub text_beq : Text → Text → Bool
text_beq [] [] = true
text_beq (c ∷ cs) (d ∷ ds) = c == d && text_beq cs ds
text_beq _ _ = false

text_beq→eq : (s t : Text) → text_beq s t ≡ true → s ≡ t
text_beq→eq [] [] h = refl
text_beq→eq [] (d ∷ ds) h = cc
text_beq→eq (c ∷ cs) [] h = cc
text_beq→eq (c ∷ cs) (d ∷ ds) h = ground (arith, text_beq→eq cs ds)

text_beq_refl : (s : Text) → text_beq s s ≡ true
text_beq_refl [] = refl
text_beq_refl (c ∷ cs) = ground (arith, text_beq_refl cs)

pub text_beq_iff : (s t : Text) → (text_beq s t ≡ true) ↔ (s ≡ t)
text_beq_iff s t = (text_beq→eq s t, λ e. rw e (text_beq_refl t))

pub ℤ_beq_iff : (a b : ℤ) → (eqb_ℤ a b ≡ true) ↔ (a ≡ b)
ℤ_beq_iff a b = (eqb_ℤ→eq a b, λ e. rw e (eqb_ℤ_refl b))

instance abbrev pub text_eq : Eq Text
text_eq = record { beq = text_beq; beq_iff = text_beq_iff }

instance abbrev pub ℤ_eq : Eq ℤ
ℤ_eq = record { beq = eqb_ℤ; beq_iff = ℤ_beq_iff }

abbrev pub Dict {ℓ κ} : Type ℓ → Type κ → Type (ℓ ⊔ κ)
Dict K V = List (K × V)

module _ {ℓ κ} {K : Type ℓ} {V : Type κ} ⦃e : Eq K⦄ where
  -- d.get(k)
  unfoldable pub lookup : K → Dict K V → Option V
  lookup k [] = none
  lookup k ((j, v) ∷ d) = if e.beq j k then some v else lookup k d

  -- d[k] = v: a key that is there keeps its place.
  unfoldable pub insert : K → V → Dict K V → Dict K V
  insert k v [] = (k, v) ∷ []
  insert k v ((j, w) ∷ d) = if e.beq j k then (j, v) ∷ d else (j, w) ∷ insert k v d

  pub lookup-insert :
      (k j : K) (v : V) (d : Dict K V)
      → lookup j (insert k v d) ≡ (if e.beq k j then some v else lookup j d)
  unfolding lookup insert
  lookup-insert k j v [] = refl
  lookup-insert k j v ((i, w) ∷ d) =
      ground (arith, e.beq_iff i k, e.beq_iff i j, e.beq_iff k j, lookup-insert k j v d)

abbrev pub Grouped {ℓ} : Type ℓ → Type ℓ
Grouped P = Dict Text (Dict ℤ P)

module _ {ℓ} {P : Type ℓ} (topic : P → Text) (partition : P → ℤ) where
  -- `out[t]`, which a defaultdict makes where it is missing.
  abbrev or_empty : Option (Dict ℤ P) → Dict ℤ P
  or_empty none = []
  or_empty (some d) = d

  -- out[t.topic][t.partition] = t
  abbrev group_one : P → Grouped P → Grouped P
  group_one t out = insert (topic t) (insert (partition t) t (or_empty (lookup (topic t) out))) out

  abbrev group_from : Grouped P → List P → Grouped P
  group_from out [] = out
  group_from out (t ∷ ts) = group_from (group_one t out) ts

  unfoldable pub group_by_topic_and_partition : List P → Grouped P
  group_by_topic_and_partition ts = group_from [] ts

  -- What a grouping holds for one topic and partition.
  abbrev pub at_partition : Text → ℤ → Grouped P → Option P
  at_partition s p out = lookup p (or_empty (lookup s out))

  -- The last payload of a list for that topic and partition, or else `found`.
  abbrev pub last_for : Text → ℤ → Option P → List P → Option P
  last_for s p found [] = found
  last_for s p found (t ∷ ts) =
      last_for s p (if text_beq (topic t) s && eqb_ℤ (partition t) p then some t else found) ts

  group_one_lem :
      (t : P) (out : Grouped P) (s : Text) (p : ℤ)
      → at_partition s p (group_one t out)
        ≡ (if text_beq (topic t) s && eqb_ℤ (partition t) p then some t else at_partition s p out)
  group_one_lem t out s p = elim (Bool-cases (text_beq (topic t) s)) [
    | inl same ↦
        let here : topic t ≡ s = (text_beq_iff (topic t) s).0 same in
        rw (
          lookup-insert (topic t) s (insert (partition t) t (or_empty (lookup (topic t) out))) out,
          same,
          lookup-insert (partition t) p t (or_empty (lookup (topic t) out)),
          here,
        )
    | inr other ↦ rw (
      lookup-insert (topic t) s (insert (partition t) t (or_empty (lookup (topic t) out))) out,
      other,
    )
  ]

  group_from_lem :
      (ts : List P) (out : Grouped P) (s : Text) (p : ℤ)
      → at_partition s p (group_from out ts) ≡ last_for s p (at_partition s p out) ts
  group_from_lem [] out s p = refl
  group_from_lem (t ∷ ts) out s p =
      group_from_lem ts (group_one t out) s p
      ∙ ap (λ o. last_for s p o ts) (group_one_lem t out s p)

  -- For each topic and partition the grouping holds the last payload of the list with that topic and
  -- that partition, and none where the list has none.
  pub group_by_topic_and_partition_lem :
      (ts : List P) (s : Text) (p : ℤ)
      → at_partition s p (group_by_topic_and_partition ts) ≡ last_for s p none ts
  unfolding group_by_topic_and_partition lookup
  group_by_topic_and_partition_lem ts s p = group_from_lem ts [] s p
