-- ===== src/Protocol/Grouping/Distinct.antt =====
-- A list of pairs with distinct keys is the dictionary that its pairs make, one after the other.
use afkak.Prelude.{
  ◌≡◌, refl, sym, ap, ◌∙◌, inl, inr, false, none, [], ◌∷◌, ◌++◌, append-nil, append_assoc,
  Bool-cases, All,
}
use afkak.Protocol.Grouping.{Eq, Dict, lookup, insert, lookup-insert}
use afkak.Protocol.Responses.{dict_of}

module _ {ℓ κ} {K : Type ℓ} {V : Type κ} ⦃e : Eq K⦄ where
  -- No key stands twice.
  abbrev pub IsDict : Dict K V → Type 0
  IsDict [] = Unit {0}
  IsDict ((k, v) ∷ d) = All (λ (p : K × V). e.beq k p.0 ≡ false) d × IsDict d

  -- None of the keys of `l` is one of `found`.
  abbrev AreNew : Dict K V → Dict K V → Type κ
  AreNew found l = All (λ (p : K × V). lookup p.0 found ≡ none) l

  insert_new :
      (k : K) (v : V) (found : Dict K V)
      → lookup k found ≡ none
      → insert k v found ≡ found ++ (k, v) ∷ []
  unfolding lookup insert
  insert_new k v [] h = refl
  insert_new k v ((j, w) ∷ found) h = elim (Bool-cases (e.beq j k)) [
    | inl same ↦ cc (rw same at h)
    | inr other ↦ rw other (ap (λ l. (j, w) ∷ l) (insert_new k v found (rw other at h)))
  ]

  AreNew-insert :
      (k : K) (v : V) (found l : Dict K V)
      → All (λ (p : K × V). e.beq k p.0 ≡ false) l
      → AreNew found l
      → AreNew (insert k v found) l
  AreNew-insert k v found [] apart new = tt
  AreNew-insert k v found ((j, w) ∷ l) apart new =
      (rw (lookup-insert k j v found, apart.0) new.0, AreNew-insert k v found l apart.1 new.1)

  dict_of-append : (found l : Dict K V) → AreNew found l → IsDict l → dict_of found l ≡ found ++ l
  dict_of-append found [] new distinct = sym (append-nil found)
  dict_of-append found ((k, v) ∷ l) new distinct =
      dict_of-append (insert k v found) l (AreNew-insert k v found l distinct.0 new.1) distinct.1
      ∙ rw (insert_new k v found new.0) (append_assoc found ((k, v) ∷ []) l)

  all_new : (l : Dict K V) → AreNew [] l
  unfolding lookup
  all_new [] = tt
  all_new (p ∷ l) = (refl, all_new l)

  pub dict_of_distinct : (l : Dict K V) → IsDict l → dict_of [] l ≡ l
  dict_of_distinct l distinct = dict_of-append [] l (all_new l) distinct
