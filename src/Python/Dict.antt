-- ===== src/Python/Dict.antt =====
-- Python's `dict`, in insertion order.
use sovrin.Prelude.{
  ◌≡◌, refl, Bool, true, false, Option, none, some, List, [], ◌∷◌, arith, Eq, map, if◌then◌else◌,
  beq_refl,
}

abbrev pub Dict {ℓ κ} : Type ℓ → Type κ → Type (ℓ ⊔ κ)
Dict K V = List (K × V)

module _ {ℓ κ} {K : Type ℓ} {V : Type κ} ⦃e : Eq K⦄ where
  -- `d.get(k)`
  unfoldable pub lookup : K → Dict K V → Option V
  lookup k [] = none
  lookup k ((j, v) ∷ d) = if e.beq j k then some v else lookup k d

  -- `k in d`
  unfoldable pub contains : K → Dict K V → Bool
  contains k [] = false
  contains k ((j, v) ∷ d) = if e.beq j k then true else contains k d

  -- `d[k] = v`
  unfoldable pub insert : K → V → Dict K V → Dict K V
  insert k v [] = (k, v) ∷ []
  insert k v ((j, w) ∷ d) = if e.beq j k then (k, v) ∷ d else (j, w) ∷ insert k v d

  -- `d.pop(k, None)`, the value dropped
  unfoldable pub erase : K → Dict K V → Dict K V
  erase k [] = []
  erase k ((j, w) ∷ d) = let rest = erase k d in if e.beq j k then rest else (j, w) ∷ rest

  -- `d.update(e)`
  unfoldable pub update : Dict K V → Dict K V → Dict K V
  unfolding insert
  update d [] = d
  update d ((k, v) ∷ es) = update (insert k v d) es

module _ {ℓ κ} {K : Type ℓ} {V : Type κ} where
  abbrev pub keys : Dict K V → List K
  keys = map (λ (p : K × V). p.0)

  abbrev pub values : Dict K V → List V
  values = map (λ (p : K × V). p.1)

module _ {ℓ κ} {K : Type ℓ} {V : Type κ} ⦃e : Eq K⦄ where
  pub lookup-insert :
      (k j : K) (v : V) (d : Dict K V)
      → lookup j (insert k v d) ≡ (if e.beq k j then some v else lookup j d)
  unfolding lookup insert
  lookup-insert k j v [] = refl
  lookup-insert k j v ((i, w) ∷ d) =
      ground (arith, e.beq_iff k j, e.beq_iff i k, e.beq_iff i j, lookup-insert k j v d)

  pub lookup-insert_self : (k : K) (v : V) (d : Dict K V) → lookup k (insert k v d) ≡ some v
  lookup-insert_self k v d = ground (arith, lookup-insert k k v d, beq_refl k)

  pub contains-insert :
      (k j : K) (v : V) (d : Dict K V)
      → contains j (insert k v d) ≡ (if e.beq k j then true else contains j d)
  unfolding contains insert
  contains-insert k j v [] = refl
  contains-insert k j v ((i, w) ∷ d) =
      ground (arith, e.beq_iff k j, e.beq_iff i k, e.beq_iff i j, contains-insert k j v d)

  pub lookup-erase :
      (k j : K) (d : Dict K V) → lookup j (erase k d) ≡ (if e.beq k j then none else lookup j d)
  unfolding lookup erase
  lookup-erase k j [] = ground arith
  lookup-erase k j ((i, w) ∷ d) =
      ground (arith, e.beq_iff k j, e.beq_iff i k, e.beq_iff i j, lookup-erase k j d)

  pub contains-lookup-none : (k : K) (d : Dict K V) → contains k d ≡ false → lookup k d ≡ none
  unfolding contains lookup
  contains-lookup-none k [] h = refl
  contains-lookup-none k ((j, v) ∷ d) h = ground (arith, contains-lookup-none k d)

  pub contains_of_lookup :
      (k : K) (v : V) (d : Dict K V) → lookup k d ≡ some v → contains k d ≡ true
  unfolding contains lookup
  contains_of_lookup k v [] h = ground arith
  contains_of_lookup k v ((j, w) ∷ d) h = ground (arith, contains_of_lookup k v d)

pub ruleset dict_laws = (lookup-insert, lookup-erase, contains-insert)
