-- ===== src/Base/Map/Assign.antt =====
-- What a map holds after `m[k] = v` or `erase(k)`.
use snake_multiplayer.Base.{
  ◌≡◌, ◌≢◌, refl, sym, inl, inr, true, false, List, [], ◌∷◌, some, none, Bool-cases, Option-cases,
  ◌∈◌, ◌⊎◌, ap, ◌∙◌,
}
use snake_multiplayer.Base.Map.{Key, lookup, contains, erase, assign, keys, Values}
use snake_multiplayer.Base.Map.Laws.{
  ne→beq, lookup-erase_self, lookup-erase_ne, lookup-modify_self, lookup-modify_ne, Values-modify,
}

module _ {K V : Type 0} ⦃e : Key K⦄ where
  pub contains-lookup :
      (k : K) (m : List (K × V)) → contains k m ≡ true → (v : V) × (lookup k m ≡ some v)
  unfolding contains lookup
  contains-lookup k [] x = cc x
  contains-lookup k ((j, v) ∷ m) x = elim (Bool-cases (e.beq j k)) [
    | inl hit ↦ (v, rw hit refl)
    | inr miss ↦ rw miss (contains-lookup k m (rw miss at x))
  ]

  pub lookup-assign_self : (k : K) (v : V) (m : List (K × V)) → lookup k (assign k v m) ≡ some v
  unfolding assign lookup
  lookup-assign_self k v m = elim (Bool-cases (contains k m)) [
    | inl known ↦ rw known (lookup-modify_self k (λ _. v) m (contains-lookup k m known).1)
    | inr new ↦ rw new (rw (e.beq_refl k) refl)
  ]

  pub lookup-assign_ne :
      (j k : K) (v : V) (m : List (K × V)) → j ≢ k → lookup j (assign k v m) ≡ lookup j m
  unfolding assign lookup
  lookup-assign_ne j k v m ne = elim (Bool-cases (contains k m)) [
    | inl known ↦ rw known (lookup-modify_ne j k (λ _. v) m ne)
    | inr new ↦ rw new (rw (ne→beq k j (λ x. ne (sym x))) refl)
  ]

  pub Values-assign :
      (P : V → Type 0) (k : K) (v : V) (m : List (K × V))
      → Values P m
      → P v
      → Values P (assign k v m)
  unfolding assign
  Values-assign P k v m h p = elim (Bool-cases (contains k m)) [
    | inl known ↦ rw known (Values-modify P k (λ _. v) m h (λ _ _. p))
    | inr new ↦ rw new (p, h)
  ]

  pub lookup-contains :
      (k : K) (m : List (K × V)) (v : V) → lookup k m ≡ some v → contains k m ≡ true
  unfolding contains lookup
  lookup-contains k [] v x = cc x
  lookup-contains k ((j, u) ∷ m) v x = elim (Bool-cases (e.beq j k)) [
    | inl hit ↦ rw hit refl
    | inr miss ↦ rw miss (lookup-contains k m v (rw miss at x))
  ]

  pub contains-none : (k : K) (m : List (K × V)) → lookup k m ≡ none → contains k m ≡ false
  contains-none k m x = elim (Bool-cases (contains k m)) [
    | inl known ↦ cc (x, (contains-lookup k m known).1)
    | inr new ↦ new
  ]

  pub lookup-keys : (k : K) (m : List (K × V)) (v : V) → lookup k m ≡ some v → k ∈ keys m
  unfolding lookup
  lookup-keys k [] v x = cc x
  lookup-keys k ((j, u) ∷ m) v x = elim (Bool-cases (e.beq j k)) [
    | inl hit ↦ inl (sym (e.beq→eq j k hit))
    | inr miss ↦ inr (lookup-keys k m v (rw miss at x))
  ]

  pub keys-lookup : (k : K) (m : List (K × V)) → k ∈ keys m → (v : V) × (lookup k m ≡ some v)
  unfolding lookup
  keys-lookup k [] x = absurd x
  keys-lookup k ((j, u) ∷ m) x = elim (Bool-cases (e.beq j k)) [
    | inl hit ↦ (u, rw hit refl)
    | inr miss ↦ elim x [
      | inl same ↦ cc (miss, e.beq_refl j, same)
      | inr later ↦ rw miss (keys-lookup k m later)
    ]
  ]

  pub keys-away : (k : K) (m : List (K × V)) → (k ∈ keys m → ⊥) → lookup k m ≡ none
  keys-away k m away = elim (Option-cases (lookup k m)) [
    | inl missing ↦ missing
    | inr (v, there) ↦ absurd (away (lookup-keys k m v there))
  ]

  -- A new key goes to the front.
  pub assign-new :
      (k : K) (v : V) (m : List (K × V)) → lookup k m ≡ none → assign k v m ≡ (k, v) ∷ m
  unfolding assign
  assign-new k v m x = rw (contains-none k m x) refl

  -- What an entry after an assignment was before.
  pub lookup-assign_cases :
      (j k : K) (u v : V) (m : List (K × V))
      → lookup j (assign k v m) ≡ some u
      → ((j ≡ k) × (u ≡ v)) ⊎ ((j ≢ k) × (lookup j m ≡ some u))
  lookup-assign_cases j k u v m x = elim (Bool-cases (e.beq j k)) [
    | inl hit ↦
        let same = e.beq→eq j k hit in
        inl (same, cc (x, ap (λ y. lookup y (assign k v m)) same, lookup-assign_self k v m))
    | inr miss ↦
        let ne : j ≢ k = λ y. cc (miss, e.beq_refl k, y) in
        inr (ne, sym (lookup-assign_ne j k v m ne) ∙ x)
  ]

  pub lookup-erase_cases :
      (j k : K) (u : V) (m : List (K × V))
      → lookup j (erase k m) ≡ some u
      → (j ≢ k) × (lookup j m ≡ some u)
  lookup-erase_cases j k u m x = elim (Bool-cases (e.beq j k)) [
    | inl hit ↦ cc (x, ap (λ y. lookup y (erase k m)) (e.beq→eq j k hit), lookup-erase_self k m)
    | inr miss ↦
        let ne : j ≢ k = λ y. cc (miss, e.beq_refl k, y) in (ne, sym (lookup-erase_ne j k m ne) ∙ x)
  ]

module _ {K : Type 0} ⦃e : Key K⦄ where
  pub key_cases : (j k : K) → (j ≡ k) ⊎ (j ≢ k)
  key_cases j k = elim (Bool-cases (e.beq j k)) [
    | inl hit ↦ inl (e.beq→eq j k hit)
    | inr miss ↦ inr (λ x. cc (miss, e.beq_refl k, x))
  ]

  pub member : (k : K) (ks : List K) → (k ∈ ks) ⊎ (k ∈ ks → ⊥)
  member k [] = inr (λ x. x)
  member k (j ∷ js) = elim (key_cases k j) [
    | inl same ↦ inl (inl same)
    | inr other ↦ elim (member k js) [
      | inl later ↦ inl (inr later)
      | inr away ↦
          inr
            (λ (x : (k ≡ j) ⊎ (k ∈ js)). elim x [ inl same ↦ other same | inr later ↦ away later ])
    ]
  ]
