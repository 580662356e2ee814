-- ===== src/Base/Map/Laws.antt =====
-- The laws of maps.
use snake_multiplayer.Base.{
  ◌≡◌, ◌≢◌, refl, sym, ◌∙◌, subst, inl, inr, false, List, [], ◌∷◌, none, some, arith, All,
  Bool-cases,
}
use snake_multiplayer.Base.Map.{Key, lookup, erase, modify, keys, Values}

-- No key twice.
abbrev pub Distinct : {K : Type 0} → List K → Type 0
Distinct [] = Unit {0}
Distinct (k ∷ ks) = All (λ j. j ≢ k) ks × Distinct ks

pub All-mono :
    {A : Type 0} (P Q : A → Type 0) → ((a : A) → P a → Q a) → (xs : List A) → All P xs → All Q xs
All-mono P Q f [] h = tt
All-mono P Q f (x ∷ xs) h = (f x h.0, All-mono P Q f xs h.1)

pub All-and :
    {A : Type 0} (P Q : A → Type 0) (xs : List A) → All P xs → All Q xs → All (λ x. P x × Q x) xs
All-and P Q [] h k = tt
All-and P Q (x ∷ xs) h k = ((h.0, k.0), All-and P Q xs h.1 k.1)

pub Values-mono :
    {K V : Type 0} (P Q : V → Type 0)
    → ((v : V) → P v → Q v)
    → (m : List (K × V)) → Values P m
    → Values Q m
Values-mono P Q f [] h = tt
Values-mono P Q f ((k, v) ∷ m) h = (f v h.0, Values-mono P Q f m h.1)

module _ {K : Type 0} ⦃e : Key K⦄ where
  pub ne→beq : (a b : K) → a ≢ b → e.beq a b ≡ false
  ne→beq a b h = elim (Bool-cases (e.beq a b)) [ inl t ↦ absurd (h (e.beq→eq a b t)) | inr f ↦ f ]

module _ {K V : Type 0} ⦃e : Key K⦄ where
  pub lookup-modify_ne :
      (j k : K) (f : V → V) (m : List (K × V)) → j ≢ k → lookup j (modify k f m) ≡ lookup j m
  unfolding lookup modify
  lookup-modify_ne j k f [] h = refl
  lookup-modify_ne j k f ((i, v) ∷ m) h = elim (Bool-cases (e.beq i k)) [
    | inl hit ↦
        rw hit (rw (ne→beq i j (λ x. h (sym x ∙ e.beq→eq i k hit))) (lookup-modify_ne j k f m h))
    | inr miss ↦ rw miss (rw (lookup-modify_ne j k f m h))
  ]

  pub lookup-modify_self :
      (k : K) (f : V → V) (m : List (K × V)) {v : V}
      → lookup k m ≡ some v
      → lookup k (modify k f m) ≡ some (f v)
  unfolding lookup modify
  lookup-modify_self k f [] h = cc
  lookup-modify_self k f ((i, v) ∷ m) h = elim (Bool-cases (e.beq i k)) [
    | inl hit ↦ rw hit (rw hit (cc (rw hit at h)))
    | inr miss ↦ rw miss (rw miss (lookup-modify_self k f m (rw miss at h)))
  ]

  pub keys-modify : (k : K) (f : V → V) (m : List (K × V)) → keys (modify k f m) ≡ keys m
  unfolding modify
  keys-modify k f [] = refl
  keys-modify k f ((i, v) ∷ m) = ground (arith, keys-modify k f m)

  pub Values-lookup :
      (P : V → Type 0) (k : K) (m : List (K × V)) (v : V) → Values P m → lookup k m ≡ some v → P v
  unfolding lookup
  Values-lookup P k [] v h l = cc
  Values-lookup P k ((i, w) ∷ m) v h l = elim (Bool-cases (e.beq i k)) [
    | inl hit ↦ subst P (cc (rw hit at l)) h.0
    | inr miss ↦ Values-lookup P k m v h.1 (rw miss at l)
  ]

  pub Values-modify :
      (P : V → Type 0) (k : K) (f : V → V) (m : List (K × V))
      → Values P m
      → ((v : V) → P v → P (f v))
      → Values P (modify k f m)
  unfolding modify
  Values-modify P k f [] h g = tt
  Values-modify P k f ((i, v) ∷ m) h g = elim (Bool-cases (e.beq i k)) [
    | inl hit ↦ rw hit (g v h.0, Values-modify P k f m h.1 g)
    | inr miss ↦ rw miss (h.0, Values-modify P k f m h.1 g)
  ]

  pub Values-erase : (P : V → Type 0) (k : K) (m : List (K × V)) → Values P m → Values P (erase k m)
  unfolding erase
  Values-erase P k [] h = tt
  Values-erase P k ((i, v) ∷ m) h = elim (Bool-cases (e.beq i k)) [
    | inl hit ↦ rw hit (Values-erase P k m h.1)
    | inr miss ↦ rw miss (h.0, Values-erase P k m h.1)
  ]

  -- The entry of a key that is in the map.
  abbrev pub Entry : (V → Type 0) → List (K × V) → K → Type 0
  Entry P m k = (v : V) × (lookup k m ≡ some v) × P v

  Entry-cons :
      (P : V → Type 0) (i : K) (w : V) (m : List (K × V)) (k : K)
      → Entry P m k × (k ≢ i)
      → Entry P ((i, w) ∷ m) k
  unfolding lookup
  Entry-cons P i w m k ((v, l, p), ne) = (v, rw (ne→beq i k (λ x. ne (sym x))) l, p)

  -- Every key of the map has its entry.
  pub keys-Entry :
      (P : V → Type 0) (m : List (K × V))
      → Distinct (keys m)
      → Values P m
      → All (Entry P m) (keys m)
  unfolding lookup
  keys-Entry P [] d h = tt
  keys-Entry P ((i, w) ∷ m) (away, d) h = (
    (w, rw (e.beq_refl i), h.0),
    All-mono _ _ (Entry-cons P i w m) (keys m) (All-and _ _ (keys m) (keys-Entry P m d h.1) away),
  )

  pub Entry-modify_ne :
      (P : V → Type 0) (k : K) (f : V → V) (m : List (K × V)) (j : K)
      → Entry P m j × (j ≢ k)
      → Entry P (modify k f m) j
  Entry-modify_ne P k f m j ((v, l, p), ne) = (v, lookup-modify_ne j k f m ne ∙ l, p)

  Entry-tail :
      (P : V → Type 0) (i : K) (w : V) (m : List (K × V)) (k : K)
      → Entry P ((i, w) ∷ m) k × (k ≢ i)
      → Entry P m k
  unfolding lookup
  Entry-tail P i w m k ((v, l, p), ne) = (v, rw (ne→beq i k (λ x. ne (sym x))) at l, p)

  Entry-head : (P : V → Type 0) (i : K) (w : V) (m : List (K × V)) → Entry P ((i, w) ∷ m) i → P w
  unfolding lookup
  Entry-head P i w m (v, l, p) = subst P (cc (rw (e.beq_refl i) at l)) p

  -- The other way round.
  pub Entry→Values :
      (P : V → Type 0) (m : List (K × V))
      → Distinct (keys m)
      → All (Entry P m) (keys m)
      → Values P m
  Entry→Values P [] d h = tt
  Entry→Values P ((i, w) ∷ m) (away, d) (h, hs) = (
    Entry-head P i w m h,
    Entry→Values P m d (All-mono _ _ (Entry-tail P i w m) (keys m) (All-and _ _ (keys m) hs away)),
  )

  -- A key that is not in the map.
  pub lookup_away : (k : K) (m : List (K × V)) → All (λ j. j ≢ k) (keys m) → lookup k m ≡ none
  unfolding lookup
  lookup_away k [] h = refl
  lookup_away k ((i, v) ∷ m) (ne, h) = rw (ne→beq i k ne) (lookup_away k m h)

  pub modify_away :
      (k : K) (f : V → V) (m : List (K × V)) → All (λ j. j ≢ k) (keys m) → modify k f m ≡ m
  unfolding modify
  modify_away k f [] h = refl
  modify_away k f ((i, v) ∷ m) (ne, h) = rw (ne→beq i k ne) (rw (modify_away k f m h))

  pub lookup-erase_self : (k : K) (m : List (K × V)) → lookup k (erase k m) ≡ none
  unfolding lookup erase
  lookup-erase_self k [] = refl
  lookup-erase_self k ((i, v) ∷ m) = elim (Bool-cases (e.beq i k)) [
    | inl hit ↦ rw hit (lookup-erase_self k m)
    | inr miss ↦ rw miss (rw miss (lookup-erase_self k m))
  ]

  pub lookup-erase_ne : (j k : K) (m : List (K × V)) → j ≢ k → lookup j (erase k m) ≡ lookup j m
  unfolding lookup erase
  lookup-erase_ne j k [] h = refl
  lookup-erase_ne j k ((i, v) ∷ m) h = elim (Bool-cases (e.beq i k)) [
    | inl hit ↦
        rw hit (rw (ne→beq i j (λ x. h (sym x ∙ e.beq→eq i k hit))) (lookup-erase_ne j k m h))
    | inr miss ↦ rw miss (rw (lookup-erase_ne j k m h))
  ]

  keys-erase_away :
      (P : K → Type 0) (k : K) (m : List (K × V)) → All P (keys m) → All P (keys (erase k m))
  unfolding erase
  keys-erase_away P k [] h = tt
  keys-erase_away P k ((i, v) ∷ m) h = elim (Bool-cases (e.beq i k)) [
    | inl hit ↦ rw hit (keys-erase_away P k m h.1)
    | inr miss ↦ rw miss (h.0, keys-erase_away P k m h.1)
  ]

  pub Distinct-erase : (k : K) (m : List (K × V)) → Distinct (keys m) → Distinct (keys (erase k m))
  unfolding erase
  Distinct-erase k [] h = tt
  Distinct-erase k ((i, v) ∷ m) h = elim (Bool-cases (e.beq i k)) [
    | inl hit ↦ rw hit (Distinct-erase k m h.1)
    | inr miss ↦ rw miss (keys-erase_away (λ j. j ≢ i) k m h.0, Distinct-erase k m h.1)
  ]

  -- What holds of every entry that a lookup finds holds of all entries.
  pub All-lookup :
      (P : K × V → Type 0) (m : List (K × V))
      → Distinct (keys m)
      → ((k : K) (v : V) → lookup k m ≡ some v → P (k, v))
      → All P m
  unfolding lookup
  All-lookup P [] d f = tt
  All-lookup P ((k, v) ∷ m) (away, d) f =
      (f k v (rw (e.beq_refl k)), All-lookup P m d (λ j u l. f j u (step j u l)))
    where
      step : (j : K) (u : V) → lookup j m ≡ some u → lookup j ((k, v) ∷ m) ≡ some u
      step j u l = elim (Bool-cases (e.beq k j)) [
        | inl hit ↦ cc (l, e.beq→eq k j hit, lookup_away k m away)
        | inr miss ↦ rw miss l
      ]
