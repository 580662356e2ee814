-- ===== src/Engine/Order.antt =====
-- Who was in a cell first: the comparison that `checkCollisions` gives to `std::min_element`.
use snake_multiplayer.Base.{◌+◌, ◌≡◌, ◌≢◌, sym, ◌∙◌, ◌⊎◌, inl, inr, true, false, arith, Bool-cases}
use snake_multiplayer.Base.Int.{
  ℤ, pos_part, neg_part, ltb_ℤ, ◌==ℤ◌, ◌<ℤ◌, ◌≤ℤ◌, ==ℤ→eq, ==ℤ→ne, eq_of_parts,
}
use snake_multiplayer.Engine.Collide.{goes_first}

-- An earlier time, or the same and a lower id.
abbrev pub Before : ℤ → ℤ → ℤ → ℤ → Type 0
Before time_a a time_b b = (time_a <ℤ time_b) ⊎ (time_a ≡ time_b) × (a <ℤ b)

lt_of_ltb : (a b : ℤ) → ltb_ℤ a b ≡ true → a <ℤ b
lt_of_ltb a b h = ground arith

le_of_ltb : (a b : ℤ) → ltb_ℤ a b ≡ false → b ≤ℤ a
le_of_ltb a b h = ground arith

pub goes_first→Before : (s a t b : ℤ) → goes_first s a t b ≡ true → Before s a t b
unfolding goes_first
goes_first→Before s a t b h = elim (Bool-cases (s ==ℤ t)) [
  | inl same ↦ inr (==ℤ→eq s t same, lt_of_ltb a b (rw same at h))
  | inr other ↦ inl (lt_of_ltb s t (rw other at h))
]

eq_parts : {s t : ℤ} → s ≡ t → (s ≤ℤ t) × (t ≤ℤ s)
eq_parts {s} {t} e = rw e (omega arith, omega arith)

pub not-goes_first : (s a t b : ℤ) → goes_first s a t b ≡ false → Before s a t b → ⊥
unfolding goes_first
not-goes_first s a t b h x = elim (Bool-cases (s ==ℤ t)) [
  | inl same ↦ elim x [
    | inl lt ↦ omega (arith, eq_parts (==ℤ→eq s t same))
    | inr (e, lt) ↦ omega (arith, le_of_ltb a b (rw same at h))
  ]
  | inr other ↦ elim x [
    | inl lt ↦ omega (arith, le_of_ltb s t (rw other at h))
    | inr (e, lt) ↦ absurd (==ℤ→ne s t other e)
  ]
]

-- Of two players one goes first, if they are not the same.
pub Before-total : (s a t b : ℤ) → a ≢ b → goes_first s a t b ≡ false → Before t b s a
unfolding goes_first
Before-total s a t b ne h = elim (Bool-cases (s ==ℤ t)) [
  | inl same ↦
      inr (sym (==ℤ→eq s t same), strict b a (λ e. ne (sym e)) (le_of_ltb a b (rw same at h)))
  | inr other ↦ inl (strict t s (λ e. ==ℤ→ne s t other (sym e)) (le_of_ltb s t (rw other at h)))
]
  where
    strict : (x y : ℤ) → x ≢ y → x ≤ℤ y → x <ℤ y
    strict x y d le =
        omega
          (arith, λ (p : pos_part x + neg_part y ≡ pos_part y + neg_part x). d (eq_of_parts x y p))

pub Before-trans : (s a t b u c : ℤ) → Before s a t b → Before t b u c → Before s a u c
Before-trans s a t b u c (inl p) (inl q) = inl (omega arith)
Before-trans s a t b u c (inl p) (inr (e, q)) = inl (omega (arith, eq_parts e))
Before-trans s a t b u c (inr (e, p)) (inl q) = inl (omega (arith, eq_parts e))
Before-trans s a t b u c (inr (e, p)) (inr (f, q)) = inr (e ∙ f, omega arith)

pub Before-irrefl : (t a : ℤ) → Before t a t a → ⊥
Before-irrefl t a (inl p) = omega arith
Before-irrefl t a (inr (e, p)) = omega arith
