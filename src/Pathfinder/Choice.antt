-- ===== src/Pathfinder/Choice.antt =====
-- The running minimum of `calculateNextMove`.
use snake_multiplayer.Base.{
  ℕ, ◌≤◌, ◌<◌, ◌≡◌, refl, ap, sym, ◌∙◌, ◌⊎◌, inl, inr, ok, ok_inj, arith, Bool, true, false,
  Bool-cases, if◌then◌else◌,
}
use snake_multiplayer.Base.Int.{pos_part, ℤ, pos, negsuc, ltb_ℤ, leb_ℤ}
use snake_multiplayer.Base.Map.{int_key}
use snake_multiplayer.Snake.{Cell}
use snake_multiplayer.Pathfinder.{long_max, Grid, cell, consider}

-- The best of the moves that were looked at: '?' if they all lead under snakes.
pub data IsLowest (m : Grid) (seen : ℕ → Cell → Type 0) : ℤ × ℕ → Type 0 where
  nothing :
      ((key : ℕ) (c : Cell) (v : ℕ) → seen key c → cell m c ≡ ok (pos v) → ⊥)
      → IsLowest m seen (pos long_max, b'?')
  lowest :
      (key : ℕ) (c : Cell) (v : ℕ)
      → seen key c
      → cell m c ≡ ok (pos v)
      → ((key' : ℕ) (c' : Cell) (v' : ℕ) → seen key' c' → cell m c' ≡ ok (pos v') → v ≤ v')
      → IsLowest m seen (pos v, key)

abbrev pub Or : (ℕ → Cell → Type 0) → Bool → ℕ → Cell → ℕ → Cell → Type 0
Or seen guard key c key' c' = ((guard ≡ true) × (key' ≡ key) × (c' ≡ c)) ⊎ seen key' c'

counts : (n : ℕ) → leb_ℤ (pos 0) (pos n) ≡ true
counts n = ground arith

below_zero : (n : ℕ) → leb_ℤ (pos 0) (negsuc n) ≡ false
below_zero n = ground arith

module _ (m : Grid) (seen : ℕ → Cell → Type 0) (key : ℕ) (c : Cell) where
  -- A move that is not allowed, or leads to a body.
  skipped :
      (guard : Bool) (low : ℤ × ℕ)
      → IsLowest m seen low
      → ((v : ℕ) → guard ≡ true → cell m c ≡ ok (pos v) → ⊥)
      → IsLowest m (Or seen guard key c) low
  skipped guard _ (nothing f) never = nothing (λ key' c' v x e. elim x [
    | inl (t, ek, ec) ↦ never v t (ap (cell m) (sym ec) ∙ e)
    | inr old ↦ f key' c' v old e
  ])
  skipped guard _ (lowest k b v s e f) never = lowest k b v (inr s) e (λ key' c' v' x e'. elim x [
    | inl (t, ek, ec) ↦ absurd (never v' t (ap (cell m) (sym ec) ∙ e'))
    | inr old ↦ f key' c' v' old e'
  ])

  same_value :
      (c' : Cell) (v n : ℕ) → cell m c ≡ ok (pos n) → c' ≡ c → cell m c' ≡ ok (pos v) → n ≡ v
  same_value c' v n e ec e' =
      ap pos_part (ok_inj (pos n) (pos v) (sym e ∙ ap (cell m) (sym ec) ∙ e'))

  looked :
      (guard : Bool) (n : ℕ) (low : ℤ × ℕ)
      → guard ≡ true
      → cell m c ≡ ok (pos n)
      → n < long_max
      → IsLowest m seen low
      → IsLowest m (Or seen guard key c) (if ltb_ℤ (pos n) low.0 then (pos n, key) else low)
  looked guard n _ t e l (nothing f) = rw (yes n l) (
      lowest key c n (inl (t, refl, refl)) e (λ key' c' v' x e'. elim x [
        | inl (t', ek, ec) ↦ omega (arith, same_value c' v' n e ec e')
        | inr old ↦ absurd (f key' c' v' old e')
      ]))
    where
      yes : (n : ℕ) → n < long_max → ltb_ℤ (pos n) (pos long_max) ≡ true
      yes n l = ground arith
  looked guard n _ t e l (lowest k b v s ev f) = elim (Bool-cases (ltb_ℤ (pos n) (pos v))) [
    | inl less ↦ rw less (
        lowest key c n (inl (t, refl, refl)) e (λ key' c' v' x e'. elim x [
          | inl (t', ek, ec) ↦ omega (arith, same_value c' v' n e ec e')
          | inr old ↦ below n v v' less (f key' c' v' old e')
        ]))
    | inr more ↦ rw more (
        lowest k b v (inr s) ev (λ key' c' v' x e'. elim x [
          | inl (t', ek, ec) ↦ above n v v' more (same_value c' v' n e ec e')
          | inr old ↦ f key' c' v' old e'
        ]))
  ]
    where
      below : (n v v' : ℕ) → ltb_ℤ (pos n) (pos v) ≡ true → v ≤ v' → n ≤ v'
      below n v v' a b = ground arith

      above : (n v v' : ℕ) → ltb_ℤ (pos n) (pos v) ≡ false → n ≡ v' → v ≤ v'
      above n v v' a b = ground arith

  pub consider-IsLowest :
      (guard : Bool) (low : ℤ × ℕ)
      → IsLowest m seen low
      → (guard ≡ true → (v : ℤ) × (cell m c ≡ ok v) × (pos_part v < long_max))
      → (low' : ℤ × ℕ) × (consider m guard c key low ≡ ok low')
        × IsLowest m (Or seen guard key c) low'
  unfolding consider
  consider-IsLowest guard low s there = elim (Bool-cases guard) [
    | inr off ↦ (low, rw off refl, skipped guard low s (λ v t e. cc (off, t)))
    | inl t ↦ go t (there t)
  ]
    where
      go :
          guard ≡ true
          → (v : ℤ) × (cell m c ≡ ok v) × (pos_part v < long_max)
          → (low' : ℤ × ℕ) × (consider m guard c key low ≡ ok low')
            × IsLowest m (Or seen guard key c) low'
      go t (pos n, e, l) = (_, rw t (rw e (rw (counts n) refl)), looked guard n low t e l s)
      go t (negsuc n, e, l) =
          (low, rw t (rw e (rw (below_zero n) refl)), skipped guard low s (λ v _ e'. cc (e, e')))
