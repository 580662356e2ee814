-- ===== src/Client/Screen/Layers.antt =====
-- Layers of drawings: what is seen of a list of things, whichever order they were drawn in.
use snake_multiplayer.Base.{
  ℕ, ◌≡◌, ◌≢◌, refl, ap, sym, subst, ◌⊎◌, inl, inr, ◌∈◌, ∈-append, append-∈_left, append-∈_right,
  List, ◌∷◌, ◌++◌, Option, none, some, Bool-cases,
}
use snake_multiplayer.Base.Int.{ℤ, ◌==ℤ◌, ==ℤ→eq, ==ℤ→ne}
use snake_multiplayer.Snake.{Cell}
use snake_multiplayer.Client.Screen.Seen.{over, dot}

-- What is seen of one thing at a place, and of a list of things.
module _ {A : Type 0} (Covers : A → Type 0) (Look : A → ℕ × ℤ → Type 0) where
  abbrev pub Single : A → Option (ℕ × ℤ) → Type 0
  Single a v =
      ((v ≡ none) × ¬ Covers a) ⊎ ((look : ℕ × ℤ) × Covers a × Look a look × (v ≡ some look))

  abbrev pub Layer : List A → Option (ℕ × ℤ) → Type 0
  Layer xs v =
      ((v ≡ none) × ((a : A) → a ∈ xs → ¬ Covers a))
      ⊎ ((a : A) × (look : ℕ × ℤ) × (a ∈ xs) × Covers a × Look a look × (v ≡ some look))

  pub cons-Layer :
      (x : A) (xs : List A) (v u : Option (ℕ × ℤ))
      → Layer xs v
      → Single x u
      → Layer (x ∷ xs) (over v u)
  unfolding over
  cons-Layer x xs v u (inr (a, look, there, covers, looks, e)) s =
      inr (a, look, inr there, covers, looks, rw e refl)
  cons-Layer x xs v u (inl (e, away)) (inr (look, covers, looks, e')) =
      inr (x, look, inl refl, covers, looks, rw e e')
  cons-Layer x xs v u (inl (e, away)) (inl (e', off)) = inl (rw e e', both)
    where
      both : (a : A) → a ∈ (x ∷ xs) → ¬ Covers a
      both a (inl same) c = off (subst Covers same c)
      both a (inr there) c = away a there c

  pub append-Layer :
      (xs ys : List A) (v u : Option (ℕ × ℤ))
      → Layer xs v
      → Layer ys u
      → Layer (xs ++ ys) (over u v)
  unfolding over
  append-Layer xs ys v u l (inr (a, look, there, covers, looks, e)) =
      inr (a, look, append-∈_right a xs ys there, covers, looks, rw e refl)
  append-Layer xs ys v u (inr (a, look, there, covers, looks, e')) (inl (e, away)) =
      inr (a, look, append-∈_left a xs ys there, covers, looks, rw e e')
  append-Layer xs ys v u (inl (e', away')) (inl (e, away)) = inl (rw e e', both)
    where
      both : (a : A) → a ∈ (xs ++ ys) → ¬ Covers a
      both a there c = elim (∈-append a xs ys there) [ inl l ↦ away' a l c | inr r ↦ away a r c ]

pub dot-cases :
    (a b : ℤ) (ch : ℕ) (color : ℤ) (c : Cell)
    → ((dot a b ch color c ≡ none) × (c ≢ (a, b)))
      ⊎ ((c ≡ (a, b)) × (dot a b ch color c ≡ some (ch, color)))
dot-cases a b ch color (x, y) = elim (Bool-cases (a ==ℤ x)) [
  | inr p ↦ inl (rw p refl, λ e. ==ℤ→ne a x p (sym (ap (λ z. z.0) e)))
  | inl p ↦ elim (Bool-cases (b ==ℤ y)) [
    | inl q ↦ inr (cc (==ℤ→eq a x p, ==ℤ→eq b y q), rw p (rw q refl))
    | inr q ↦ inl (rw p (rw q refl), λ e. ==ℤ→ne b y q (sym (ap (λ z. z.1) e)))
  ]
]
