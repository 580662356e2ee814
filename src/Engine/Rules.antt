-- ===== src/Engine/Rules.antt =====
-- The rules of a collision, said of where the heads are and which cells the bodies take, and what the
-- heads in one cell say of a player there.
use snake_multiplayer.Base.{
  ◌∈◌, ℕ, ◌<◌, ◌≡◌, ◌≢◌, refl, sym, ◌∙◌, subst, ◌⊎◌, inl, inr, false, List, [], ◌∷◌, arith, length,
  ltb, All, some, ok, Bool-cases,
}
use snake_multiplayer.Base.Int.{ℤ}
use snake_multiplayer.Base.Map.{lookup, keys, int_key, cell_key}
use snake_multiplayer.Base.Map.Laws.{Distinct}
use snake_multiplayer.Snake.{Cell}
use snake_multiplayer.Engine.State.{Player, Game}
use snake_multiplayer.Engine.Arena.{Bodies, InArena}
use snake_multiplayer.Engine.Collide.{heads_in_cell, goes_first, first_player_in_cell}
use snake_multiplayer.Engine.Order.{Before, goes_first→Before, Before-total, Before-irrefl}
use snake_multiplayer.Engine.Standing.{Standing, standing, heads_in_cell-mem, mem-heads_in_cell}
use snake_multiplayer.Engine.Verdict.{In, First, Winner, min_element-Winner}

-- Who was in the cell earlier, of those whose head is there.
abbrev pub Unbeaten : Standing → ℤ → Cell → ℤ → Type 0
Unbeaten s id c t = (j u : ℤ) → lookup j s ≡ some (c, u) → Before u j t id → ⊥

abbrev pub Beaten : Standing → ℤ → Cell → ℤ → Type 0
Beaten s id c t = (j : ℤ) × (u : ℤ) × (lookup j s ≡ some (c, u)) × Before u j t id

module _ (w h : ℕ) (s : Standing) (cells : List ℕ) where
  -- The head has left the arena, ran into a body, or met a head that was there before it.
  abbrev pub Doomed : ℤ → Cell → ℤ → Type 0
  Doomed id c t = (InArena w h c → ⊥) ⊎ ((n : ℕ) × Bodies w cells c n × (0 < n)) ⊎ Beaten s id c t

  abbrev pub Safe : ℤ → Cell → ℤ → Type 0
  Safe id c t = InArena w h c × Bodies w cells c 0 × Unbeaten s id c t

-- A list with at most one member.
lone : (ids : List ℤ) (a b : ℤ) → ltb 1 (length ids) ≡ false → a ∈ ids → b ∈ ids → b ≡ a
lone [] a b n x y = absurd x
lone (i ∷ []) a b n (inl x) (inl y) = y ∙ sym x
lone (i ∷ []) a b n (inl x) (inr y) = absurd y
lone (i ∷ []) a b n (inr x) y = absurd x
lone (i ∷ j ∷ ids) a b n x y = absurd (ground arith)

First-member :
    (s : Standing) (c : Cell) (m t : ℤ) (ids : List ℤ) (a u : ℤ)
    → First s c m t ids
    → a ∈ ids
    → lookup a s ≡ some (c, u)
    → Before u a t m
    → ⊥
First-member s c m t [] a u f x l = absurd x
First-member s c m t (i ∷ ids) a u f (inl e) l =
    λ b. f.0 u (subst (λ x. lookup x s ≡ some (c, u)) e l) (subst (λ x. Before u x t m) e b)
First-member s c m t (i ∷ ids) a u f (inr e) l = First-member s c m t ids a u f.1 e l

pub not-Before : (t a u b : ℤ) → a ≢ b → (Before t a u b → ⊥) → Before u b t a
not-Before t a u b ne never = elim (Bool-cases (goes_first t a u b)) [
  | inl x ↦ absurd (never (goes_first→Before t a u b x))
  | inr x ↦ Before-total t a u b ne x
]

pub heads_in_cell-In :
    (ps : List (ℤ × Player)) (c : Cell)
    → Distinct (keys ps)
    → All (In (standing ps) c) (heads_in_cell ps c)
heads_in_cell-In ps c d = go (heads_in_cell ps c) (λ a m. heads_in_cell-mem ps c a d m)
  where
    go : (ids : List ℤ) → ((a : ℤ) → a ∈ ids → In (standing ps) c a) → All (In (standing ps) c) ids
    go [] f = tt
    go (i ∷ ids) f = (f i (inl refl), go ids (λ a m. f a (inr m)))

module _ (ps : List (ℤ × Player)) (id : ℤ) (c : Cell) (t : ℤ) (d : Distinct (keys ps))
    (l : lookup id (standing ps) ≡ some (c, t)) where
  pub present : id ∈ heads_in_cell ps c
  present = mem-heads_in_cell ps c id t l

  pub lone-Unbeaten : ltb 1 (length (heads_in_cell ps c)) ≡ false → Unbeaten (standing ps) id c t
  lone-Unbeaten n j u e b =
      let same = lone (heads_in_cell ps c) id j n present (mem-heads_in_cell ps c j u e) in
      let late : u ≡ t = cc (l, e, same) in Before-irrefl t id (rw (same, late) at b)

  pub first-Unbeaten :
      (m : ℤ)
      → Winner (standing ps) c (heads_in_cell ps c) m
      → id ≡ m
      → Unbeaten (standing ps) id c t
  first-Unbeaten m won e j u x b =
      let time : t ≡ won.time = cc (l, won.there, e) in
      First-member (standing ps) c m won.time (heads_in_cell ps c) j u won.first
        (mem-heads_in_cell ps c j u x) x (rw (time, e) at b)

  pub second-Beaten :
      (m : ℤ) → Winner (standing ps) c (heads_in_cell ps c) m → id ≢ m → Beaten (standing ps) id c t
  second-Beaten m won ne = (
    m,
    won.time,
    won.there,
    not-Before t id won.time m ne
        (First-member (standing ps) c m won.time (heads_in_cell ps c) id t won.first present l),
  )

pub first_player_in_cell-Winner :
    {G : Type 0} (g : Game G) (c : Cell) (ids : List ℤ) (a : ℤ)
    → a ∈ ids
    → All (In (standing g.players) c) ids
    → (m : ℤ) × (first_player_in_cell g ids ≡ ok m) × Winner (standing g.players) c ids m
unfolding first_player_in_cell
first_player_in_cell-Winner g c [] a x v = absurd x
first_player_in_cell-Winner g c (i ∷ ids) a x v = min_element-Winner g c i ids v.0 v.1
