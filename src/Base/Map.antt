-- ===== src/Base/Map.antt =====
-- `std::unordered_map` as a list of entries. The order of the list is the order of iteration, which
-- the program does not choose: theorems hold for every order. A new entry goes to the front.
pub mod Laws
pub mod Assign
use snake_multiplayer.Base.{
  ℕ, suc, ◌+◌, ◌≤◌, ◌≡◌, refl, ap, sym, ◌∙◌, ◌↔◌, ◌⊎◌, inl, inr, Bool, true, false, ◌&&◌, List, [],
  ◌∷◌, map, Option, none, some, arith, length, All, if◌then◌else◌, Bool-cases,
}
use snake_multiplayer.Base.Int.{ℤ, ◌==ℤ◌, ==ℤ→eq, ==ℤ_refl}

pub record Key (K : Type 0) : Type 0 where
  pub beq : K → K → Bool
  pub beq→eq : (a b : K) → beq a b ≡ true → a ≡ b
  pub beq_refl : (a : K) → beq a a ≡ true

instance abbrev pub int_key : Key ℤ
int_key = record { beq = ◌==ℤ◌; beq→eq = ==ℤ→eq; beq_refl = ==ℤ_refl }

abbrev pub cell_beq : ℤ × ℤ → ℤ × ℤ → Bool
cell_beq (a, b) (c, d) = a ==ℤ c && b ==ℤ d

and_true : (p q : Bool) → (p && q) ≡ true → (p ≡ true) × (q ≡ true)
and_true true true e = (refl, refl)
and_true true false e = cc
and_true false q e = cc

pub cell_beq→eq : (a b : ℤ × ℤ) → cell_beq a b ≡ true → a ≡ b
cell_beq→eq (a, b) (c, d) h =
    let both = and_true (a ==ℤ c) (b ==ℤ d) h in cc (==ℤ→eq a c both.0, ==ℤ→eq b d both.1)

pub cell_beq_refl : (a : ℤ × ℤ) → cell_beq a a ≡ true
cell_beq_refl (a, b) = rw (==ℤ_refl a) (rw (==ℤ_refl b))

instance abbrev pub cell_key : Key (ℤ × ℤ)
cell_key = record { beq = cell_beq; beq→eq = cell_beq→eq; beq_refl = cell_beq_refl }

module _ {K V : Type 0} ⦃e : Key K⦄ where
  unfoldable pub lookup : K → List (K × V) → Option V
  lookup k [] = none
  lookup k ((j, v) ∷ m) = let rest = lookup k m in if e.beq j k then some v else rest

  unfoldable pub contains : K → List (K × V) → Bool
  contains k [] = false
  contains k ((j, v) ∷ m) = let rest = contains k m in if e.beq j k then true else rest

  unfoldable pub erase : K → List (K × V) → List (K × V)
  erase k [] = []
  erase k ((j, v) ∷ m) = let rest = erase k m in if e.beq j k then rest else (j, v) ∷ rest

  -- `m[k] = f(m[k])` at a key that is there.
  unfoldable pub modify : K → (V → V) → List (K × V) → List (K × V)
  modify k f [] = []
  modify k f ((j, v) ∷ m) =
      let rest = modify k f m in if e.beq j k then (j, f v) ∷ rest else (j, v) ∷ rest

  -- `emplace` leaves an entry that is there.
  unfoldable pub emplace : K → V → List (K × V) → List (K × V)
  emplace k v m = if contains k m then m else (k, v) ∷ m

  -- `m[k] = v`.
  unfoldable pub assign : K → V → List (K × V) → List (K × V)
  assign k v m = if contains k m then modify k (λ _. v) m else (k, v) ∷ m

module _ {K V : Type 0} where
  abbrev pub keys : List (K × V) → List K
  keys [] = []
  keys ((k, v) ∷ m) = k ∷ keys m

  -- Every value of the map.
  abbrev pub Values : (V → Type 0) → List (K × V) → Type 0
  Values P [] = Unit {0}
  Values P ((k, v) ∷ m) = P v × Values P m
