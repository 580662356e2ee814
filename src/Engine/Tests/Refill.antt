-- ===== src/Engine/Tests/Refill.antt =====
-- A generator that counts, and an arena with no food.
use Prim.Native.Nat.{max}
use snake_multiplayer.Base.{
  ℕ, zero, suc, ◌+◌, ◌≤◌, ◌<◌, ◌≡◌, inl, inr, ◌∈◌, List, [], ◌∷◌, length, ok, arith, leb,
  if◌then◌else◌, ap,
}
use snake_multiplayer.Base.Int.{ℤ, pos, pos_part}
use snake_multiplayer.Base.Map.{cell_key}
use snake_multiplayer.Base.Map.Assign.{member}
use snake_multiplayer.Snake.{Cell}
use snake_multiplayer.Engine.State.{Game, Draw, min_food_in_arena}
use snake_multiplayer.Engine.Food.{replace_food}
use snake_multiplayer.Engine.Refill.{Fresh, now, later, IsFair, replace_food_ends}

abbrev counter : Draw ℕ
counter lo hi n = (pos n, suc n)

-- The cells that the generator has not passed.
abbrev ahead : ℕ → List Cell → ℕ
ahead n [] = 0
ahead n ((x, y) ∷ cs) = (if leb n (pos_part x) then 1 else 0) + ahead n cs

ahead_mono : (n : ℕ) (cs : List Cell) → ahead (suc (suc n)) cs ≤ ahead n cs
ahead_mono n [] = omega arith
ahead_mono n ((x, y) ∷ cs) = ground (arith, ahead_mono n cs)

ahead_less :
    (n : ℕ) (y : ℤ) (cs : List Cell) → (pos n, y) ∈ cs → ahead (suc (suc n)) cs < ahead n cs
ahead_less n y [] h = absurd h
ahead_less n y ((x, z) ∷ cs) (inl e) =
    let ex : n ≡ pos_part x = ap (λ (c : Cell). pos_part c.0) e in ground (arith, ahead_mono n cs)
ahead_less n y ((x, z) ∷ cs) (inr h) = ground (arith, ahead_less n y cs h)

ahead-le : (n : ℕ) (cs : List Cell) → ahead n cs ≤ length cs
ahead-le n [] = omega arith
ahead-le n ((x, y) ∷ cs) = ground (arith, ahead-le n cs)

counter-Fresh :
    (w h : ℤ) (cs : List Cell) (tries n : ℕ) → ahead n cs < tries → Fresh counter w h cs tries n
counter-Fresh w h cs zero n l = absurd (omega arith)
counter-Fresh w h cs (suc tries) n l = elim (member (pos n, pos (suc n)) cs) [
  | inl there ↦ later tries n there (
      counter-Fresh w h cs tries (suc (suc n)) (omega (arith, ahead_less n (pos (suc n)) cs there)))
  | inr away ↦ now tries n away
]

counter-IsFair : (w h : ℤ) → IsFair counter w h 6
counter-IsFair w h cs n few = counter-Fresh w h cs 6 n (omega (arith, ahead-le n cs))

abbrev bare : Game ℕ
bare = record {
  width = pos 12;
  height = pos 12;
  movement_frequency_ms = 200;
  boosted_movement_frequency_ms = 133;
  boost_duration_ms = 8_000;
  current_tick = pos 0;
  gen = 0;
  high_score_name = [];
  high_score = pos 0;
  players = [];
  occupied = [];
  food = [];
  speed_boosts = [];
}

replace_food_ends_example :
    (g' : Game ℕ) × (replace_food counter 36 bare ≡ ok g')
    × (length g'.food ≡ max min_food_in_arena (length bare.food))
    × (g'.players ≡ bare.players)
replace_food_ends_example =
    replace_food_ends counter 6 36 bare (counter-IsFair (pos 12) (pos 12)) (omega arith)
