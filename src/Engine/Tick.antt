-- ===== src/Engine/Tick.antt =====
-- One turn of the game in the loop of `SnakeServer::run`, and that the game is ready for the next
-- one after it and after each message.
use snake_multiplayer.Base.{
  is_empty, ℕ, ◌≡◌, refl, ap, sym, ◌∙◌, subst, inl, inr, Bool, true, false, length, some, Result,
  ok, ◌>>=◌, Bool-cases, if◌then◌else◌,
}
use snake_multiplayer.Base.Int.{ℤ, pos, ◌==ℤ◌, ==ℤ→eq, ==ℤ→ne}
use snake_multiplayer.Base.Map.{lookup, keys, Values, int_key}
use snake_multiplayer.Base.Map.Laws.{Distinct}
use snake_multiplayer.Snake.{Cell}
use snake_multiplayer.Engine.State.{Game, Draw, speed_boost_probability}
use snake_multiplayer.Engine.Move.{update_snakes}
use snake_multiplayer.Engine.Food.{check_collisions, place_speed_boost}
use snake_multiplayer.Engine.Update.{IsSettled, IsReady, IsMoved, update_snakes-IsMoved}
use snake_multiplayer.Engine.Order.{goes_first→Before, Before-total}
use snake_multiplayer.Engine.Collide.{goes_first}
use snake_multiplayer.Engine.Standing.{standing, standing-lookup}
use snake_multiplayer.Engine.Rules.{Safe}
use snake_multiplayer.Engine.Collisions.{Fate, check_collisions-Fate}

module _ {G : Type 0} (draw : Draw G) where
  -- `updateSnakes`, and where anything moved, `checkCollisions` and `placeSpeedBoost`. The flag says
  -- whether the state is to be broadcast.
  unfoldable pub advance : Game G → Result (Game G × Bool)
  advance g = do
    r ← update_snakes g
    let settled = do g' ← check_collisions draw r.0; ok (place_speed_boost draw g', true)
    if r.1 then settled else ok (r.0, false)

module _ (w h : ℕ) {G : Type 0} where
  pub same_players-IsReady :
      (g g' : Game G)
      → g'.width ≡ g.width
      → g'.height ≡ g.height
      → g'.occupied ≡ g.occupied
      → g'.players ≡ g.players
      → IsReady w h g
      → IsReady w h g'
  same_players-IsReady g g' a b c d v = record {
    shape = record {
      width = a ∙ v.shape.width;
      height = b ∙ v.shape.height;
      size = ap length c ∙ v.shape.size;
    };
    distinct = subst (λ ps. Distinct (keys ps)) (sym d) v.distinct;
    settled = subst (λ ps. Values (IsSettled w h) ps) (sym d) v.settled;
  }

module _ (w h : ℕ) {G : Type 0} (draw : Draw G) where
  place_speed_boost-IsReady : (g : Game G) → IsReady w h g → IsReady w h (place_speed_boost draw g)
  unfolding place_speed_boost
  place_speed_boost-IsReady g v = elim (Bool-cases (is_empty g.speed_boosts)) [
    | inl none_yet ↦ elim (Bool-cases ((draw (pos 1) speed_boost_probability g.gen).0 ==ℤ pos 1)) [
      | inl hit ↦
          simp (none_yet, hit)
            (same_players-IsReady w h g (record g { gen = _; speed_boosts = _ }) refl refl refl refl
              v)
      | inr miss ↦
          simp (none_yet, miss)
            (same_players-IsReady w h g (record g { gen = _ }) refl refl refl refl v)
    ]
    | inr placed ↦ simp placed v
  ]

  pub advance-IsReady :
      (g : Game G)
      → IsReady w h g
      → (g' : Game G) × (b : Bool) × (advance draw g ≡ ok (g', b)) × IsReady w h g'
  unfolding advance
  advance-IsReady g v =
      let (g₁, b, e, moved, _, still) = update_snakes-IsMoved w h g v in
      let (g₂, e₂, ready, _, _) = check_collisions-Fate w h draw g₁ moved in
      elim (Bool-cases b) [
        | inl go ↦
            (place_speed_boost draw g₂, true, simp (e, go, e₂), place_speed_boost-IsReady g₂ ready)
        | inr stay ↦ (
          g₁,
          false,
          simp (e, stay),
          elim still [ inl moves ↦ cc (stay, moves) | inr ready ↦ ready ],
        )
      ]

  Fate-Safe :
      (g g' : Game G) (id : ℤ) (c : Cell) (t : ℤ)
      → lookup id (standing g'.players) ≡ some (c, t)
      → Fate w h g g' id c t
      → Safe w h (standing g.players) g.occupied id c t
  Fate-Safe g g' id c t l (inl (x, e)) =
      let (p, lp, _, _) = standing-lookup id g'.players l in cc (lp, e)
  Fate-Safe g g' id c t l (inr (x, e)) = x

  -- After `checkCollisions` no two players that are left have their heads in one cell.
  pub survivors_apart :
      (g g' : Game G) (a b : ℤ) (c : Cell) (t u : ℤ)
      → IsMoved w h g
      → check_collisions draw g ≡ ok g'
      → lookup a (standing g'.players) ≡ some (c, t)
      → lookup b (standing g'.players) ≡ some (c, u)
      → a ≡ b
  survivors_apart g g' a b c t u v e la lb =
      let (g₁, e₁, _, fate, back) = check_collisions-Fate w h draw g v in
      let same : g' ≡ g₁ = cc (e, e₁) in
      let la₁ = subst (λ x. lookup a (standing x.players) ≡ some (c, t)) same la in
      let lb₁ = subst (λ x. lookup b (standing x.players) ≡ some (c, u)) same lb in
      let safe_a = Fate-Safe g g₁ a c t la₁ (fate a c t (back a c t la₁)) in
      let safe_b = Fate-Safe g g₁ b c u lb₁ (fate b c u (back b c u lb₁)) in
      elim (Bool-cases (a ==ℤ b)) [
        | inl eq ↦ ==ℤ→eq a b eq
        | inr ne ↦ elim (Bool-cases (goes_first t a u b)) [
          | inl x ↦ absurd (safe_b.2 a t (back a c t la₁) (goes_first→Before t a u b x))
          | inr x ↦ absurd (safe_a.2 b u (back b c u lb₁) (Before-total t a u b (==ℤ→ne a b ne) x))
        ]
      ]
