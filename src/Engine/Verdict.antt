-- ===== src/Engine/Verdict.antt =====
-- The player that `checkCollisions` picks in a shared cell is the one that was there first.
use snake_multiplayer.Base.{
  ◌∈◌, ◌≡◌, refl, subst, inl, inr, false, List, [], ◌∷◌, All, some, ok, ◌>>=◌, Bool-cases,
}
use snake_multiplayer.Base.Int.{ℤ, ◌==ℤ◌, ==ℤ→eq, ==ℤ→ne}
use snake_multiplayer.Base.Map.{lookup, int_key}
use snake_multiplayer.Snake.{Cell}
use snake_multiplayer.Engine.State.{Player, Game}
use snake_multiplayer.Engine.Move.{player_at}
use snake_multiplayer.Engine.Collide.{goes_first, min_element}
use snake_multiplayer.Engine.Order.{
  Before, goes_first→Before, Before-total, Before-trans, Before-irrefl,
}
use snake_multiplayer.Engine.Standing.{Standing, standing, standing-lookup}

-- A player whose head is in that cell.
abbrev pub In : Standing → Cell → ℤ → Type 0
In s c a = (t : ℤ) × (lookup a s ≡ some (c, t))

-- The time of a player is known from its standing.
pub player_at-standing :
    {G : Type 0} (g : Game G) (a : ℤ) {c : Cell} {t : ℤ}
    → lookup a (standing g.players) ≡ some (c, t)
    → (p : Player) × (player_at g a ≡ ok p) × (p.next_move_time ≡ t)
unfolding player_at
player_at-standing g a e = let (p, l, _, same) = standing-lookup a g.players e in (p, rw l, same)

-- Nobody of the list is in the cell before the player `m`.
abbrev pub First : Standing → Cell → ℤ → ℤ → List ℤ → Type 0
First s c m t ids = All (λ a. (u : ℤ) → lookup a s ≡ some (c, u) → Before u a t m → ⊥) ids

pub record Winner (s : Standing) (c : Cell) (ids : List ℤ) (m : ℤ) : Type 0 where
  pub time : ℤ
  pub there : lookup m s ≡ some (c, time)
  pub among : m ∈ ids
  pub first : First s c m time ids

same_time :
    {c : Cell} {t u : ℤ} (s : Standing) (a : ℤ)
    → lookup a s ≡ some (c, t)
    → lookup a s ≡ some (c, u)
    → u ≡ t
same_time s a e f = cc (e, f)

Winner-alone : (s : Standing) (c : Cell) (m : ℤ) → In s c m → Winner s c (m ∷ []) m
Winner-alone s c m (t, e) = record {
  time = t;
  there = e;
  among = inl refl;
  first = (λ u f b. Before-irrefl t m (rw (same_time s m e f) at b), tt);
}

-- One more player, whom another of the list goes before.
Winner-over :
    (s : Standing) (c : Cell) (a b m : ℤ) (ids : List ℤ) {t u : ℤ}
    → lookup a s ≡ some (c, t)
    → lookup b s ≡ some (c, u)
    → Before t a u b
    → (won : Winner s c (a ∷ ids) m) → (v : ℤ) → lookup b s ≡ some (c, v)
    → Before v b won.time m
    → ⊥
Winner-over s c a b m ids {t} {u} ea eb x won v e y =
    let y' : Before u b won.time m = rw (same_time s b eb e) at y in
    won.first.0 t ea (Before-trans t a u b won.time m x y')

-- One more player, who does not go before the first of the list.
Winner-under :
    (s : Standing) (c : Cell) (a b m : ℤ) (ids : List ℤ) {t u : ℤ}
    → lookup a s ≡ some (c, t)
    → lookup b s ≡ some (c, u)
    → goes_first u b t a ≡ false
    → (won : Winner s c (a ∷ ids) m) → (v : ℤ) → lookup b s ≡ some (c, v)
    → Before v b won.time m
    → ⊥
Winner-under s c a b m ids {t} {u} ea eb x won v e y = elim (Bool-cases (b ==ℤ a)) [
  | inl same ↦
      won.first.0 v (subst (λ i. lookup i s ≡ some (c, v)) (==ℤ→eq b a same) e)
        (subst (λ i. Before v i won.time m) (==ℤ→eq b a same) y)
  | inr other ↦
      Winner-over s c a b m ids ea eb (Before-total u b t a (==ℤ→ne b a other) x) won v e y
]

among_later : (a b m : ℤ) (ids : List ℤ) → m ∈ (a ∷ ids) → m ∈ (a ∷ b ∷ ids)
among_later a b m ids (inl e) = inl e
among_later a b m ids (inr e) = inr (inr e)

-- From a list of players in one cell `min_element` returns one of them, whom nobody of the list goes
-- before: nobody is due earlier, or at the same time with a lower id.
pub min_element-Winner :
    {G : Type 0} (g : Game G) (c : Cell) (best : ℤ) (ids : List ℤ)
    → In (standing g.players) c best
    → All (In (standing g.players) c) ids
    → (m : ℤ) × (min_element g best ids ≡ ok m) × Winner (standing g.players) c (best ∷ ids) m
unfolding min_element
min_element-Winner g c best [] b v = (best, refl, Winner-alone (standing g.players) c best b)
min_element-Winner g c best (a ∷ ids) (u, eb) ((t, ea), vs) =
    let s = standing g.players in
    let (p, ep, tp) = player_at-standing g a ea in
    let (q, eq, tq) = player_at-standing g best eb in
    elim (Bool-cases (goes_first t a u best)) [
      | inl earlier ↦
          let (m, e, won) = min_element-Winner g c a ids (t, ea) vs in
          (
            m,
            rw (ep, ◌>>=◌) (rw (eq, ◌>>=◌) (rw (tp, tq, earlier) e)),
            record {
              time = won.time;
              there = won.there;
              among = inr won.among;
              first = (
                Winner-over s c a best m ids ea eb (goes_first→Before t a u best earlier) won,
                won.first,
              );
            },
          )
      | inr later ↦
          let (m, e, won) = min_element-Winner g c best ids (u, eb) vs in
          (
            m,
            rw (ep, ◌>>=◌) (rw (eq, ◌>>=◌) (rw (tp, tq, later) e)),
            record {
              time = won.time;
              there = won.there;
              among = among_later best a m ids won.among;
              first = (won.first.0, (Winner-under s c best a m ids eb ea later won, won.first.1));
            },
          )
    ]
