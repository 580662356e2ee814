-- ===== src/Engine/Collisions.antt =====
-- What `checkCollisions` does to every player, whatever the order of the map and whatever the
-- generator draws.
use snake_multiplayer.Base.{
  ◌∈◌, ℕ, ◌≡◌, ap, sym, ◌∙◌, subst, ◌⊎◌, inl, inr, List, [], ◌∷◌, All, length, some, none, ok,
  Bool-cases,
}
use snake_multiplayer.Base.Int.{ℤ, ◌==ℤ◌, ==ℤ→eq}
use snake_multiplayer.Base.Map.{lookup, keys, Values, int_key}
use snake_multiplayer.Base.Map.Laws.{Distinct, All-mono, Entry, keys-Entry, Entry→Values}
use snake_multiplayer.Snake.{Cell, head_cell}
use snake_multiplayer.Engine.State.{Player, Game, Draw}
use snake_multiplayer.Engine.Food.{check_collisions}
use snake_multiplayer.Engine.Arena.{InArena}
use snake_multiplayer.Engine.Update.{IsRunning, IsSettled, IsReady, IsMoved}
use snake_multiplayer.Engine.Standing.{standing, standing-lookup, lookup-standing, keys-standing}
use snake_multiplayer.Engine.Rules.{Doomed, Safe}
use snake_multiplayer.Engine.Chosen.{
  Known, Chosen, Chosen-All, Chosen-Distinct, Chosen-member, check_loop-Chosen,
}
use snake_multiplayer.Engine.Destroyed.{
  erase_all, lookup-erase_all_in, lookup-erase_all-some, lookup-erase_all_out, Distinct-erase_all,
  Values-erase_all, Living, destroy_players-erase_all,
}

lookup-member :
    {V : Type 0} (id : ℤ) (m : List (ℤ × V)) (v : V) → lookup id m ≡ some v → id ∈ keys m
unfolding lookup
lookup-member id [] v e = cc
lookup-member id ((j, u) ∷ m) v e = elim (Bool-cases (j ==ℤ id)) [
  | inl hit ↦ inl (sym (==ℤ→eq j id hit))
  | inr miss ↦ inr (lookup-member id m v (rw miss at e))
]

module _ (w h : ℕ) where
  settle :
      (ps : List (ℤ × Player))
      → Distinct (keys ps)
      → Values (IsRunning w h) ps
      → ((id : ℤ) (c : Cell) (t : ℤ) → lookup id (standing ps) ≡ some (c, t) → InArena w h c)
      → Values (IsSettled w h) ps
  settle ps d run inside = Entry→Values (IsSettled w h) ps d (
      All-mono _ _
        (λ j (x : Entry (IsRunning w h) ps j). (
          x.0,
          x.1,
          record {
            steered = x.2.steered;
            inside = record {
              tracked = x.2.tracked;
              head = inside j _ _ (lookup-standing j ps x.1);
            };
          },
        ))
        (keys ps) (keys-Entry (IsRunning w h) ps d run))

module _ (w h : ℕ) {G : Type 0} where
  -- What becomes of one player.
  abbrev pub Fate : Game G → Game G → ℤ → Cell → ℤ → Type 0
  Fate g g' id c t =
      Doomed w h (standing g.players) g.occupied id c t × (lookup id g'.players ≡ none)
      ⊎ Safe w h (standing g.players) g.occupied id c t
        × (lookup id (standing g'.players) ≡ some (c, t))

  keys-Known :
      (g : Game G)
      → Distinct (keys g.players)
      → Values (IsRunning w h) g.players
      → All (Known w h g) (keys g.players)
  keys-Known g d run =
      All-mono _ _
        (λ j (x : Entry (IsRunning w h) g.players j).
          (head_cell x.0.head, x.0.next_move_time, lookup-standing j g.players x.1))
        (keys g.players) (keys-Entry (IsRunning w h) g.players d run)

  member_fate :
      (g g' : Game G) (picked : List ℤ)
      → Distinct (keys g.players)
      → standing g'.players ≡ standing g.players
      → Chosen w h (standing g.players) g.occupied (keys g.players) picked
      → (id : ℤ) (c : Cell) (t : ℤ) → lookup id (standing g.players) ≡ some (c, t)
      → (ps : List (ℤ × Player)) → ps ≡ erase_all picked g'.players
      → Doomed w h (standing g.players) g.occupied id c t × (lookup id ps ≡ none)
        ⊎ Safe w h (standing g.players) g.occupied id c t × (lookup id (standing ps) ≡ some (c, t))
  member_fate g g' picked d same r id c t l ps e =
      let s = standing g.players in
      let here : id ∈ keys g.players =
        subst (λ ks. id ∈ ks) (keys-standing g.players) (lookup-member id s (c, t) l) in
      let (c', t', l', v) = Chosen-member w h s g.occupied (keys g.players) picked r d id here in
      let cell : c' ≡ c = cc (l, l') in
      let time : t' ≡ t = cc (l, l') in
      let (p, lp, ec, et) = standing-lookup id g'.players (ap (lookup id) same ∙ l) in
      elim v [
        | inl (m, x) ↦ inl (
          subst (λ u. Doomed w h s g.occupied id c u) time
              (subst (λ a. Doomed w h s g.occupied id a t') cell x),
          ap (lookup id) e ∙ lookup-erase_all_in picked g'.players id m,
        )
        | inr (m, x) ↦ inr (
          subst (λ u. Safe w h s g.occupied id c u) time
              (subst (λ a. Safe w h s g.occupied id a t') cell x),
          lookup-standing id ps
                (ap (lookup id) e ∙ lookup-erase_all_out picked g'.players id m ∙ lp)
              ∙ ap (λ (x : Cell × ℤ). some x) (cc (ec, et)),
        )
      ]

  safe_inside :
      (g g' : Game G) (id : ℤ) (c : Cell) (t : ℤ)
      → lookup id (standing g'.players) ≡ some (c, t)
      → Fate g g' id c t
      → InArena w h c
  safe_inside g g' id c t l (inl (x, e)) =
      let (p, lp, _, _) = standing-lookup id g'.players l in cc (lp, e)
  safe_inside g g' id c t l (inr (x, e)) = x.0

  -- A player that is left stands where it stood.
  stood :
      (g g' : Game G) (picked : List ℤ)
      → standing g'.players ≡ standing g.players
      → (ps : List (ℤ × Player)) → ps ≡ erase_all picked g'.players
      → (id : ℤ) (c : Cell) (t : ℤ) → lookup id (standing ps) ≡ some (c, t)
      → lookup id (standing g.players) ≡ some (c, t)
  stood g g' picked same ps e id c t l =
      let (p, lp, ec, et) = standing-lookup id ps l in
      let before = lookup-erase_all-some picked g'.players id (ap (lookup id) (sym e) ∙ lp) in
      let here = ap (lookup id) (sym same) ∙ lookup-standing id g'.players before in
      here ∙ ap (λ (x : Cell × ℤ). some x) (cc (ec, et))

module _ (w h : ℕ) {G : Type 0} (draw : Draw G) where
  pub check_collisions-Fate :
      (g : Game G)
      → IsMoved w h g
      → (g' : Game G) × (check_collisions draw g ≡ ok g')
        × IsReady w h g'
        × ((id : ℤ) (c : Cell) (t : ℤ)
            → lookup id (standing g.players) ≡ some (c, t)
            → Fate w h g g' id c t)
        × ((id : ℤ) (c : Cell) (t : ℤ)
            → lookup id (standing g'.players) ≡ some (c, t)
            → lookup id (standing g.players) ≡ some (c, t))
  unfolding check_collisions
  check_collisions-Fate g v =
      let (g₁, picked, e, k, r) =
        check_loop-Chosen w h (keys g.players) g [] v.shape v.distinct v.running
          (keys-Known w h g v.distinct v.running) in
      let living : All (Living g₁) picked =
        Chosen-All w h (standing g.players) g.occupied (Living g₁) (keys g.players) picked r (
          All-mono _ _
            (λ j (x : Known w h g j).
              let (p, l, _, _) = standing-lookup j g₁.players (ap (lookup j) k.same ∙ x.2) in
              (p, l))
            (keys g.players) (keys-Known w h g v.distinct v.running)) in
      let (g₂, e₂, arena, gone) =
        destroy_players-erase_all draw picked g₁
          (Chosen-Distinct w h (standing g.players) g.occupied (keys g.players) picked r v.distinct)
          living in
      let fate = member_fate w h g g₁ picked v.distinct k.same r in
      let distinct : Distinct (keys g₂.players) =
        subst (λ ps. Distinct (keys ps)) (sym gone)
          (Distinct-erase_all picked g₁.players
            (subst (λ ks. Distinct ks) (sym k.same_keys) v.distinct)) in
      let running : Values (IsRunning w h) g₂.players =
        subst (λ ps. Values (IsRunning w h) ps) (sym gone)
          (Values-erase_all (IsRunning w h) picked g₁.players k.running) in
      let back = stood w h g g₁ picked k.same g₂.players gone in
      let inside =
        λ (id : ℤ) (c : Cell) (t : ℤ) (l : lookup id (standing g₂.players) ≡ some (c, t)).
          safe_inside w h g g₂ id c t l (fate id c t (back id c t l) g₂.players gone) in
      (
        g₂,
        simp (e, e₂),
        record {
          shape = record {
            width = arena.width ∙ k.shape.width;
            height = arena.height ∙ k.shape.height;
            size = ap length arena.occupied ∙ k.shape.size;
          };
          distinct = distinct;
          settled = settle w h g₂.players distinct running inside;
        },
        λ id c t l. fate id c t l g₂.players gone,
        back,
      )
