-- ===== src/Engine/Chosen.antt =====
-- The loop of `checkCollisions`: whom it picks, judged by where the heads were when it began.
use snake_multiplayer.Base.{
  ◌∈◌, ℕ, ◌≡◌, ◌≢◌, refl, ap, sym, ◌∙◌, subst, ◌⊎◌, inl, inr, List, [], ◌∷◌, ◌++◌, All, some, ok,
  Bool-cases, if◌then◌else◌,
}
use snake_multiplayer.Base.Int.{ℤ, ltb_ℤ}
use snake_multiplayer.Base.Map.{lookup, keys, Values, int_key}
use snake_multiplayer.Base.Map.Laws.{Distinct, All-mono}
use snake_multiplayer.Snake.{Cell}
use snake_multiplayer.Engine.State.{Player, Game}
use snake_multiplayer.Engine.Move.{player_at}
use snake_multiplayer.Engine.Collide.{check_loop, track_score}
use snake_multiplayer.Engine.Update.{Shape, IsRunning}
use snake_multiplayer.Engine.Standing.{Standing, standing, standing-lookup}
use snake_multiplayer.Engine.Verdict.{player_at-standing}
use snake_multiplayer.Engine.Rules.{Doomed, Safe}
use snake_multiplayer.Engine.Chain.{Kept, Kept-refl, check_player-Verdict}

module _ (w h : ℕ) (s : Standing) (cells : List ℕ) where
  -- The ids among those of the first list that are to be destroyed, in the same order.
  pub data Chosen : List ℤ → List ℤ → Type 0 where
    nobody : Chosen [] []
    destroyed :
        (id : ℤ) (c : Cell) (t : ℤ) (ids picked : List ℤ)
        → lookup id s ≡ some (c, t)
        → Doomed w h s cells id c t
        → Chosen ids picked
        → Chosen (id ∷ ids) (id ∷ picked)
    spared :
        (id : ℤ) (c : Cell) (t : ℤ) (ids picked : List ℤ)
        → lookup id s ≡ some (c, t)
        → Safe w h s cells id c t
        → Chosen ids picked
        → Chosen (id ∷ ids) picked

  pub Chosen-All :
      (P : ℤ → Type 0) (ids picked : List ℤ) → Chosen ids picked → All P ids → All P picked
  Chosen-All P _ _ nobody v = tt
  Chosen-All P _ _ (destroyed id c t ids picked l x r) v = (v.0, Chosen-All P ids picked r v.1)
  Chosen-All P _ _ (spared id c t ids picked l x r) v = Chosen-All P ids picked r v.1

  pub Chosen-Distinct : (ids picked : List ℤ) → Chosen ids picked → Distinct ids → Distinct picked
  Chosen-Distinct _ _ nobody v = tt
  Chosen-Distinct _ _ (destroyed id c t ids picked l x r) v =
      (Chosen-All (λ i. i ≢ id) ids picked r v.0, Chosen-Distinct ids picked r v.1)
  Chosen-Distinct _ _ (spared id c t ids picked l x r) v = Chosen-Distinct ids picked r v.1

  pub away_not : (id : ℤ) (ids : List ℤ) → All (λ i. i ≢ id) ids → id ∈ ids → ⊥
  away_not id [] v m = m
  away_not id (i ∷ ids) v (inl e) = v.0 (sym e)
  away_not id (i ∷ ids) v (inr m) = away_not id ids v.1 m

  -- Which of the two happened to an id.
  pub Chosen-member :
      (ids picked : List ℤ)
      → Chosen ids picked
      → Distinct ids
      → (id : ℤ) → id ∈ ids
      → (c : Cell) × (t : ℤ) × (lookup id s ≡ some (c, t))
        × ((id ∈ picked) × Doomed w h s cells id c t ⊎ (id ∈ picked → ⊥) × Safe w h s cells id c t)
  Chosen-member _ _ nobody d id m = absurd m
  Chosen-member _ _ (destroyed j c t ids picked l x r) d id (inl e) =
      subst
        (λ i.
          (c : Cell) × (t : ℤ) × (lookup i s ≡ some (c, t))
          × ((i ∈ (j ∷ picked)) × Doomed w h s cells i c t
              ⊎ (i ∈ (j ∷ picked) → ⊥) × Safe w h s cells i c t))
        (sym e) (c, t, l, inl (inl refl, x))
  Chosen-member _ _ (spared j c t ids picked l x r) d id (inl e) =
      subst
        (λ i.
          (c : Cell) × (t : ℤ) × (lookup i s ≡ some (c, t))
          × ((i ∈ picked) × Doomed w h s cells i c t ⊎ (i ∈ picked → ⊥) × Safe w h s cells i c t))
        (sym e) (c, t, l, inr (away_not j picked (Chosen-All (λ i. i ≢ j) ids picked r d.0), x))
  Chosen-member _ _ (destroyed j c t ids picked l x r) d id (inr m) =
      let (c', t', l', v) = Chosen-member ids picked r d.1 id m in
      (
        c',
        t',
        l',
        elim v [
          | inl (k, y) ↦ inl (inr k, y)
          | inr (k, y) ↦ inr (
            λ z. elim z [ inl e ↦ away_not j ids d.0 (subst (λ i. i ∈ ids) e m) | inr q ↦ k q ],
            y,
          )
        ],
      )
  Chosen-member _ _ (spared j c t ids picked l x r) d id (inr m) =
      Chosen-member ids picked r d.1 id m

append-snoc : (xs ys : List ℤ) (a : ℤ) → (xs ++ (a ∷ [])) ++ ys ≡ xs ++ (a ∷ ys)
append-snoc [] ys a = refl
append-snoc (x ∷ xs) ys a = ap (λ (l : List ℤ). x ∷ l) (append-snoc xs ys a)

append-nil : (xs : List ℤ) → xs ++ [] ≡ xs
append-nil [] = refl
append-nil (x ∷ xs) = ap (λ (l : List ℤ). x ∷ l) (append-nil xs)

module _ (w h : ℕ) {G : Type 0} where
  Kept-trans : (f g k : Game G) → Kept w h f g → Kept w h g k → Kept w h f k
  Kept-trans f g k a b = record {
    shape = b.shape;
    cells = b.cells ∙ a.cells;
    same = b.same ∙ a.same;
    same_keys = b.same_keys ∙ a.same_keys;
    running = b.running;
  }

  track_score-Kept :
      (g : Game G) (p : Player)
      → Shape w h g
      → Values (IsRunning w h) g.players
      → Kept w h g (track_score g p)
  unfolding track_score
  track_score-Kept g p s run = elim (Bool-cases (ltb_ℤ g.high_score p.score)) [
    | inl e ↦
        rw (e, track_score)
          (record {
            shape = record { width = s.width; height = s.height; size = s.size };
            cells = refl;
            same = refl;
            same_keys = refl;
            running = run;
          })
    | inr e ↦ rw (e, track_score) (Kept-refl w h g s run)
  ]

  abbrev pub Known : Game G → ℤ → Type 0
  Known g id = (c : Cell) × (t : ℤ) × (lookup id (standing g.players) ≡ some (c, t))

  pub check_loop-Chosen :
      (ids : List ℤ) (g : Game G) (doomed : List ℤ)
      → Shape w h g
      → Distinct (keys g.players)
      → Values (IsRunning w h) g.players
      → All (Known g) ids
      → (g' : Game G) × (picked : List ℤ) × (check_loop ids g doomed ≡ ok (g', doomed ++ picked))
        × Kept w h g g'
        × Chosen w h (standing g.players) g.occupied ids picked
  unfolding check_loop player_at
  check_loop-Chosen [] g doomed s d run v =
      (g, [], rw (append-nil doomed), Kept-refl w h g s run, nobody)
  check_loop-Chosen (id ∷ ids) g doomed s d run ((c, t, l), v) =
      let (p, lp, ec, et) = standing-lookup id g.players l in
      let (g₁, b, e, k, verdict) = check_player-Verdict w h g id c t s d run l in
      let (q, eq, _) = player_at-standing g₁ id (ap (lookup id) k.same ∙ l) in
      let g₂ : Game G = track_score g₁ q in
      let k₂ = Kept-trans g g₁ g₂ k (track_score-Kept g₁ q k.shape k.running) in
      let later : All (Known g₂) ids =
        All-mono _ _ (λ j (x : Known g j). (x.0, x.1, rw k₂.same x.2)) ids v in
      let (g₃, picked, es, k₃, r) =
        check_loop-Chosen ids g₂ (if b then doomed ++ (id ∷ []) else doomed) k₂.shape
          (rw k₂.same_keys d) k₂.running later in
      let r' : Chosen w h (standing g.players) g.occupied ids picked =
        subst (λ x. Chosen w h x g.occupied ids picked) k₂.same
          (subst (λ x. Chosen w h (standing g₂.players) x ids picked) k₂.cells r) in
      elim (Bool-cases b) [
        | inl dead ↦ (
          g₃,
          id ∷ picked,
          simp (lp, ec, e, eq, dead) (simp (dead, append-snoc) at es),
          Kept-trans g g₂ g₃ k₂ k₃,
          destroyed id c t ids picked l (verdict.0 dead) r',
        )
        | inr spare ↦ (
          g₃,
          picked,
          simp (lp, ec, e, eq, spare) (simp spare at es),
          Kept-trans g g₂ g₃ k₂ k₃,
          spared id c t ids picked l (verdict.1 spare) r',
        )
      ]
