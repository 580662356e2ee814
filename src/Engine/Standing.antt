-- ===== src/Engine/Standing.antt =====
-- What decides over a player in `checkCollisions`: where its head is, and when it is due. The
-- loop changes neither, while it feeds and boosts.
use snake_multiplayer.Base.{
  ◌≡◌, ◌≢◌, refl, ap, sym, ◌∙◌, subst, ◌∈◌, inl, inr, List, [], ◌∷◌, All, some, none, Bool-cases,
}
use snake_multiplayer.Base.Int.{ℤ, ◌==ℤ◌, ==ℤ→eq, ==ℤ_refl}
use snake_multiplayer.Base.Map.{
  lookup, modify, keys, int_key, cell_key, cell_beq, cell_beq→eq, cell_beq_refl,
}
use snake_multiplayer.Base.Map.Laws.{Distinct, lookup_away, modify_away}
use snake_multiplayer.Snake.{Cell, head_cell}
use snake_multiplayer.Engine.State.{Player}
use snake_multiplayer.Engine.Collide.{heads_in_cell}

abbrev pub Standing : Type 0
Standing = List (ℤ × (Cell × ℤ))

abbrev pub standing : List (ℤ × Player) → Standing
standing [] = []
standing ((id, p) ∷ ps) = (id, (head_cell p.head, p.next_move_time)) ∷ standing ps

pub keys-standing : (ps : List (ℤ × Player)) → keys (standing ps) ≡ keys ps
keys-standing [] = refl
keys-standing ((id, p) ∷ ps) = ap (λ (ks : List ℤ). id ∷ ks) (keys-standing ps)

-- The standing of a player, read off the map.
pub standing-lookup :
    (id : ℤ) (ps : List (ℤ × Player)) {c : Cell} {t : ℤ}
    → lookup id (standing ps) ≡ some (c, t)
    → (p : Player) × (lookup id ps ≡ some p) × (head_cell p.head ≡ c) × (p.next_move_time ≡ t)
unfolding lookup
standing-lookup id [] h = cc
standing-lookup id ((j, p) ∷ ps) h = elim (Bool-cases (j ==ℤ id)) [
  | inl hit ↦ (p, rw hit, cc (rw hit at h), cc (rw hit at h))
  | inr miss ↦ rw miss (standing-lookup id ps (rw miss at h))
]

pub lookup-standing :
    (id : ℤ) (ps : List (ℤ × Player)) {p : Player}
    → lookup id ps ≡ some p
    → lookup id (standing ps) ≡ some (head_cell p.head, p.next_move_time)
unfolding lookup
lookup-standing id [] h = cc
lookup-standing id ((j, q) ∷ ps) h = elim (Bool-cases (j ==ℤ id)) [
  | inl hit ↦ rw hit (cc (rw hit at h))
  | inr miss ↦ rw miss (lookup-standing id ps (rw miss at h))
]

-- A change of a player that moves neither its head nor its time.
pub standing-modify :
    (id : ℤ) (q : Player) (ps : List (ℤ × Player)) {p : Player}
    → Distinct (keys ps)
    → lookup id ps ≡ some p
    → head_cell q.head ≡ head_cell p.head
    → q.next_move_time ≡ p.next_move_time
    → standing (modify id (λ _. q) ps) ≡ standing ps
unfolding lookup modify
standing-modify id q [] d h ec et = cc
standing-modify id q ((j, p₀) ∷ ps) {p} d h ec et = elim (Bool-cases (j ==ℤ id)) [
  | inl hit ↦
      let away : All (λ i. i ≢ id) (keys ps) =
        subst (λ k. All (λ i. i ≢ k) (keys ps)) (==ℤ→eq j id hit) d.0 in
      let same : p₀ ≡ p = cc (rw hit at h) in
      let head = ec ∙ ap (λ (r : Player). head_cell r.head) (sym same) in
      let time = et ∙ ap (λ (r : Player). r.next_move_time) (sym same) in
      rw hit (rw (modify_away id (λ _. q) ps away) (cc (head, time)))
  | inr miss ↦ rw miss (
      ap (λ (x : Standing). (j, (head_cell p₀.head, p₀.next_move_time)) ∷ x)
        (standing-modify id q ps d.1 (rw miss at h) ec et))
]

-- The ids that `getPlayerHeadsInCell` returns are those of the players in the cell.
pub heads_in_cell-mem :
    (ps : List (ℤ × Player)) (c : Cell) (a : ℤ)
    → Distinct (keys ps)
    → a ∈ heads_in_cell ps c
    → (t : ℤ) × (lookup a (standing ps) ≡ some (c, t))
unfolding lookup heads_in_cell
heads_in_cell-mem [] c a d h = absurd h
heads_in_cell-mem ((j, p) ∷ ps) c a d h = elim (Bool-cases (cell_beq (head_cell p.head) c)) [
  | inl here ↦ elim (rw here at h) [
    | inl e ↦ (p.next_move_time, rw (e, ==ℤ_refl j) (cc (cell_beq→eq (head_cell p.head) c here)))
    | inr later ↦ step (heads_in_cell-mem ps c a d.1 later)
  ]
  | inr there ↦ step (heads_in_cell-mem ps c a d.1 (rw there at h))
]
  where
    absent : lookup j (standing ps) ≡ none
    absent = lookup_away j (standing ps) (rw (keys-standing ps) d.0)

    step :
        (t : ℤ) × (lookup a (standing ps) ≡ some (c, t))
        → (t : ℤ) × (lookup a (standing ((j, p) ∷ ps)) ≡ some (c, t))
    step (t, e) = elim (Bool-cases (j ==ℤ a)) [
      | inl hit ↦ cc (e, absent, ==ℤ→eq j a hit)
      | inr miss ↦ (t, rw miss e)
    ]

pub mem-heads_in_cell :
    (ps : List (ℤ × Player)) (c : Cell) (a t : ℤ)
    → lookup a (standing ps) ≡ some (c, t)
    → a ∈ heads_in_cell ps c
unfolding lookup heads_in_cell
mem-heads_in_cell [] c a t h = cc
mem-heads_in_cell ((j, p) ∷ ps) c a t h = elim (Bool-cases (j ==ℤ a)) [
  | inl hit ↦
      let e : head_cell p.head ≡ c = cc (rw hit at h) in
      rw (e, cell_beq_refl c) (inl (sym (==ℤ→eq j a hit)))
  | inr miss ↦ elim (Bool-cases (cell_beq (head_cell p.head) c)) [
    | inl here ↦ rw here (inr (mem-heads_in_cell ps c a t (rw miss at h)))
    | inr there ↦ rw there (mem-heads_in_cell ps c a t (rw miss at h))
  ]
]
