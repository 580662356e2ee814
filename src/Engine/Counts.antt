-- ===== src/Engine/Counts.antt =====
-- What the counts in `occupiedCellsBodies` count.
use snake_multiplayer.Base.{
  subst, ok_inj, ℕ, zero, suc, ◌+◌, ◌*◌, ◌%◌, ◌^◌, ◌≤◌, ◌<◌, ◌≡◌, refl, ap, sym, ◌∙◌, inl, inr,
  true, false, List, [], ◌∷◌, arith, length, All, set, get_elem?, get_elem?-lt, get_elem?-set_self,
  get_elem?-set_ne, length-set, some, ok, ◌>>=◌, or_throw, Bool-cases, if◌then◌else◌, ltb,
}
use native.Mathlib.Nat.{mul-le-mul_right}
use snake_multiplayer.Base.Int.{ℤ, pos, negsuc, ◌+ℤ◌, ◌*ℤ◌}
use snake_multiplayer.Base.Map.{cell_beq, cell_beq→eq, cell_beq_refl}
use snake_multiplayer.Snake.{Cell}
use snake_multiplayer.Engine.Move.{occupied_at, cell_index, bump, bump_all}
use snake_multiplayer.Engine.Arena.{Bodies, InArena, cell_index-lt}

row_le : (w a b c d : ℕ) → c < w → b * w + a ≡ d * w + c → b ≤ d
row_le w a b c d lc e = elim (Bool-cases (ltb d b)) [
  | inl x ↦ absurd (omega (arith, mul-le-mul_right w (above d b x)))
  | inr x ↦ ground arith
]
  where
    above : (m n : ℕ) → ltb m n ≡ true → suc m ≤ n
    above m n x = ground arith

flat_inj : (w a b c d : ℕ) → a < w → c < w → b * w + a ≡ d * w + c → (a ≡ c) × (b ≡ d)
flat_inj w a b c d la lc e =
    let up = row_le w a b c d lc e in
    let down = row_le w c d a b la (sym e) in
    let same : b ≡ d = omega (arith, up, down) in (omega (arith, ap (λ (k : ℕ). k * w) same), same)

pub at_index :
    (cells : List ℕ) (z : ℤ) (i n : ℕ)
    → z ≡ pos i
    → get_elem? cells i ≡ some n
    → occupied_at cells z ≡ ok n
unfolding occupied_at
at_index cells z i n e g = rw (e, occupied_at) (rw (g, or_throw))

some_inj : (a b : ℕ) → some a ≡ some b → a ≡ b
some_inj a b e = cc e

pos_inj : (a b : ℕ) → pos a ≡ pos b → a ≡ b
pos_inj a b e = cc e

-- How often a cell is in a list.
abbrev pub count : Cell → List Cell → ℕ
count c [] = 0
count c (d ∷ ds) = (if cell_beq d c then 1 else 0) + count c ds

module _ (w h : ℕ) where
  -- A cell of the arena by its offsets.
  offsets :
      (c : Cell) → InArena w h c → (a b : ℕ) × (c ≡ (pos (suc a), pos (suc b))) × (a < w) × (b < h)
  offsets (pos (suc a), pos (suc b)) v = (a, b, refl, omega arith, omega arith)
  offsets (pos zero, y) v = absurd (omega arith)
  offsets (pos (suc a), pos zero) v = absurd (omega arith)
  offsets (pos (suc a), negsuc b) v = absurd (omega arith)
  offsets (negsuc a, y) v = absurd (omega arith)

  cell_index_at : (a b : ℕ) → cell_index (pos w) (pos (suc a), pos (suc b)) ≡ pos (b * w + a)
  unfolding cell_index ◌+ℤ◌ ◌*ℤ◌
  cell_index_at a b = ground arith

  cell_index_inj :
      (c d : Cell)
      → InArena w h c
      → InArena w h d
      → cell_index (pos w) c ≡ cell_index (pos w) d
      → c ≡ d
  cell_index_inj c d vc vd e =
      let (a, b, ec, la, lb) = offsets c vc in
      let (a', b', ed, la', lb') = offsets d vd in
      let flat : pos (b * w + a) ≡ pos (b' * w + a') =
        sym (cell_index_at a b)
        ∙ ap (cell_index (pos w)) (sym ec)
        ∙ e
        ∙ ap (cell_index (pos w)) ed
        ∙ cell_index_at a' b' in
      let same = flat_inj w a b a' b' la la' (cc flat) in ec ∙ cc (same.0, same.1) ∙ sym ed

  bump-count :
      (cells : List ℕ) (c d : Cell) (n : ℕ)
      → length cells ≡ h * w
      → InArena w h c
      → InArena w h d
      → n < 2 ^ 16
      → Bodies w cells c n
      → (once : List ℕ) × (bump cells (cell_index (pos w) d) ≡ ok once)
        × (length once ≡ h * w)
        × Bodies w once c ((n + (if cell_beq d c then 1 else 0)) % 2 ^ 16)
  unfolding bump occupied_at
  bump-count cells c d n size vc vd small known =
      let (i, ei, li) = cell_index-lt w h c vc in
      let (j, ej, lj) = cell_index-lt w h d vd in
      let (m, r) = get_elem?-lt cells j (rw size lj) in
      let (k, rk) = get_elem?-lt cells i (rw size li) in
      let was : k ≡ n =
        ok_inj k n (sym (at_index cells (cell_index (pos w) c) i k ei rk) ∙ known) in
      (
        set cells j ((m + 1) % 2 ^ 16),
        rw (ej, bump) (rw (r, ◌>>=◌)),
        length-set cells j _ ∙ size,
        at_index _ (cell_index (pos w) c) i _ ei (elim (Bool-cases (cell_beq d c)) [
          | inl here ↦
              let same : d ≡ c = cell_beq→eq d c here in
              let index : j ≡ i = pos_inj j i (sym ej ∙ ap (cell_index (pos w)) same ∙ ei) in
              let value : m ≡ n =
                some_inj m n (sym r ∙ ap (get_elem? cells) index ∙ rk ∙ ap some was) in
              rw (here, index)
                (get_elem?-set_self cells i _ (rw size li)
                  ∙ ap (λ (x : ℕ). some ((x + 1) % 2 ^ 16)) value)
          | inr there ↦ rw there (
              get_elem?-set_ne cells _
                (λ e. apart there (cell_index_inj d c vd vc (ej ∙ ap pos e ∙ sym ei)))
              ∙ rk
              ∙ ap some (was ∙ unchanged n small))
        ]),
      )
    where
      apart : cell_beq d c ≡ false → d ≡ c → ⊥
      apart f e = cc (f, e, cell_beq_refl c)

      unchanged : (x : ℕ) → x < 2 ^ 16 → x ≡ (x + 0) % 2 ^ 16
      unchanged x lt = omega arith

  -- In a vector with one count for each cell of the arena, counting the cells of a body in the arena
  -- does not throw, and raises the count of each cell by the number of times that the body is there,
  -- up to the wrap-around of `uint16_t`.
  pub bump_all-count :
      (cs : List Cell) (cells : List ℕ) (c : Cell) (n : ℕ)
      → length cells ≡ h * w
      → InArena w h c
      → All (InArena w h) cs
      → n < 2 ^ 16
      → Bodies w cells c n
      → (cells' : List ℕ) × (bump_all (pos w) cs cells ≡ ok cells')
        × (length cells' ≡ h * w)
        × Bodies w cells' c ((n + count c cs) % 2 ^ 16)
  unfolding bump_all
  bump_all-count [] cells c n size vc v small known =
      (cells, refl, size, known ∙ ap (λ (x : ℕ). ok x) (stays n small))
    where
      stays : (x : ℕ) → x < 2 ^ 16 → x ≡ (x + 0) % 2 ^ 16
      stays x lt = omega arith
  bump_all-count (d ∷ cs) cells c n size vc (vd, v) small known =
      let (once, e, size₁, known₁) = bump-count cells c d n size vc vd small known in
      let step : ℕ = if cell_beq d c then 1 else 0 in
      let (all, es, size₂, known₂) =
        bump_all-count cs once c ((n + step) % 2 ^ 16) size₁ vc v (below (n + step)) known₁ in
      (all, rw (e, bump_all) es, size₂, known₂ ∙ ap (λ (x : ℕ). ok x) (collect n step (count c cs)))
    where
      below : (x : ℕ) → x % 2 ^ 16 < 2 ^ 16
      below x = omega arith

      collect : (x y z : ℕ) → ((x + y) % 2 ^ 16 + z) % 2 ^ 16 ≡ (x + (y + z)) % 2 ^ 16
      collect x y z = omega arith

  bump-ok :
      (cells : List ℕ) (c : Cell)
      → length cells ≡ h * w
      → InArena w h c
      → (cells' : List ℕ) × (bump cells (cell_index (pos w) c) ≡ ok cells')
        × (length cells' ≡ h * w)
  unfolding bump
  bump-ok cells c n v =
      let (i, e, lt) = cell_index-lt w h c v in
      let (a, r) = get_elem?-lt cells i (omega arith) in
      (set cells i ((a + 1) % 2 ^ 16), rw (e, bump) (rw (r, ◌>>=◌)), length-set cells i _ ∙ n)

  bump_all-ok :
      (cs : List Cell) (cells : List ℕ)
      → length cells ≡ h * w
      → All (InArena w h) cs
      → (cells' : List ℕ) × (bump_all (pos w) cs cells ≡ ok cells') × (length cells' ≡ h * w)
  unfolding bump_all
  bump_all-ok [] cells n v = (cells, refl, n)
  bump_all-ok (c ∷ cs) cells n v =
      let (once, e, m) = bump-ok cells c n v.0 in
      let (all, es, k) = bump_all-ok cs once m v.1 in (all, rw (e, bump_all) es, k)

  -- The counts after the cells of `cs` were counted too.
  abbrev pub Counts : List ℕ → List ℕ → List Cell → Type 0
  Counts cells cells' cs =
      (c : Cell) (n : ℕ)
      → InArena w h c
      → n < 2 ^ 16
      → Bodies w cells c n
      → Bodies w cells' c ((n + count c cs) % 2 ^ 16)

  pub bump_all-Counts :
      (cs : List Cell) (cells : List ℕ)
      → length cells ≡ h * w
      → All (InArena w h) cs
      → (cells' : List ℕ) × (bump_all (pos w) cs cells ≡ ok cells')
        × (length cells' ≡ h * w)
        × Counts cells cells' cs
  bump_all-Counts cs cells size v =
      let (cells', e, size') = bump_all-ok cs cells size v in
      (
        cells',
        e,
        size',
        λ c n vc small known.
            let (other, e', _, counted) = bump_all-count cs cells c n size vc v small known in
            subst (λ x. Bodies w x c ((n + count c cs) % 2 ^ 16)) (ok_inj other cells' (sym e' ∙ e))
              counted,
      )
