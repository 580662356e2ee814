-- ===== src/Client/Screen/Seen.antt =====
-- What a screen shows at last, and the frame around the arena.
use snake_multiplayer.Base.{
  ℕ, zero, suc, ◌+◌, ◌≡◌, refl, sym, ◌∙◌, Bool, ◌&&◌, ◌||◌, arith, List, [], ◌∷◌, ◌++◌, Option,
  none, some, if◌then◌else◌,
}
use snake_multiplayer.Base.Int.{ℤ, pos, negsuc, ◌*ℤ◌, ◌==ℤ◌, leb_ℤ, ltb_ℤ}
use snake_multiplayer.Snake.{Cell}
use snake_multiplayer.Client.Screen.{
  Drawn, render_char_to_screen, white, top_and_bottom, left_and_right, corners, render_arena,
}

-- A later drawing over an earlier one.
unfoldable pub over : Option (ℕ × ℤ) → Option (ℕ × ℤ) → Option (ℕ × ℤ)
over none below = below
over (some v) below = some v

-- What was drawn at a place of the screen behind all else.
abbrev pub seen : ℤ → ℤ → List Drawn → Option (ℕ × ℤ)
seen row column [] = none
seen row column (d ∷ ds) =
    over (seen row column ds)
      (if (d.column ==ℤ column) && (d.row ==ℤ row) then some (d.character, d.color) else none)

-- What the screen shows for a cell of the game, which is two columns wide.
abbrev pub seen_at : Cell → List Drawn → Option (ℕ × ℤ)
seen_at (x, y) ds = seen y (x *ℤ pos 2) ds

scaled : (a x : ℤ) → (a *ℤ pos 2 ==ℤ x *ℤ pos 2) ≡ (a ==ℤ x)
unfolding ◌*ℤ◌
scaled (pos a) (pos x) = ground arith
scaled (pos a) (negsuc x) = ground arith
scaled (negsuc a) (pos x) = ground arith
scaled (negsuc a) (negsuc x) = ground arith

-- A character at a cell.
abbrev pub dot : ℤ → ℤ → ℕ → ℤ → Cell → Option (ℕ × ℤ)
dot a b ch color (x, y) = if (a ==ℤ x) && (b ==ℤ y) then some (ch, color) else none

pub seen_at-render_char_to_screen :
    (a b : ℤ) (ch : ℕ) (color : ℤ) (c : Cell) (ds : List Drawn)
    → seen_at c (render_char_to_screen a b ch color ∷ ds) ≡ over (seen_at c ds) (dot a b ch color c)
unfolding render_char_to_screen
seen_at-render_char_to_screen a b ch color (x, y) ds = rw (scaled a x) refl

over_assoc : (a b c : Option (ℕ × ℤ)) → over (over a b) c ≡ over a (over b c)
unfolding over
over_assoc none b c = refl
over_assoc (some a) b c = refl

over-none : (a : Option (ℕ × ℤ)) → over a none ≡ a
unfolding over
over-none none = refl
over-none (some a) = refl

seen-append :
    (row column : ℤ) (xs ys : List Drawn)
    → seen row column (xs ++ ys) ≡ over (seen row column ys) (seen row column xs)
seen-append row column [] ys = sym (over-none (seen row column ys))
seen-append row column (x ∷ xs) ys = rw (seen-append row column xs ys) (over_assoc _ _ _)

pub seen_at-append :
    (c : Cell) (xs ys : List Drawn) → seen_at c (xs ++ ys) ≡ over (seen_at c ys) (seen_at c xs)
seen_at-append (x, y) xs ys = seen-append y (x *ℤ pos 2) xs ys

abbrev across : ℕ → ℕ → ℕ → Cell → Bool
across h a n (x, y) =
    (leb_ℤ (pos a) x && ltb_ℤ x (pos (a + n))) && ((y ==ℤ pos 0) || (y ==ℤ pos (suc h)))

seen_at-pair :
    (a b a' b' : ℤ) (ch : ℕ) (c : Cell) (ds : List Drawn)
    → seen_at c (render_char_to_screen a b ch white ∷ render_char_to_screen a' b' ch white ∷ ds)
      ≡ over (over (seen_at c ds) (dot a' b' ch white c)) (dot a b ch white c)
seen_at-pair a b a' b' ch (x, y) ds =
    rw
      (seen_at-render_char_to_screen a b ch white (x, y)
        (render_char_to_screen a' b' ch white ∷ ds))
      (rw (seen_at-render_char_to_screen a' b' ch white (x, y) ds) refl)

top_and_bottom-seen_at :
    (h a n : ℕ) (c : Cell)
    → seen_at c (top_and_bottom h a n) ≡ (if across h a n c then some (b'-', white) else none)
unfolding top_and_bottom over
top_and_bottom-seen_at h a zero (x, y) = ground arith
top_and_bottom-seen_at h a (suc n) (x, y) =
    seen_at-pair (pos a) (pos 0) (pos a) (pos (suc h)) b'-' (x, y) (top_and_bottom h (suc a) n)
    ∙ rw (top_and_bottom-seen_at h (suc a) n (x, y)) (ground arith)

abbrev along : ℕ → ℕ → ℕ → Cell → Bool
along w b n (x, y) =
    (leb_ℤ (pos b) y && ltb_ℤ y (pos (b + n))) && ((x ==ℤ pos 0) || (x ==ℤ pos (suc w)))

left_and_right-seen_at :
    (w b n : ℕ) (c : Cell)
    → seen_at c (left_and_right w b n) ≡ (if along w b n c then some (b'|', white) else none)
unfolding left_and_right over
left_and_right-seen_at w b zero (x, y) = ground arith
left_and_right-seen_at w b (suc n) (x, y) =
    seen_at-pair (pos 0) (pos b) (pos (suc w)) (pos b) b'|' (x, y) (left_and_right w (suc b) n)
    ∙ rw (left_and_right-seen_at w (suc b) n (x, y)) (ground arith)

abbrev corner : ℕ → ℕ → Cell → Bool
corner w h (x, y) = ((x ==ℤ pos 0) || (x ==ℤ pos (suc w))) && ((y ==ℤ pos 0) || (y ==ℤ pos (suc h)))

corners-seen_at :
    (w h : ℕ) (c : Cell)
    → seen_at c (corners w h) ≡ (if corner w h c then some (b'+', white) else none)
unfolding corners over
corners-seen_at w h (x, y) =
    seen_at-pair (pos 0) (pos 0) (pos (suc w)) (pos 0) b'+' (x, y)
      (render_char_to_screen (pos 0) (pos (suc h)) b'+' white
        ∷ render_char_to_screen (pos (suc w)) (pos (suc h)) b'+' white
        ∷ [])
    ∙ rw (seen_at-pair (pos 0) (pos (suc h)) (pos (suc w)) (pos (suc h)) b'+' (x, y) [])
        (ground arith)

-- The frame around an arena: the corners, the edges, and nothing within or without.
abbrev pub frame : ℕ → ℕ → Cell → Option (ℕ × ℤ)
frame w h c =
    if corner w h c
    then some (b'+', white)
    else if across h 1 w c
    then some (b'-', white)
    else if along w 1 h c
    then some (b'|', white)
    else none

pub render_arena-seen_at : (w h : ℕ) (c : Cell) → seen_at c (render_arena w h) ≡ frame w h c
unfolding render_arena over
render_arena-seen_at w h (x, y) =
    rw (seen_at-append (x, y) (top_and_bottom h 1 w ++ left_and_right w 1 h) (corners w h)) (
      rw (seen_at-append (x, y) (top_and_bottom h 1 w) (left_and_right w 1 h)) (
        rw (corners-seen_at w h (x, y)) (
          rw (left_and_right-seen_at w 1 h (x, y))
            (rw (top_and_bottom-seen_at h 1 w (x, y)) (ground arith)))))
