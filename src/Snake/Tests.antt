-- ===== src/Snake/Tests.antt =====
-- A snake of three segments.
use snake_multiplayer.Base.{◌≡◌, ◌∷◌}
use snake_multiplayer.Base.Int.{pos, negsuc, ◌+ℤ◌}
use snake_multiplayer.Snake.{PlayerNode, end, node, head_cell, move, grow, get_segments}
use snake_multiplayer.Snake.Motion.{front, get_segments-move, get_segments-grow-move}

abbrev a_snake : PlayerNode
a_snake =
    node (record { at = (pos 5, pos 5); prev = (pos 5, pos 6) })
      (node (record { at = (pos 5, pos 6); prev = (pos 5, pos 7) })
        (end (record { at = (pos 5, pos 7); prev = (pos 4, pos 7) })))

get_segments-move_example :
    get_segments (move a_snake (negsuc 0) (pos 0))
    ≡ ((head_cell a_snake).0 +ℤ negsuc 0, (head_cell a_snake).1 +ℤ pos 0)
      ∷ front (get_segments a_snake)
get_segments-move_example = get_segments-move a_snake (negsuc 0) (pos 0)

get_segments-grow-move_example :
    get_segments (grow (move a_snake (pos 1) (pos 0)))
    ≡ ((head_cell a_snake).0 +ℤ pos 1, (head_cell a_snake).1 +ℤ pos 0) ∷ get_segments a_snake
get_segments-grow-move_example = get_segments-grow-move a_snake (pos 1) (pos 0)
