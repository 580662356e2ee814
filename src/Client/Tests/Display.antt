-- ===== src/Client/Tests/Display.antt =====
-- The game of Meadow on a screen.
use snake_multiplayer.Base.{◌≡◌, refl, Option, none, some}
use mathlib.Core.Option as Option
use snake_multiplayer.Base.Int.{pos, ◌*ℤ◌}
use snake_multiplayer.Base.{ℕ, List}
use snake_multiplayer.Base.Int.{ℤ}
use snake_multiplayer.Base.Map.{contains, assign}
use snake_multiplayer.Snake.{Cell, get_segments}
use snake_multiplayer.Server.State.{player_messages, food_message, food_messages, build_game_state}
use snake_multiplayer.Client.GameState.{player_data, add_players, food_data, from_protocol}
use snake_multiplayer.Client.Screen.{
  Drawn, render, render_arena, top_and_bottom, left_and_right, corners, render_char_to_screen,
  render_objects, render_object, render_players, render_player, render_body,
}
use snake_multiplayer.Client.Screen.Seen.{over, seen_at}
use snake_multiplayer.Client.Screen.Rendered.{IsRendered}
use snake_multiplayer.Client.Display.{broadcast-IsRendered}
use snake_multiplayer.Client.Meadow.{meadow}

abbrev displayed : Option (List Drawn)
displayed = render 4 3 (from_protocol (build_game_state meadow))

abbrev shown_at : Cell → Option (Option (ℕ × ℤ))
shown_at c = Option.map (seen_at c) displayed

-- A head, a body segment, food, a boost, a corner, an edge and an empty cell.
meadow_displayed :
    (shown_at (pos 2, pos 2) ≡ some (some (b'^', pos 1)))
    × (shown_at (pos 2, pos 3) ≡ some (some (b'c', pos 2)))
    × (shown_at (pos 4, pos 2) ≡ some (some (b'@', pos 1)))
    × (shown_at (pos 1, pos 1) ≡ some (some (b'%', pos 1)))
    × (shown_at (pos 5, pos 4) ≡ some (some (b'+', pos 1)))
    × (shown_at (pos 3, pos 4) ≡ some (some (b'-', pos 1)))
    × (shown_at (pos 3, pos 3) ≡ some none)
unfolding render render_arena top_and_bottom left_and_right corners render_char_to_screen
    render_objects render_object render_players render_player render_body over from_protocol
    build_game_state player_messages food_message food_messages player_data add_players food_data
    contains assign get_segments ◌*ℤ◌
meadow_displayed = (refl, refl, refl, refl, refl, refl, refl)

broadcast-IsRendered_example :
    (ds : List Drawn) × (render 4 3 (from_protocol (build_game_state meadow)) ≡ some ds)
    × IsRendered 4 3 (from_protocol (build_game_state meadow)) ds
broadcast-IsRendered_example = broadcast-IsRendered 4 3 meadow
