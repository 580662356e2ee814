-- ===== src/Protocol/Types/MessageType.antt =====
-- `enum class MessageType : int32_t` of include/common/Protocol.h.
use snake_multiplayer.Base.Int.{ℤ, pos}

abbrev pub server_config : ℤ
server_config = pos 0

abbrev pub client_join : ℤ
client_join = pos 1

abbrev pub client_disconnect : ℤ
client_disconnect = pos 2

abbrev pub server_welcome : ℤ
server_welcome = pos 3

abbrev pub client_input : ℤ
client_input = pos 4

abbrev pub game_state : ℤ
game_state = pos 5
