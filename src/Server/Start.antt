-- ===== src/Server/Start.antt =====
-- How a server starts: include/snake_server/ServerConfig.h, the constructor of `SnakeServer` and
-- `recordServerConfig`. The seed of a live server is what `std::random_device` gives.
use snake_multiplayer.Base.{
  ℕ, ◌*◌, ◌≡◌, refl, Bool, false, List, [], ◌++◌, Option, none, some, arith, replicate, Result, ok,
  err, assertion_failed, length-append,
}
use snake_multiplayer.Base.Int.{ℤ, pos, negsuc}
use snake_multiplayer.Protocol.Bytes.{IsI64, IsU32}
use snake_multiplayer.Protocol.Types.{
  ServerConfig, MessageVariant, header, with_header, server_config, client_input, client_disconnect,
  server_welcome, client_join, game_state,
}
use snake_multiplayer.Protocol.Types.MessageType
use snake_multiplayer.Protocol.Write.{serialise, serialise_header}
use snake_multiplayer.Protocol.Layout.{
  length-serialise_header, server_config_layout, server_config_bytes,
}
use snake_multiplayer.Protocol.RoundTrip.{length-server_config_bytes}
use snake_multiplayer.Frame.{frame}
use snake_multiplayer.MessageLog.{open_log, first, log}
use snake_multiplayer.MessageLog.Replay.{IsRecordable, read_record-frame}
use snake_multiplayer.Engine.State.{
  min_food_in_arena, food_spawn_from_body_segment_probability, speed_boost_probability,
}
use snake_multiplayer.Server.State.{SnakeServer, new_header, stamp_message}
use snake_multiplayer.Server.Handle.{record_message}

-- `ServerConfig`, without the name of the application and the port.
pub record Config : Type 0 where
  pub width : ℕ
  pub height : ℕ
  pub seed : ℕ
  pub movement_frequency_ms : ℕ
  pub boosted_movement_frequency_ms : ℕ
  pub boost_duration_ms : ℕ

-- The constants of include/common/Constants.h. The ratio is the `float` 1.5, as its 32 bits.
abbrev pub arena_width : ℕ
arena_width = 40

abbrev pub arena_height : ℕ
arena_height = 40

abbrev pub movement_frequency : ℕ
movement_frequency = 200

abbrev pub boosted_movement_frequency : ℕ
boosted_movement_frequency = 133

abbrev pub speed_boost_duration : ℕ
speed_boost_duration = 8_000

abbrev pub speed_boost_ratio : ℕ
speed_boost_ratio = 1_069_547_520

abbrev pub config_of : ℕ → Config
config_of seed = record {
  width = arena_width;
  height = arena_height;
  seed = seed;
  movement_frequency_ms = movement_frequency;
  boosted_movement_frequency_ms = boosted_movement_frequency;
  boost_duration_ms = speed_boost_duration;
}

-- `initServerConfig`, where `random` is what the random device gives.
unfoldable pub init_server_config : ℕ → Option MessageVariant → Result Config
init_server_config random none = ok (config_of random)
init_server_config random (some (server_config m)) = ok (config_of m.seed)
init_server_config random (some (client_input m)) = err assertion_failed
init_server_config random (some (client_disconnect m)) = err assertion_failed
init_server_config random (some (server_welcome m)) = err assertion_failed
init_server_config random (some (client_join m)) = err assertion_failed
init_server_config random (some (game_state m)) = err assertion_failed

module _ {G : Type 0} (seeded : ℕ → G) where
  -- The constructor, at the time `now`; `seeded` makes the generator. A server that reads a log is in a
  -- replay.
  unfoldable pub new_server : Config → ℤ → Bool → SnakeServer G
  new_server config now in_replay = record {
    game = record {
      width = pos config.width;
      height = pos config.height;
      movement_frequency_ms = config.movement_frequency_ms;
      boosted_movement_frequency_ms = config.boosted_movement_frequency_ms;
      boost_duration_ms = config.boost_duration_ms;
      current_tick = now;
      gen = seeded config.seed;
      high_score_name = [];
      high_score = pos 0;
      players = [];
      occupied = replicate (config.width * config.height) 0;
      food = [];
      speed_boosts = [];
    };
    current_sequence = pos 0;
    message_log = [];
    in_replay = in_replay;
    client_ids = [];
    sent = [];
  }

-- The message of `recordServerConfig`. The client id is that of `Header`'s initialiser.
unfoldable pub config_message : Config → ServerConfig
config_message c = record {
  hdr = new_header MessageType.server_config (negsuc 0);
  width = pos c.width;
  height = pos c.height;
  seed = c.seed;
  min_food_in_arena = pos min_food_in_arena;
  food_spawn_from_body_segment_probability = food_spawn_from_body_segment_probability;
  speed_boost_probability = speed_boost_probability;
  speed_boost_ratio = speed_boost_ratio;
  movement_frequency_ms = pos c.movement_frequency_ms;
  boosted_movement_frequency_ms = pos c.boosted_movement_frequency_ms;
  boost_duration_ms = pos c.boost_duration_ms;
}

unfoldable pub record_server_config : {G : Type 0} → Config → SnakeServer G → SnakeServer G
record_server_config c s = record_message s (server_config (config_message c))

module _ {G : Type 0} (seeded : ℕ → G) (seed : ℕ) (now : ℤ) where
  abbrev pub started : SnakeServer G
  started = record_server_config (config_of seed) (new_server seeded (config_of seed) now false)

  -- What is logged: the message with number 0 and the time.
  abbrev announced : ServerConfig
  announced = record (config_message (config_of seed)) {
    hdr = record {
      message_type = MessageType.server_config;
      client_id = negsuc 0;
      sequence = pos 0;
      transact_time = now;
    };
  }

  started_lem : started.message_log ≡ frame (serialise (server_config announced))
  unfolding record_server_config record_message log stamp_message new_server with_header header
      config_message
  started_lem = refl

  announced-IsRecordable : IsU32 seed → IsI64 now → IsRecordable (server_config announced)
  unfolding serialise config_message
  announced-IsRecordable fits time = (
    record {
      hdr = record {
        kind = refl;
        kind_fits = omega arith;
        client_id_fits = omega arith;
        sequence_fits = omega arith;
        transact_time_fits = time;
      };
      width = omega arith;
      height = omega arith;
      seed = fits;
      min_food = omega arith;
      spawn = omega arith;
      boost = omega arith;
      ratio = omega arith;
      frequency = omega arith;
      boosted_frequency = omega arith;
      duration = omega arith;
    },
    rw (server_config_layout announced) (
        omega (
          arith,
          length-append (serialise_header announced.hdr) (server_config_bytes announced),
          length-serialise_header announced.hdr,
          length-server_config_bytes announced,
        )),
  )

  -- A live server starts with the seed of the random device and logs its configuration. When a server
  -- is started on this log, with whatever was logged behind, the first record is found, its
  -- configuration is that of the live server, whatever the random device gives now, and what was
  -- logged behind is left to be replayed.
  pub first-record_server_config :
      (rest : List ℕ) (random : ℕ)
      → IsU32 seed
      → IsI64 now
      → (m : MessageVariant) × (first (open_log (started.message_log ++ rest))
          ≡ ok (some m, open_log rest))
        × (init_server_config random (some m) ≡ init_server_config seed none)
  unfolding first init_server_config config_message
  first-record_server_config rest random fits time =
      let found =
        read_record-frame (server_config announced) rest (announced-IsRecordable fits time) in
      (server_config announced, rw started_lem (rw found refl), refl)
