-- ===== src/Api/Connections/Tests.antt =====
-- The theorems on the connections of src/esphome_api.c at a concrete run, in a system whose state is
-- the set of the open sockets.
use esphome_linux.Base.{
  ℕ, ◌≡◌, refl, Bool, true, false, some, [], arith, length, ◌==◌, if◌then◌else◌,
}
use esphome_linux.Api.Server.{DeviceConfig, Server, Node, System, esphome_api_init}
use esphome_linux.Api.Connections.{Sockets, esphome_api_stop}
use esphome_linux.Api.Connections.Descriptors.{holders, Descriptors, Opens}
use esphome_linux.Api.Connections.Ownership.{OwnsNode}
use esphome_linux.Api.Connections.Interleave.{
  starting, start, Reach, new, next, Reach-OwnsNode, Reach-esphome_api_stop,
}

abbrev OpenSockets : Type 0
OpenSockets = ℕ → Bool

abbrev system : System OpenSockets
system = record {
  send = λ fd bytes w. (some (length bytes), w);
  close = λ fd w x. if x == fd then false else w x;
  shutdown = λ fd w. w;
}

abbrev is_open : OpenSockets → ℕ → Bool
is_open w x = w x

laws : Descriptors system is_open
laws = record {
  close_opens = λ fd w x. refl;
  shutdown_opens = λ fd w x. refl;
  send_opens = λ fd bytes w x. refl;
}

abbrev config : DeviceConfig
config = record {
  device_name = [];
  mac_address = [];
  esphome_version = [];
  model = [];
  manufacturer = [];
  friendly_name = [];
  suggested_area = [];
}

abbrev fresh_node : Node OpenSockets
fresh_node = record {
  world = record { server = esphome_api_init config; outside = λ x. false };
  plugins = [];
}

abbrev with_socket : ℕ → OpenSockets → OpenSockets
with_socket fd w x = if x == fd then true else w x

abbrev answers : Sockets
answers = record { socket = 3; bind = 0; listen = 0 }

abbrev listening : Node OpenSockets
listening = record fresh_node {
  world = starting system is_open laws [] answers (with_socket 3 (λ x. false)) fresh_node.world;
}

third_socket : Opens system is_open laws 3 (λ x. false) (with_socket 3 (λ x. false))
third_socket x = ground arith

-- The server has started.
listening-Reach : Reach system is_open laws [] config listening
unfolding esphome_api_init
listening-Reach =
    next (new (record { server = refl; nothing_open = λ x. refl; plugins = tt }))
      (start answers (with_socket 3 (λ x. false)) refl third_socket)

Reach-OwnsNode_example : OwnsNode system is_open laws [] listening
Reach-OwnsNode_example = Reach-OwnsNode system is_open laws [] listening-Reach

Reach-esphome_api_stop_example :
    (server' : Server) × (w' : OpenSockets) × (esphome_api_stop system
        (some listening.world.server)
        listening.world.outside
      ≡ (some server', w'))
    × ((x : ℕ) → holders x server' ≡ 0)
    × ((x : ℕ) → is_open w' x ≡ false)
Reach-esphome_api_stop_example = Reach-esphome_api_stop system is_open laws [] listening-Reach
