-- ===== src/Daemon.antt =====
-- The service, src/main.c: what it asks of the host, the configuration, and its life from the start to
-- the end. Signals and the output are left out.
pub mod Shutdown
pub mod SocketList
mod Tests
use esphome_linux.Base.{
  ℕ, ◌-◌, Bool, true, false, not, Option, none, some, List, [], ◌∷◌, take, if◌then◌else◌,
}
use esphome_linux.Base.Hex.{print_address}
use esphome_linux.Plugin.{
  Plugin, minus_one, is_negative, esphome_plugin_init_all, esphome_plugin_cleanup_all,
}
use esphome_linux.Api.Server.{DeviceConfig, Server, World, Node, System, esphome_api_init}
use esphome_linux.Api.Connections.{Sockets, esphome_api_start, esphome_api_stop, esphome_api_free}

-- What the service asks of the host. `gethostname` answers a text or fails; `hwaddr` is the `ioctl` for
-- the six bytes of an interface's address; `sockets` is what `socket`, `bind` and `listen` answer when
-- the server starts, with the world after `socket`.
pub record Host (W : Type 0) : Type 0 where
  pub calloc : W → Bool × W
  pub gethostname : W → Option (List ℕ) × W
  pub socket : W → ℕ × W
  pub hwaddr : List ℕ → W → Option (List ℕ) × W
  pub sockets : W → Sockets × W

-- "eth0", "wlan0", "ra0" and "br-lan"
abbrev pub ifaces : List (List ℕ)
ifaces =
    (101 ∷ 116 ∷ 104 ∷ 48 ∷ [])
    ∷ (119 ∷ 108 ∷ 97 ∷ 110 ∷ 48 ∷ [])
    ∷ (114 ∷ 97 ∷ 48 ∷ [])
    ∷ (98 ∷ 114 ∷ 45 ∷ 108 ∷ 97 ∷ 110 ∷ [])
    ∷ []

-- "thingino-proxy"
abbrev pub default_hostname : List ℕ
default_hostname =
    116 ∷ 104 ∷ 105 ∷ 110 ∷ 103 ∷ 105 ∷ 110 ∷ 111 ∷ 45 ∷ 112 ∷ 114 ∷ 111 ∷ 120 ∷ 121 ∷ []

-- "00:00:00:00:00:00"
abbrev pub default_mac_address : List ℕ
default_mac_address = print_address 65 (0 ∷ 0 ∷ 0 ∷ 0 ∷ 0 ∷ 0 ∷ [])

-- The version is "2025.12.0", the model "ESPHome Linux" and the manufacturer "Thingino".
abbrev pub device_config : List ℕ → List ℕ → DeviceConfig
device_config hostname mac_address = record {
  device_name = take 127 hostname;
  mac_address = take 23 mac_address;
  esphome_version = 50 ∷ 48 ∷ 50 ∷ 53 ∷ 46 ∷ 49 ∷ 50 ∷ 46 ∷ 48 ∷ [];
  model = 69 ∷ 83 ∷ 80 ∷ 72 ∷ 111 ∷ 109 ∷ 101 ∷ 32 ∷ 76 ∷ 105 ∷ 110 ∷ 117 ∷ 120 ∷ [];
  manufacturer = 84 ∷ 104 ∷ 105 ∷ 110 ∷ 103 ∷ 105 ∷ 110 ∷ 111 ∷ [];
  friendly_name = take 127 hostname;
  suggested_area = [];
}

-- What `main` leaves: its exit status, the plugins and the world.
pub record Exit (W : Type 0) : Type 0 where
  pub status : ℕ
  pub plugins : List (Plugin (World W))
  pub world : W

module _ {W : Type 0} (system : System W) where
  -- Cleaning up when the signal has come.
  unfoldable pub shut_down : Node W → Exit W
  shut_down node =
      let (plugins, world) = esphome_plugin_cleanup_all node.plugins node.world in
      let (server, w) = esphome_api_stop system (some world.server) world.outside in
      record { status = 0; plugins = plugins; world = esphome_api_free system server w }

module _ {W : Type 0} (system : System W) (host : Host W) where
  -- The first interface that answers.
  unfoldable pub try_ifaces : List (List ℕ) → W → Option (List ℕ) × W
  try_ifaces [] w = (none, w)
  try_ifaces (iface ∷ later) w =
      let (answer, w') = host.hwaddr iface w in
      let rest = try_ifaces later w' in elim answer [ some mac ↦ (some mac, w') | none ↦ rest ]

  -- The answer, what `mac_str` holds, and the world.
  unfoldable pub get_mac_address : List ℕ → ℕ → W → ℕ × (List ℕ × W)
  unfolding try_ifaces
  get_mac_address mac_str size w =
      let (fd, w1) = host.socket w in
      let (answer, w2) = try_ifaces ifaces w1 in
      if is_negative fd then (minus_one, (mac_str, w1)) else elim answer [
        | none ↦ (minus_one, (mac_str, system.close fd w2))
        | some mac ↦ (0, (take (size - 1) (print_address 65 mac), system.close fd w2))
      ]

  unfoldable pub get_hostname : List ℕ → W → ℕ × (List ℕ × W)
  get_hostname hostname w =
      let (answer, w') = host.gethostname w in
      elim answer [ none ↦ (minus_one, (hostname, w')) | some name ↦ (0, (name, w')) ]

  abbrev pub calloc_world : World W → Bool × World W
  calloc_world world =
      let (allocated, w) = host.calloc world.outside in (allocated, record world { outside = w })

  -- The service once the server has started; `serve` is what happens until the signal comes, and the
  -- numbers are the addresses of the server and of its configuration.
  unfoldable pub run_service :
      (Node W → Node W) → ℕ → ℕ → List (Plugin (World W)) → World W → Exit W
  unfolding shut_down
  run_service serve server config plugins world =
      let ready = esphome_plugin_init_all calloc_world server config plugins world in
      shut_down system (serve (record { world = ready.world; plugins = ready.plugins }))

  unfoldable pub main : (Node W → Node W) → ℕ → ℕ → List (Plugin (World W)) → W → Exit W
  unfolding get_mac_address get_hostname run_service
  main serve server_address config_address plugins w =
      let (h, (hostname, w1)) = get_hostname default_hostname w in
      let (m, (mac_address, w2)) = get_mac_address default_mac_address 24 w1 in
      let (allocated, w3) = host.calloc w2 in
      let server = esphome_api_init (device_config hostname mac_address) in
      let (answers, w4) = host.sockets w3 in
      let (started, (server', w5)) = esphome_api_start system answers server w4 in
      if not allocated
      then record { status = 1; plugins = plugins; world = w3 }
      else if is_negative started
      then record {
        status = 1;
        plugins = plugins;
        world = esphome_api_free system (some server') w5;
      }
      else run_service serve server_address config_address plugins
          (record { server = server'; outside = w5 })
