-- ===== src/Service/Life.antt =====
-- The plugin's life in the service: started by the plugin manager, called by the server, the scanner
-- and the flush thread, and cleaned up.
use esphome_linux.Base.{ℕ, ◌≡◌, Bool, false, Option, none, some, List, [], ◌∷◌, ◌==◌}
use esphome_linux.Plugin.{Context, Plugin, esphome_plugin_init_all}
use esphome_linux.Api.Server.{World, Node, System}
use esphome_linux.Scanner.Control.{Driver}
use esphome_linux.Scanner.Lifecycle.{DriverLaws}
use esphome_linux.Service.{Outside, ProxyHost, calloc_context, bluetooth_proxy_plugin}
use esphome_linux.Service.Radio.{Unseen, Sound}
use esphome_linux.Service.Sound.{SoundWorld, OffWorld}
use esphome_linux.Service.Registered.{registered}

module _ {V : Type 0} (system : System V) (driver : Driver V) (host : ProxyHost V)
    (scans : V → Bool) (threads : V → ℕ) (laws : DriverLaws driver scans threads)
    (no_scan : Unseen system driver host scans) (no_thread : Unseen system driver host threads)
    (build_time : List ℕ) where
  -- The state of the plugin and of the scanner agree, or the plugin is off.
  abbrev SoundNow : World (Outside V) → Type 0
  SoundNow = SoundWorld system driver host scans threads laws no_scan no_thread

  abbrev OffNow : World (Outside V) → Type 0
  OffNow = OffWorld system driver host scans threads laws no_scan no_thread

  abbrev StateOf : Option Context → World (Outside V) → Type 0
  StateOf none world = OffNow world
  StateOf (some ctx) world = ((ctx.plugin_data == 0) ≡ false) × SoundNow world

  -- A node with the plugin, which is off without a context.
  abbrev Lives : Option Context → Node (Outside V) → Type 0
  Lives ctx node =
      (node.plugins ≡ registered system driver host build_time ctx) × StateOf ctx node.world

  -- The node once the plugins are initialised, with the Bluetooth proxy alone registered.
  abbrev pub initialised : ℕ → ℕ → World (Outside V) → Node (Outside V)
  initialised server config world =
      let ready =
        esphome_plugin_init_all (calloc_context driver host) server config
          (bluetooth_proxy_plugin driver host ∷ []) world in
      record { world = ready.world; plugins = ready.plugins }
