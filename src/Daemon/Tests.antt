-- ===== src/Daemon/Tests.antt =====
-- The theorem on src/main.c at a concrete host.
use esphome_linux.Base.{ℕ, ◌≡◌, ◌⊎◌, refl, List, []}
use esphome_linux.Plugin.{Plugin}
use esphome_linux.Api.Server.{World}
use esphome_linux.Daemon.{main}
use esphome_linux.Daemon.Shutdown.{AllClosed, here, main-AllClosed}
use esphome_linux.Daemon.SocketList.{system, is_open, laws, host, host-HostLaws}

abbrev no_plugins : List (Plugin (World (List ℕ)))
no_plugins = []

main-AllClosed_example :
    let exit = main system host (λ node. node) 1 2 no_plugins [] in
    AllClosed system is_open laws [] exit.world
    × ((exit.status ≡ 0) ⊎ ((exit.status ≡ 1) × (exit.plugins ≡ no_plugins)))
main-AllClosed_example =
    main-AllClosed system is_open laws [] host host-HostLaws (λ node. node) 1 2 no_plugins []
      (λ node. here) tt (λ x. refl)
