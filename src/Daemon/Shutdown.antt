-- ===== src/Daemon/Shutdown.antt =====
-- The service of src/main.c, from a start without sockets to its end.
use esphome_linux.Base.{
  ℕ, ◌+◌, ◌≡◌, ◌⊎◌, refl, sym, ap, ◌∙◌, Bool, true, false, Option, none, some, List, [], ◌∷◌, All,
  arith, ◌==◌, if◌then◌else◌, Bool-cases, Option-cases, inl, inr,
}
use esphome_linux.Plugin.{Plugin, is_negative, esphome_plugin_init_all, esphome_plugin_cleanup_all}
use esphome_linux.Plugin.Life.{PreservesLife, cleaning-keeps, initialising-keeps}
use esphome_linux.Api.Server.{DeviceConfig, Client, Server, World, Node, System, esphome_api_init}
use esphome_linux.Api.Connections.{
  Sockets, client_close, cleanup_clients, esphome_api_start, esphome_api_free,
}
use esphome_linux.Api.Connections.Descriptors.{
  holds, holders, count, closed-count, Descriptors, Opens, Owns, close-count,
}
use esphome_linux.Api.Connections.Ownership.{
  OwnsWorld, OwnsNode, esphome_api_start-Owns, esphome_api_stop-Owns,
}
use esphome_linux.Api.Connections.Interleave.{Step, Step-OwnsNode}
use esphome_linux.Daemon.{
  Host, ifaces, try_ifaces, get_mac_address, get_hostname, calloc_world, shut_down, run_service,
  default_hostname, default_mac_address, device_config, main,
}

module _ {W : Type 0} (system : System W) (is_open : W → ℕ → Bool)
    (laws : Descriptors system is_open) (build_time : List ℕ) where
  -- No socket of the service is open.
  abbrev pub AllClosed : W → Type 0
  AllClosed w = (x : ℕ) → is_open w x ≡ false

  -- What is relied on of the host: only the two calls of `socket` open a descriptor, one that was not
  -- open.
  pub record HostLaws (host : Host W) : Type 0 where
    pub calloc_opens : (w : W) (x : ℕ) → is_open (host.calloc w).1 x ≡ is_open w x
    pub gethostname_opens : (w : W) (x : ℕ) → is_open (host.gethostname w).1 x ≡ is_open w x
    pub hwaddr_opens :
        (iface : List ℕ) (w : W) (x : ℕ) → is_open (host.hwaddr iface w).1 x ≡ is_open w x
    pub socket_opens : (w : W) → Opens system is_open laws (host.socket w).0 w (host.socket w).1
    pub sockets_opens :
        (w : W) → Opens system is_open laws (host.sockets w).0.socket w (host.sockets w).1

  -- What the server's threads do, step by step.
  pub data Runs (node : Node W) : Node W → Type 0 where
    here : Runs node node
    further :
        {node' node'' : Node W}
        → Runs node node'
        → Step system is_open laws build_time node' node''
        → Runs node node''

  abbrev Owned : Node W → Type 0
  Owned = OwnsNode system is_open laws build_time

  Runs-Owned : {node node' : Node W} → Runs node node' → Owned node → Owned node'
  Runs-Owned here h = h
  Runs-Owned (further r s) h = Step-OwnsNode system is_open laws build_time s (Runs-Owned r h)

  cleanup_clients-AllClosed :
      (clients : List Client) (w : W) → AllClosed w → AllClosed (cleanup_clients system clients w)
  unfolding cleanup_clients client_close
  cleanup_clients-AllClosed [] w h = h
  cleanup_clients-AllClosed (client ∷ clients) w h = elim (Bool-cases (is_negative client.fd)) [
    | inl off ↦ rw off (cleanup_clients-AllClosed clients w h)
    | inr on ↦
        rw on (cleanup_clients-AllClosed clients (system.close client.fd w) (still client.fd w h))
  ]
    where
      still : (fd : ℕ) (w : W) → AllClosed w → AllClosed (system.close fd w)
      still fd w h x = elim (Bool-cases (x == fd)) [
        | inl same ↦
            laws.close_opens fd w x ∙ ap (λ (b : Bool). if b then false else is_open w x) same
        | inr other ↦
            laws.close_opens fd w x
            ∙ ap (λ (b : Bool). if b then false else is_open w x) other
            ∙ h x
      ]

  esphome_api_free-AllClosed :
      (server : Option Server) (w : W) → AllClosed w → AllClosed (esphome_api_free system server w)
  unfolding esphome_api_free
  esphome_api_free-AllClosed none w h = h
  esphome_api_free-AllClosed (some server) w h = cleanup_clients-AllClosed server.clients w h

  -- From any state of the threads, cleaning up closes what is open.
  shut_down-AllClosed : (node : Node W) → Owned node → AllClosed (shut_down system node).world
  unfolding shut_down
  shut_down-AllClosed node (h, hs) =
      let cleaned = esphome_plugin_cleanup_all node.plugins node.world in
      let kept =
        cleaning-keeps (OwnsWorld system is_open laws build_time) node.plugins node.world hs h in
      let (server, w, e, held, closed) =
        esphome_api_stop-Owns system is_open laws build_time cleaned.1.server cleaned.1.outside
          kept.0 in
      rw e (esphome_api_free-AllClosed (some server) w closed)

  module _ (host : Host W) (host_laws : HostLaws host) where
    get_hostname-AllClosed :
        (hostname : List ℕ) (w : W)
        → AllClosed w
        → AllClosed (get_hostname system host hostname w).1.1
    unfolding get_hostname
    get_hostname-AllClosed hostname w h = elim (Option-cases (host.gethostname w).0) [
      | inl failed ↦ rw (failed, get_hostname) (λ x. host_laws.gethostname_opens w x ∙ h x)
      | inr (name, e) ↦ rw (e, get_hostname) (λ x. host_laws.gethostname_opens w x ∙ h x)
    ]

    try_ifaces-opens :
        (names : List (List ℕ)) (w : W) (x : ℕ)
        → is_open (try_ifaces system host names w).1 x ≡ is_open w x
    unfolding try_ifaces
    try_ifaces-opens [] w x = refl
    try_ifaces-opens (name ∷ names) w x = elim (Option-cases (host.hwaddr name w).0) [
      | inl no_answer ↦
          rw (no_answer, try_ifaces)
            (try_ifaces-opens names (host.hwaddr name w).1 x ∙ host_laws.hwaddr_opens name w x)
      | inr (mac, e) ↦ rw (e, try_ifaces) (host_laws.hwaddr_opens name w x)
    ]

    get_mac_address-AllClosed :
        (mac_str : List ℕ) (size : ℕ) (w : W)
        → AllClosed w
        → AllClosed (get_mac_address system host mac_str size w).1.1
    unfolding get_mac_address
    get_mac_address-AllClosed mac_str size w h =
        let fd = (host.socket w).0 in
        let w1 = (host.socket w).1 in
        let tried = try_ifaces system host ifaces w1 in
        let opened : (x : ℕ) → count (is_open w1 x) ≡ 0 + holds x fd =
          λ x. host_laws.socket_opens w x ∙ ap (λ (b : Bool). count b + holds x fd) (h x) in
        elim (Bool-cases (is_negative fd)) [
          | inl bad ↦
              let nothing : (x : ℕ) → holds x fd ≡ 0 = λ x. rw bad refl in
              rw bad (λ x. closed-count _ (omega (arith, opened x, nothing x)))
          | inr ok ↦
              let closes : AllClosed (system.close fd tried.1) = λ x. closed-count _ (
                close-count system is_open laws fd tried.1 x 0 ok
                  (sym (opened x) ∙ sym (ap count (try_ifaces-opens ifaces w1 x)))) in
              elim (Option-cases tried.0) [
                | inl no_answer ↦ rw (ok, no_answer, get_mac_address) closes
                | inr (mac, e) ↦ rw (ok, e, get_mac_address) closes
              ]
        ]

    new_idle : (config : DeviceConfig) → is_negative (esphome_api_init config).listen_fd ≡ true
    unfolding esphome_api_init
    new_idle config = refl

    new_Owns :
        (config : DeviceConfig) (w : W)
        → AllClosed w
        → Owns system is_open laws (esphome_api_init config) w
    unfolding esphome_api_init
    new_Owns config w h x = sym (ap count (h x))

    -- A start that fails leaves a server without descriptors.
    start-failed :
        (answers : Sockets) (config : DeviceConfig) (w : W) (x : ℕ)
        → is_negative (esphome_api_start system answers (esphome_api_init config) w).0 ≡ true
        → holders x (esphome_api_start system answers (esphome_api_init config) w).1.0 ≡ 0
    unfolding esphome_api_start esphome_api_init
    start-failed answers config w x h = elim (Bool-cases (is_negative answers.socket)) [
      | inl bad ↦ rw (bad, bad) refl
      | inr ok ↦ elim (Bool-cases (is_negative answers.bind)) [
        | inl failed ↦ rw (ok, failed) refl
        | inr bound ↦ elim (Bool-cases (is_negative answers.listen)) [
          | inl failed ↦ rw (ok, bound, failed) refl
          | inr listening ↦ (let no : false ≡ true = rw (ok, bound, listening) at h in cc)
        ]
      ]
    ]

    run_service-AllClosed :
        (serve : Node W → Node W) (server config : ℕ) (plugins : List (Plugin (World W)))
        (world : World W)
        → ((node : Node W) → Runs node (serve node))
        → All (PreservesLife (OwnsWorld system is_open laws build_time)) plugins
        → OwnsWorld system is_open laws build_time world
        → AllClosed (run_service system host serve server config plugins world).world
    unfolding run_service
    run_service-AllClosed serve server config plugins world steps hp h =
        let ready =
          initialising-keeps (OwnsWorld system is_open laws build_time) (calloc_world system host)
            (λ world h x. h x ∙ sym (ap count (host_laws.calloc_opens world.outside x))) server
            config plugins world hp h in
        let initialised =
          esphome_plugin_init_all (calloc_world system host) server config plugins world in
        let node : Node W = record { world = initialised.world; plugins = initialised.plugins } in
        shut_down-AllClosed (serve node) (Runs-Owned (steps node) ready)

    -- Whatever fails on the way: when `main` returns, every socket that the service was given is closed.
    -- It returns 0, or it returns 1 and has not touched the plugins. Until the signal comes, the
    -- server's threads have made some steps, and the plugins' callbacks leave the sockets alone.
    pub main-AllClosed :
        (serve : Node W → Node W) (server_address config_address : ℕ)
        (plugins : List (Plugin (World W))) (w : W)
        → ((node : Node W) → Runs node (serve node))
        → All (PreservesLife (OwnsWorld system is_open laws build_time)) plugins
        → AllClosed w
        → let exit = main system host serve server_address config_address plugins w in
          AllClosed exit.world
          × ((exit.status ≡ 0) ⊎ ((exit.status ≡ 1) × (exit.plugins ≡ plugins)))
    unfolding main run_service
    main-AllClosed serve server_address config_address plugins w steps hp h =
        let named = get_hostname system host default_hostname w in
        let h1 = get_hostname-AllClosed default_hostname w h in
        let addressed = get_mac_address system host default_mac_address 24 named.1.1 in
        let h2 = get_mac_address-AllClosed default_mac_address 24 named.1.1 h1 in
        let allocated = host.calloc addressed.1.1 in
        let h3 : AllClosed allocated.1 = λ x. host_laws.calloc_opens addressed.1.1 x ∙ h2 x in
        let server = esphome_api_init (device_config named.1.0 addressed.1.0) in
        let socket = host.sockets allocated.1 in
        let started = esphome_api_start system socket.0 server socket.1 in
        let owns =
          esphome_api_start-Owns system is_open laws build_time socket.0 server allocated.1 socket.1
            (new_idle (device_config named.1.0 addressed.1.0)) (host_laws.sockets_opens allocated.1)
            (new_Owns (device_config named.1.0 addressed.1.0) allocated.1 h3) in
        elim (Bool-cases allocated.0) [
          | inr no_memory ↦ rw no_memory (h3, inr (refl, refl))
          | inl memory ↦ elim (Bool-cases (is_negative started.0)) [
            | inl failed ↦
                rw (memory, failed)
                  (
                    esphome_api_free-AllClosed (some started.1.0) started.1.1 (λ x. closed-count _ (
                        sym (
                          start-failed socket.0 (device_config named.1.0 addressed.1.0) socket.1 x
                            failed)
                        ∙ owns x)),
                    inr (refl, refl),
                  )
            | inr running ↦
                rw (memory, running)
                  (
                    run_service-AllClosed serve server_address config_address plugins
                        (record { server = started.1.0; outside = started.1.1 }) steps hp owns,
                    inl (unfold shut_down in refl),
                  )
          ]
        ]
