-- ===== src/Api/Connections/Interleave.antt =====
-- The threads of src/esphome_api.c taking turns, from a new server on. What `clients_mutex` guards is
-- one step; a message is dispatched in one step.
use esphome_linux.Base.{
  ℕ, ◌<◌, ◌≡◌, sym, ap, ◌∙◌, Bool, true, false, Option, none, some, List, All, length,
}
use esphome_linux.Plugin.{is_negative}
use esphome_linux.Plugin.Life.{PreservesLife}
use esphome_linux.Api.Server.{DeviceConfig, Server, World, Node, System, esphome_api_init}
use esphome_linux.Api.Handlers.{dispatch_message}
use esphome_linux.Api.Connections.{
  Sockets, Accepted, esphome_api_start, accept_round, thread_exit, esphome_api_stop,
}
use esphome_linux.Api.Connections.Descriptors.{
  holders, count, Descriptors, Opens, thread_exit-Owns, accept_round-Owns,
}
use esphome_linux.Api.Connections.Ownership.{
  OwnsWorld, OwnsNode, dispatch_message-OwnsNode, esphome_api_stop-Owns, esphome_api_start-Owns,
}

abbrev or_else : {A : Type 0} → Option A → A → A
or_else none d = d
or_else (some a) d = a

module _ {W : Type 0} (system : System W) (is_open : W → ℕ → Bool)
    (laws : Descriptors system is_open) (build_time : List ℕ) where
  abbrev pub starting : Sockets → W → World W → World W
  starting answers w world =
      let after = (esphome_api_start system answers world.server w).1 in
      record { server = after.0; outside = after.1 }

  abbrev pub accepting : Accepted → Bool → W → World W → World W
  accepting accepted created w world =
      let after = accept_round system accepted created world.server w in
      record { server = after.0; outside = after.1 }

  abbrev pub stopping : World W → World W
  stopping world =
      let after = esphome_api_stop system (some world.server) world.outside in
      record { server = or_else after.0 world.server; outside = after.1 }

  -- A server that does not listen starts, the listening thread accepts a connection, a client thread
  -- dispatches a message or ends, or the server stops.
  pub data Step (node : Node W) : Node W → Type 0 where
    start :
        (answers : Sockets) (w : W)
        → is_negative node.world.server.listen_fd ≡ true
        → Opens system is_open laws answers.socket node.world.outside w
        → Step node (record node { world = starting answers w node.world })
    accept :
        (accepted : Accepted) (created : Bool) (w : W)
        → Opens system is_open laws accepted.client_fd node.world.outside w
        → Step node (record node { world = accepting accepted created w node.world })
    dispatch :
        (slot msg_type : ℕ) (payload : List ℕ)
        → Step node (dispatch_message system build_time slot msg_type payload node)
    leave :
        (slot : ℕ)
        → slot < length node.world.server.clients
        → Step node (record node { world = thread_exit system slot node.world })
    stop : Step node (record node { world = stopping node.world })

  -- A new server, in a world where it has no socket, and with plugins that leave descriptors alone.
  pub record IsNew (config : DeviceConfig) (node : Node W) : Type 0 where
    pub server : node.world.server ≡ esphome_api_init config
    pub nothing_open : (x : ℕ) → is_open node.world.outside x ≡ false
    pub plugins : All (PreservesLife (OwnsWorld system is_open laws build_time)) node.plugins

  pub data Reach (config : DeviceConfig) : Node W → Type 0 where
    new : {node : Node W} → IsNew config node → Reach config node
    next : {node node' : Node W} → Reach config node → Step node node' → Reach config node'

  new-OwnsNode :
      (config : DeviceConfig) (node : Node W)
      → IsNew config node
      → OwnsNode system is_open laws build_time node
  unfolding esphome_api_init
  new-OwnsNode config node h =
      (λ x. ap (holders x) h.server ∙ sym (ap count (h.nothing_open x)), h.plugins)

  pub Step-OwnsNode :
      {node node' : Node W}
      → Step node node'
      → OwnsNode system is_open laws build_time node
      → OwnsNode system is_open laws build_time node'
  Step-OwnsNode {node} (start answers w idle opens) (h, hs) = (
    esphome_api_start-Owns system is_open laws build_time answers node.world.server
        node.world.outside w idle opens h,
    hs,
  )
  Step-OwnsNode {node} (accept accepted created w opens) (h, hs) = (
    accept_round-Owns system is_open laws accepted created node.world.server node.world.outside w
        opens h,
    hs,
  )
  Step-OwnsNode {node} (dispatch slot msg_type payload) h =
      dispatch_message-OwnsNode system is_open laws build_time slot msg_type payload node h
  Step-OwnsNode {node} (leave slot within) (h, hs) =
      (thread_exit-Owns system is_open laws slot node.world within h, hs)
  Step-OwnsNode {node} stop (h, hs) =
      let (server, w, e, held, closed) =
        esphome_api_stop-Owns system is_open laws build_time node.world.server node.world.outside
          h in
      (rw e (λ x. held x ∙ sym (ap count (closed x))), hs)

  -- Whatever the threads do and in whatever order, with every error of the system, each socket that
  -- is open is held by exactly one field of the server, and no field holds one that is closed: no
  -- descriptor leaks, and no two clients share one.
  pub Reach-OwnsNode :
      {config : DeviceConfig} {node : Node W}
      → Reach config node
      → OwnsNode system is_open laws build_time node
  Reach-OwnsNode {config} {node} (new h) = new-OwnsNode config node h
  Reach-OwnsNode (next r s) = Step-OwnsNode s (Reach-OwnsNode r)

  -- Whenever the server is stopped, every socket that it was given is closed, and no field holds one.
  pub Reach-esphome_api_stop :
      {config : DeviceConfig} {node : Node W}
      → Reach config node
      → (server' : Server) × (w' : W) × (esphome_api_stop system
            (some node.world.server)
            node.world.outside
          ≡ (some server', w'))
        × ((x : ℕ) → holders x server' ≡ 0)
        × ((x : ℕ) → is_open w' x ≡ false)
  Reach-esphome_api_stop {node} r =
      esphome_api_stop-Owns system is_open laws build_time node.world.server node.world.outside
        (Reach-OwnsNode r).0
