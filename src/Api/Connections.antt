-- ===== src/Api/Connections.antt =====
-- The connections of src/esphome_api.c: starting, accepting, the client thread, stopping. The loops
-- of the threads are single rounds here; a call of `pthread_join` has no effect on the state.
pub mod Descriptors
pub mod Ownership
pub mod Interleave
mod Tests
pub mod Session
pub mod Slots
pub mod Stopping
use esphome_linux.Base.{
  ℕ, zero, suc, ◌+◌, ◌-◌, ◌^◌, Bool, true, false, not, ◌&&◌, Option, none, some, List, [], ◌∷◌,
  ◌++◌, length, set, ltb, leb, ◌==◌, if◌then◌else◌,
}
use esphome_linux.Plugin.{minus_one, is_negative}
use esphome_linux.Api.Receive.{Receiver, Recv, Rounds, client_rounds}
use esphome_linux.Api.Server.{
  Client, Server, World, Node, System, client_at, closed, with_clients, update_client,
}
use esphome_linux.Api.Handlers.{dispatch_message}

-- The answers of `socket`, `bind` and `listen`.
pub record Sockets : Type 0 where
  pub socket : ℕ
  pub bind : ℕ
  pub listen : ℕ

-- The answer of `accept`, with the address of the peer.
pub record Accepted : Type 0 where
  pub client_fd : ℕ
  pub client_addr : ℕ

-- The first client without a descriptor, counted from `i`.
unfoldable pub find_free : ℕ → List Client → Option ℕ
find_free i [] = none
find_free i (client ∷ clients) = if is_negative client.fd then some i else find_free (i + 1) clients

module _ {W : Type 0} (system : System W) where
  unfoldable pub client_close : Client → W → Client × W
  client_close client w =
      (closed client, (if is_negative client.fd then w else system.close client.fd w))

  unfoldable pub esphome_api_start : Sockets → Server → W → ℕ × (Server × W)
  esphome_api_start answers server w =
      if is_negative answers.socket
      then (minus_one, (record server { listen_fd = answers.socket }, w))
      else if is_negative answers.bind
      then (minus_one, (record server { listen_fd = minus_one }, system.close answers.socket w))
      else if is_negative answers.listen
      then (minus_one, (record server { listen_fd = minus_one }, system.close answers.socket w))
      else (0, (record server { listen_fd = answers.socket; running = true }, w))

  -- One round of `listen_thread_func`; `created` says whether `pthread_create` succeeds.
  unfoldable pub accept_round : Accepted → Bool → Server → W → Server × W
  unfolding find_free client_close
  accept_round accepted created server w =
      if is_negative accepted.client_fd then (server, w) else elim (find_free 0 server.clients) [
        | none ↦ (server, system.close accepted.client_fd w)
        | some slot ↦
            let client : Client = record (client_at server.clients slot) {
              fd = accepted.client_fd;
              thread_running = true;
              addr = accepted.client_addr;
            } in
            let (failed, w') = client_close client w in
            if created
            then (with_clients server (set server.clients slot client), w)
            else (with_clients server (set server.clients slot failed), w')
      ]

  -- The end of `client_thread_func`.
  unfoldable pub thread_exit : ℕ → World W → World W
  unfolding client_close
  thread_exit slot world =
      let (client, w) = client_close (client_at world.server.clients slot) world.outside in
      record {
        server =
            with_clients world.server
              (set world.server.clients slot (record client { thread_running = false }));
        outside = w;
      }

  -- `server->running && client->fd >= 0`
  abbrev pub connected : ℕ → Node W → Bool
  connected slot node =
      node.world.server.running && not (is_negative (client_at node.world.server.clients slot).fd)

  abbrev pub store_receiver : ℕ → Receiver → World W → World W
  store_receiver slot receiver world = record world {
    server = update_client slot (λ client. record client { receiver = receiver }) world.server;
  }

  -- `client_thread_func`, over what its calls of `recv` return. The thread works on the client's own
  -- receive buffer, which is stored back when it leaves or waits.
  unfoldable pub client_thread_func : List ℕ → ℕ → List Recv → Node W → Option (Node W)
  unfolding client_rounds dispatch_message thread_exit
  client_thread_func build_time slot calls node =
      elim (client_rounds (dispatch_message system build_time slot) (connected slot) calls
        (client_at node.world.server.clients slot).receiver node) [
          | none ↦ none
          | some rounds ↦
              let stored = store_receiver slot rounds.receiver rounds.state.world in
              some (record rounds.state {
                world = if rounds.leaves then thread_exit slot stored else stored;
              })
        ]

  -- `shutdown`, `close` and `fd = -1` for a client that is connected.
  unfoldable pub stop_client : Client → W → Client × W
  stop_client client w =
      if is_negative client.fd
      then (client, w)
      else (record client { fd = minus_one }, system.close client.fd (system.shutdown client.fd w))

  unfoldable pub stop_clients : List Client → W → List Client × W
  unfolding stop_client
  stop_clients [] w = ([], w)
  stop_clients (client ∷ clients) w =
      let (client', w') = stop_client client w in
      let (clients', w'') = stop_clients clients w' in (client' ∷ clients', w'')

  -- The end of `esphome_api_stop` after all that it waits for.
  unfoldable pub esphome_api_stop : Option Server → W → Option Server × W
  unfolding stop_clients
  esphome_api_stop none w = (none, w)
  esphome_api_stop (some server) w =
      let w' =
        if is_negative server.listen_fd
        then w
        else system.close server.listen_fd (system.shutdown server.listen_fd w) in
      let listen_fd = if is_negative server.listen_fd then server.listen_fd else minus_one in
      let (clients, w'') = stop_clients server.clients w' in
      (some (record server { running = false; listen_fd = listen_fd; clients = clients }), w'')

  -- `client_cleanup` of each client.
  unfoldable pub cleanup_clients : List Client → W → W
  unfolding client_close
  cleanup_clients [] w = w
  cleanup_clients (client ∷ clients) w = cleanup_clients clients (client_close client w).1

  -- What `esphome_api_free` closes.
  unfoldable pub esphome_api_free : Option Server → W → W
  unfolding cleanup_clients
  esphome_api_free none w = w
  esphome_api_free (some server) w = cleanup_clients server.clients w
