-- ===== src/Api/Connections/Stopping.antt =====
-- What stopping the server and the end of a client thread leave.
use esphome_linux.Base.{
  ℕ, ◌≡◌, inl, inr, refl, false, some, List, [], ◌∷◌, ◌++◌, map, if◌then◌else◌, Bool-cases,
}
use esphome_linux.Plugin.{minus_one, is_negative}
use esphome_linux.Api.Server.{Client, Server, System}
use esphome_linux.Api.Send.Transmit.{connected_fds}
use esphome_linux.Api.Connections.{stop_clients, esphome_api_stop}

module _ {W : Type 0} (system : System W) where
  -- Shutting down and closing descriptors in turn.
  abbrev pub hang_up : List ℕ → W → W
  hang_up [] w = w
  hang_up (fd ∷ fds) w = hang_up fds (system.close fd (system.shutdown fd w))

  abbrev pub disconnected : Client → Client
  disconnected client = if is_negative client.fd then client else record client { fd = minus_one }

  abbrev pub descriptor : ℕ → List ℕ
  descriptor fd = if is_negative fd then [] else fd ∷ []

  hang_up-append : (fds gds : List ℕ) (w : W) → hang_up (fds ++ gds) w ≡ hang_up gds (hang_up fds w)
  hang_up-append [] gds w = refl
  hang_up-append (fd ∷ fds) gds w = hang_up-append fds gds (system.close fd (system.shutdown fd w))

  stop_clients-hang_up :
      (clients : List Client) (w : W)
      → stop_clients system clients w
        ≡ (map disconnected clients, hang_up (connected_fds clients) w)
  unfolding stop_clients
  stop_clients-hang_up [] w = refl
  stop_clients-hang_up (client ∷ clients) w = elim (Bool-cases (is_negative client.fd)) [
    | inl off ↦ rw (off, stop_clients-hang_up clients w, stop_clients) refl
    | inr on ↦
        rw
          (
            on,
            stop_clients-hang_up clients (system.close client.fd (system.shutdown client.fd w)),
            stop_clients,
          )
          refl
  ]

  -- Stopping shuts down and closes each open descriptor exactly once, the one that listens first and
  -- then those of the clients in the order of the slots, and leaves a server that does not run, does
  -- not listen and whose clients have no descriptor.
  pub esphome_api_stop-hang_up :
      (server : Server) (w : W)
      → esphome_api_stop system (some server) w ≡ (
        some (record server {
          running = false;
          listen_fd = if is_negative server.listen_fd then server.listen_fd else minus_one;
          clients = map disconnected server.clients;
        }),
        hang_up (descriptor server.listen_fd ++ connected_fds server.clients) w,
      )
  unfolding esphome_api_stop
  esphome_api_stop-hang_up server w = elim (Bool-cases (is_negative server.listen_fd)) [
    | inl off ↦ rw (off, stop_clients-hang_up server.clients w) refl
    | inr on ↦
        rw
          (
            on,
            stop_clients-hang_up server.clients
                (system.close server.listen_fd (system.shutdown server.listen_fd w)),
          )
          refl
  ]

  connected_fds-disconnected :
      (clients : List Client) → connected_fds (map disconnected clients) ≡ []
  connected_fds-disconnected [] = refl
  connected_fds-disconnected (client ∷ clients) = elim (Bool-cases (is_negative client.fd)) [
    | inl off ↦ rw (off, off) (connected_fds-disconnected clients)
    | inr on ↦ rw on (connected_fds-disconnected clients)
  ]

  disconnected_twice :
      (clients : List Client)
      → map disconnected (map disconnected clients) ≡ map disconnected clients
  disconnected_twice [] = refl
  disconnected_twice (client ∷ clients) = elim (Bool-cases (is_negative client.fd)) [
    | inl off ↦ rw (off, off, disconnected_twice clients) refl
    | inr on ↦ rw (on, disconnected_twice clients) refl
  ]

  -- Stopping a second time closes nothing.
  pub esphome_api_stop_twice :
      (server : Server) (w w' : W)
      → let stopped = esphome_api_stop system (some server) w in
        esphome_api_stop system stopped.0 w' ≡ (stopped.0, w')
  esphome_api_stop_twice server w w' =
      let idle = connected_fds-disconnected server.clients in
      let same = disconnected_twice server.clients in
      rw (esphome_api_stop-hang_up server w, esphome_api_stop-hang_up, same, idle)
        (elim (Bool-cases (is_negative server.listen_fd)) [
          | inl off ↦ rw (off, off) refl
          | inr on ↦ rw on refl
        ])
