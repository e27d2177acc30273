-- ===== src/Api/Connections/Slots.antt =====
-- The slot of a new connection.
use esphome_linux.Base.{
  ℕ, ◌+◌, ◌≡◌, refl, ap, ◌∙◌, Bool, true, false, none, some, List, [], ◌∷◌, ◌++◌, All, arith,
  length, get_or-middle, set-middle, if◌then◌else◌,
}
use esphome_linux.Plugin.{is_negative}
use esphome_linux.Api.Server.{Client, Server, System, no_client, closed, with_clients}
use esphome_linux.Api.Connections.{Accepted, find_free, client_close, accept_round}

abbrev pub Connected : Client → Type 0
Connected client = is_negative client.fd ≡ false

find_free-full :
    (i : ℕ) (clients : List Client) → All Connected clients → find_free i clients ≡ none
unfolding find_free
find_free-full i [] h = refl
find_free-full i (client ∷ clients) (hc, hs) =
    rw (hc, find_free-full (i + 1) clients hs, find_free) refl

find_free-first :
    (i : ℕ) (front : List Client) (client : Client) (back : List Client)
    → All Connected front
    → is_negative client.fd ≡ true
    → find_free i (front ++ client ∷ back) ≡ some (i + length front)
unfolding find_free
find_free-first i [] client back h free = rw free (ap some (omega arith))
find_free-first i (c ∷ front) client back (hc, hs) free =
    rw (hc, find_free-first (i + 1) front client back hs free, find_free) (ap some (omega arith))

abbrev pub join : Accepted → Client → Client
join accepted client = record client {
  fd = accepted.client_fd;
  thread_running = true;
  addr = accepted.client_addr;
}

module _ {W : Type 0} (system : System W) where
  -- A connection that is accepted takes the first slot that is free. If its thread is created, the
  -- client there gets the descriptor, the address and a running thread. If not, the descriptor is
  -- closed and the slot is free again, but the client still counts as one with a running thread.
  -- The other slots are left alone.
  pub accept_round-free :
      (accepted : Accepted) (created : Bool) (server : Server) (front : List Client)
      (client : Client) (back : List Client) (w : W)
      → is_negative accepted.client_fd ≡ false
      → All Connected front
      → is_negative client.fd ≡ true
      → accept_round system accepted created (with_clients server (front ++ client ∷ back)) w ≡ (
          if created then (with_clients server (front ++ join accepted client ∷ back), w) else (
            with_clients server (front ++ closed (join accepted client) ∷ back),
            system.close accepted.client_fd w,
          ))
  unfolding accept_round client_close
  accept_round-free accepted created server front client back w ok before free =
      let joined = join accepted client in
      let first : find_free 0 (front ++ client ∷ back) ≡ some (length front) =
        find_free-first 0 front client back before free ∙ ap some (omega arith) in
      rw
        (
          ok,
          first,
          get_or-middle front client back no_client,
          set-middle front client joined back,
          set-middle front client (closed joined) back,
          ok,
        )
        refl

  -- A connection that is accepted when each client of the server is connected is closed, and the
  -- server does not change.
  pub accept_round-full :
      (accepted : Accepted) (created : Bool) (server : Server) (w : W)
      → is_negative accepted.client_fd ≡ false
      → All Connected server.clients
      → accept_round system accepted created server w ≡ (server, system.close accepted.client_fd w)
  unfolding accept_round
  accept_round-full accepted created server w ok full =
      rw (ok, find_free-full 0 server.clients full) refl
