-- ===== src/Api/Connections/Descriptors.antt =====
-- Which descriptors the server of src/esphome_api.c owns, and what each of its threads does to them.
use esphome_linux.Base.{
  ℕ, zero, suc, ◌+◌, ◌<◌, ◌≡◌, refl, ap, ◌∙◌, Bool, true, false, some, List, [], ◌∷◌, arith, length,
  set, ◌==◌, if◌then◌else◌, Bool-cases, Option-cases, inl, inr,
}
use esphome_linux.Plugin.{minus_one, is_negative}
use esphome_linux.Api.Server.{Client, Server, World, System, client_at, closed, with_clients}
use esphome_linux.Api.Connections.{
  Accepted, find_free, client_close, accept_round, thread_exit, stop_client, stop_clients,
}

-- 1 if a descriptor field holds the descriptor `x`, and 0 if not.
abbrev pub holds : ℕ → ℕ → ℕ
holds x fd = if is_negative fd then 0 else (if x == fd then 1 else 0)

abbrev pub held_by : ℕ → List Client → ℕ
held_by x [] = 0
held_by x (client ∷ clients) = holds x client.fd + held_by x clients

-- How many fields of the server hold a descriptor.
abbrev pub holders : ℕ → Server → ℕ
holders x server = holds x server.listen_fd + held_by x server.clients

abbrev pub count : Bool → ℕ
count b = if b then 1 else 0

pub closed-count : (b : Bool) → 0 ≡ count b → b ≡ false
closed-count false h = refl
closed-count true h = absurd (omega arith)

-- What is relied on of the operating system: `is_open` tells the sockets that the server was given
-- and has not closed. Closing a descriptor changes that one only, and neither sending nor shutting
-- down changes any.
pub record Descriptors {W : Type 0} (system : System W) (is_open : W → ℕ → Bool) : Type 0 where
  pub close_opens :
      (fd : ℕ) (w : W) (x : ℕ)
      → is_open (system.close fd w) x ≡ (if x == fd then false else is_open w x)
  pub shutdown_opens : (fd : ℕ) (w : W) (x : ℕ) → is_open (system.shutdown fd w) x ≡ is_open w x
  pub send_opens :
      (fd : ℕ) (bytes : List ℕ) (w : W) (x : ℕ) → is_open (system.send fd bytes w).1 x ≡ is_open w x

held_by-set :
    (x : ℕ) (clients : List Client) (i : ℕ) (client : Client)
    → i < length clients
    → held_by x (set clients i client) + holds x (client_at clients i).fd
      ≡ held_by x clients + holds x client.fd
held_by-set x [] i client h = absurd (omega arith)
held_by-set x (c ∷ clients) zero client h = omega arith
held_by-set x (c ∷ clients) (suc i) client h =
    omega (arith, held_by-set x clients i client (omega arith))

-- A slot that is found is one that has no descriptor.
pub record FreeSlot (i : ℕ) (clients : List Client) (found : ℕ) : Type 0 where
  pub slot : ℕ
  pub place : found ≡ i + slot
  pub within : slot < length clients
  pub free : is_negative (client_at clients slot).fd ≡ true

find_free-FreeSlot :
    (i : ℕ) (clients : List Client) (found : ℕ)
    → find_free i clients ≡ some found
    → FreeSlot i clients found
unfolding find_free
find_free-FreeSlot i [] found e = cc
find_free-FreeSlot i (client ∷ clients) found e = elim (Bool-cases (is_negative client.fd)) [
  | inl free ↦
      let here : some i ≡ some found = rw free at e in
      record { slot = 0; place = ground arith; within = omega arith; free = free }
  | inr taken ↦
      let rest : find_free (i + 1) clients ≡ some found = rw taken at e in
      let later = find_free-FreeSlot (i + 1) clients found rest in
      record {
        slot = suc later.slot;
        place = omega (arith, later.place);
        within = omega (arith, later.within);
        free = later.free;
      }
]

module _ {W : Type 0} (system : System W) (is_open : W → ℕ → Bool)
    (laws : Descriptors system is_open) where
  -- Each descriptor that is open is held by exactly one field, and no field holds one that is not.
  abbrev pub Owns : Server → W → Type 0
  Owns server w = (x : ℕ) → holders x server ≡ count (is_open w x)

  -- A call that answers `fd` opens it if it is one, and it was not open before.
  abbrev pub Opens : ℕ → W → W → Type 0
  Opens fd w w' = (x : ℕ) → count (is_open w' x) ≡ count (is_open w x) + holds x fd

  -- Closing the descriptor of a field, as long as it is held by nothing else.
  pub close-count :
      (fd : ℕ) (w : W) (x others : ℕ)
      → is_negative fd ≡ false
      → others + holds x fd ≡ count (is_open w x)
      → others ≡ count (is_open (system.close fd w) x)
  close-count fd w x others ok e = elim (Bool-cases (x == fd)) [
    | inl same ↦
        let gone : is_open (system.close fd w) x ≡ false =
          laws.close_opens fd w x ∙ ap (λ (b : Bool). if b then false else is_open w x) same in
        let one : holds x fd ≡ 1 = rw (ok, same) refl in rw gone (ground (arith, one, e))
    | inr other ↦
        let kept : is_open (system.close fd w) x ≡ is_open w x =
          laws.close_opens fd w x ∙ ap (λ (b : Bool). if b then false else is_open w x) other in
        let none_here : holds x fd ≡ 0 = rw (ok, other) refl in
        rw kept (omega (arith, none_here, e))
  ]

  close_if : ℕ → W → W
  close_if fd w = if is_negative fd then w else system.close fd w

  close_if-count :
      (fd : ℕ) (w : W) (x others : ℕ)
      → others + holds x fd ≡ count (is_open w x)
      → others ≡ count (is_open (close_if fd w) x)
  unfolding close_if
  close_if-count fd w x others e = elim (Bool-cases (is_negative fd)) [
    | inl off ↦
        let nothing : holds x fd ≡ 0 = rw off refl in
        let same : others ≡ count (is_open w x) = omega (arith, nothing, e) in rw off same
    | inr on ↦ rw on (close-count fd w x others on e)
  ]

  -- A slot is left without a descriptor, and the one that it had is closed.
  vacate-Owns :
      (server : Server) (w : W) (i : ℕ) (client : Client)
      → i < length server.clients
      → client.fd ≡ minus_one
      → Owns server w
      → Owns
          (with_clients server (set server.clients i client))
          (close_if (client_at server.clients i).fd w)
  vacate-Owns server w i client within gone h x =
      let old = (client_at server.clients i).fd in
      let nothing : holds x client.fd ≡ 0 = rw gone refl in
      let moved = held_by-set x server.clients i client within in
      close_if-count old w x (holders x (with_clients server (set server.clients i client)))
        (omega (arith, moved, nothing, h x))

  pub thread_exit-Owns :
      (slot : ℕ) (world : World W)
      → slot < length world.server.clients
      → Owns world.server world.outside
      → let after = thread_exit system slot world in Owns after.server after.outside
  unfolding thread_exit client_close close_if
  thread_exit-Owns slot world within h =
      vacate-Owns world.server world.outside slot
        (record (closed (client_at world.server.clients slot)) { thread_running = false }) within
        refl h

  pub accept_round-Owns :
      (accepted : Accepted) (created : Bool) (server : Server) (w w' : W)
      → Opens accepted.client_fd w w'
      → Owns server w
      → let after = accept_round system accepted created server w' in Owns after.0 after.1
  unfolding accept_round client_close
  accept_round-Owns accepted created server w w' opens h =
      elim (Bool-cases (is_negative accepted.client_fd)) [
        | inl bad ↦ rw bad (λ x. omega (arith, h x, opens x, nothing x bad))
        | inr ok ↦ elim (Option-cases (find_free 0 server.clients)) [
          | inl full ↦
              rw (ok, full, accept_round)
                (λ x.
                  close-count accepted.client_fd w' x (holders x server) ok
                    (omega (arith, h x, opens x)))
          | inr (found, e) ↦
              let f = find_free-FreeSlot 0 server.clients found e in
              let within : found < length server.clients = omega (arith, f.place, f.within) in
              let place : f.slot ≡ found = omega (arith, f.place) in
              let free : is_negative (client_at server.clients found).fd ≡ true =
                rw place at f.free in
              let empty : (x : ℕ) → holds x (client_at server.clients found).fd ≡ 0 =
                λ x. rw free refl in
              let joined : Client = record (client_at server.clients found) {
                fd = accepted.client_fd;
                thread_running = true;
                addr = accepted.client_addr;
              } in
              elim (Bool-cases created) [
                | inl made ↦
                    rw (ok, e, made, accept_round)
                      (λ x. omega (
                        arith,
                        held_by-set x server.clients found joined within,
                        empty x,
                        h x,
                        opens x,
                      ))
                | inr lost ↦
                    rw (ok, e, lost, ok, accept_round)
                      (λ x.
                        close-count accepted.client_fd w' x
                          (holders x
                            (with_clients server (set server.clients found (closed joined))))
                          ok
                          (omega (
                            arith,
                            held_by-set x server.clients found (closed joined) within,
                            empty x,
                            h x,
                            opens x,
                          )))
              ]
        ]
      ]
    where
      nothing : (x : ℕ) → is_negative accepted.client_fd ≡ true → holds x accepted.client_fd ≡ 0
      nothing x bad = rw bad refl

  -- Stopping the clients closes what they hold, beside what others hold.
  pub stop_clients-count :
      (clients : List Client) (w : W) (x others : ℕ)
      → others + held_by x clients ≡ count (is_open w x)
      → let after = stop_clients system clients w in
        (held_by x after.0 ≡ 0) × (others ≡ count (is_open after.1 x))
  unfolding stop_clients stop_client
  stop_clients-count [] w x others e = (refl, omega (arith, e))
  stop_clients-count (client ∷ clients) w x others e = elim (Bool-cases (is_negative client.fd)) [
    | inl off ↦
        let nothing : holds x client.fd ≡ 0 = rw off refl in
        let rest = stop_clients-count clients w x others (omega (arith, nothing, e)) in
        rw (off, off) (omega (arith, rest.0), rest.1)
    | inr on ↦
        let w1 = system.shutdown client.fd w in
        let same : is_open w1 x ≡ is_open w x = laws.shutdown_opens client.fd w x in
        let shut : others + held_by x clients + holds x client.fd ≡ count (is_open w1 x) =
          rw same (omega (arith, e)) in
        let closes = close-count client.fd w1 x (others + held_by x clients) on shut in
        let rest = stop_clients-count clients (system.close client.fd w1) x others closes in
        rw on (omega (arith, rest.0), rest.1)
  ]
