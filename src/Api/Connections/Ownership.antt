-- ===== src/Api/Connections/Ownership.antt =====
-- The server of src/esphome_api.c with all of its threads in any order: no descriptor is lost, and none
-- is closed that the server does not hold.
use esphome_linux.Base.{
  ℕ, zero, suc, ◌+◌, ◌≡◌, refl, sym, ap, ◌∙◌, Bool, true, false, some, List, [], ◌∷◌, All, arith,
  set, replicate, if◌then◌else◌, Bool-cases, inl, inr,
}
use esphome_linux.Plugin.{minus_one, is_negative}
use esphome_linux.Plugin.Life.{PreservesLife, with_ctx-PreservesLife}
use esphome_linux.Api.Server.{Client, Server, World, Node, System, client_at}
use esphome_linux.Api.Handlers.{dispatch_message}
use esphome_linux.Api.Handlers.Unchanged.{dispatch_message-Keeps}
use esphome_linux.Api.Connections.{Sockets, esphome_api_start, stop_clients, esphome_api_stop}
use esphome_linux.Api.Connections.Descriptors.{
  holds, held_by, holders, count, Descriptors, Owns, Opens, closed-count, close-count,
  stop_clients-count,
}

held_by-update :
    (f : Client → Client) (same : (c : Client) → (f c).fd ≡ c.fd) (x : ℕ) (clients : List Client)
    (i : ℕ)
    → held_by x (set clients i (f (client_at clients i))) ≡ held_by x clients
held_by-update f same x [] i = refl
held_by-update f same x (c ∷ clients) zero =
    ap (λ (fd : ℕ). holds x fd + held_by x clients) (same c)
held_by-update f same x (c ∷ clients) (suc i) =
    ap (λ (n : ℕ). holds x c.fd + n) (held_by-update f same x clients i)

held_by-none :
    (x n : ℕ) (client : Client) → holds x client.fd ≡ 0 → held_by x (replicate n client) ≡ 0
held_by-none x zero client h = refl
held_by-none x (suc n) client h = omega (arith, h, held_by-none x n client h)

module _ {W : Type 0} (system : System W) (is_open : W → ℕ → Bool)
    (laws : Descriptors system is_open) (build_time : List ℕ) where
  abbrev pub OwnsWorld : World W → Type 0
  OwnsWorld world = Owns system is_open laws world.server world.outside

  -- A node whose server owns its descriptors, and whose plugins leave them to it.
  abbrev pub OwnsNode : Node W → Type 0
  OwnsNode node = OwnsWorld node.world × All (PreservesLife OwnsWorld) node.plugins

  pub dispatch_message-OwnsNode :
      (slot msg_type : ℕ) (payload : List ℕ) (node : Node W)
      → OwnsNode node
      → OwnsNode (dispatch_message system build_time slot msg_type payload node)
  dispatch_message-OwnsNode slot =
      dispatch_message-Keeps system build_time slot OwnsWorld
        (λ fd bytes world h x. h x ∙ ap count (sym (laws.send_opens fd bytes world.outside x)))
        (λ world h x.
          ap (λ (n : ℕ). holds x world.server.listen_fd + n)
            (held_by-update (λ client. record client { authenticated = true }) (λ c. refl) x
              world.server.clients slot)
          ∙ h x)
        (PreservesLife OwnsWorld) (λ p h. h.served) (with_ctx-PreservesLife OwnsWorld)

  -- The world after the listening socket is closed.
  abbrev deaf : ℕ → W → W
  deaf fd w = if is_negative fd then w else system.close fd (system.shutdown fd w)

  unset : (fd x : ℕ) → holds x (if is_negative fd then fd else minus_one) ≡ 0
  unset fd x = elim (Bool-cases (is_negative fd)) [
    | inl off ↦ rw (off, off) refl
    | inr on ↦ rw on refl
  ]

  deaf-count :
      (server : Server) (w : W) (x : ℕ)
      → holders x server ≡ count (is_open w x)
      → held_by x server.clients ≡ count (is_open (deaf server.listen_fd w) x)
  deaf-count server w x h = elim (Bool-cases (is_negative server.listen_fd)) [
    | inl off ↦ (let unheld : holds x server.listen_fd ≡ 0 = rw off refl in rw off (omega arith))
    | inr on ↦
        let w1 = system.shutdown server.listen_fd w in
        let same : is_open w1 x ≡ is_open w x = laws.shutdown_opens server.listen_fd w x in
        let held : held_by x server.clients + holds x server.listen_fd ≡ count (is_open w1 x) =
          rw same (omega arith) in
        rw on
          (close-count system is_open laws server.listen_fd w1 x (held_by x server.clients) on held)
  ]

  -- After stopping, the server holds no descriptor and none is open.
  pub esphome_api_stop-Owns :
      (server : Server) (w : W)
      → Owns system is_open laws server w
      → (server' : Server) × (w' : W) × (esphome_api_stop system (some server) w
          ≡ (some server', w'))
        × ((x : ℕ) → holders x server' ≡ 0)
        × ((x : ℕ) → is_open w' x ≡ false)
  unfolding esphome_api_stop
  esphome_api_stop-Owns server w h =
      let w1 = deaf server.listen_fd w in
      let done : (x : ℕ)
          → (held_by x (stop_clients system server.clients w1).0 ≡ 0)
            × (0 ≡ count (is_open (stop_clients system server.clients w1).1 x)) =
        λ x.
          stop_clients-count system is_open laws server.clients w1 x 0
            (omega (arith, deaf-count server w x (h x))) in
      (
        _,
        _,
        refl,
        λ x. omega (arith, unset server.listen_fd x, (done x).0),
        λ x. closed-count _ (done x).1,
      )

  -- Starting a server that does not listen, whatever the system answers.
  pub esphome_api_start-Owns :
      (answers : Sockets) (server : Server) (w w' : W)
      → is_negative server.listen_fd ≡ true
      → Opens system is_open laws answers.socket w w'
      → Owns system is_open laws server w
      → let after = esphome_api_start system answers server w' in
        Owns system is_open laws after.1.0 after.1.1
  unfolding esphome_api_start
  esphome_api_start-Owns answers server w w' idle opens h =
      let unheld : (x : ℕ) → holds x server.listen_fd ≡ 0 = λ x. rw idle refl in
      elim (Bool-cases (is_negative answers.socket)) [
        | inl bad ↦ rw bad (λ x. omega (arith, unheld x, h x, opens x))
        | inr ok ↦
            let closes : (x : ℕ)
                → held_by x server.clients ≡ count (is_open (system.close answers.socket w') x) =
              λ x.
                close-count system is_open laws answers.socket w' x (held_by x server.clients) ok
                  (omega (arith, unheld x, h x, opens x)) in
            elim (Bool-cases (is_negative answers.bind)) [
              | inl failed ↦ rw (ok, failed) (λ x. omega (arith, closes x))
              | inr bound ↦ elim (Bool-cases (is_negative answers.listen)) [
                | inl failed ↦ rw (ok, bound, failed) (λ x. omega (arith, closes x))
                | inr listening ↦
                    rw (ok, bound, listening) (λ x. omega (arith, unheld x, h x, opens x))
              ]
            ]
      ]
