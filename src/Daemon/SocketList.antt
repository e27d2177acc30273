-- ===== src/Daemon/SocketList.antt =====
-- A host for src/main.c whose state is the list of its open sockets, to run the service on.
use esphome_linux.Base.{
  ℕ, suc, ◌+◌, ◌<◌, ◌≡◌, refl, Bool, true, false, ◌||◌, some, List, [], ◌∷◌, arith, length, ◌==◌,
  if◌then◌else◌, Bool-cases, inl, inr,
}
use esphome_linux.Plugin.{minus_one, is_negative}
use esphome_linux.Api.Server.{System}
use esphome_linux.Api.Connections.Descriptors.{Descriptors, Opens}
use esphome_linux.Daemon.{Host}
use esphome_linux.Daemon.Shutdown.{HostLaws}

abbrev pub has : ℕ → List ℕ → Bool
has x [] = false
has x (fd ∷ fds) = x == fd || has x fds

abbrev pub without : ℕ → List ℕ → List ℕ
without fd [] = []
without fd (x ∷ fds) = if x == fd then without fd fds else x ∷ without fd fds

abbrev pub sum : List ℕ → ℕ
sum [] = 0
sum (x ∷ xs) = x + sum xs

pub has-without :
    (fd x : ℕ) (fds : List ℕ) → has x (without fd fds) ≡ (if x == fd then false else has x fds)
has-without fd x [] = elim (Bool-cases (x == fd)) [ inl h ↦ rw h refl | inr h ↦ rw h refl ]
has-without fd x (y ∷ fds) = ground (arith, has-without fd x fds)

pub has-large : (x : ℕ) (fds : List ℕ) → sum fds < x → has x fds ≡ false
has-large x [] h = refl
has-large x (y ∷ fds) h =
    let apart : (x == y) ≡ false = ground arith in rw apart (has-large x fds (omega arith))

abbrev pub system : System (List ℕ)
system = record {
  send = λ fd bytes w. (some (length bytes), w);
  close = λ fd w. without fd w;
  shutdown = λ fd w. w;
}

abbrev pub is_open : List ℕ → ℕ → Bool
is_open w x = has x w

pub laws : Descriptors system is_open
laws = record {
  close_opens = λ fd w x. has-without fd x w;
  shutdown_opens = λ fd w x. refl;
  send_opens = λ fd bytes w x. refl;
}

-- A descriptor that is not in use, if there is one.
abbrev pub new_socket : List ℕ → ℕ × List ℕ
new_socket w = let fd = suc (sum w) in if is_negative fd then (minus_one, w) else (fd, fd ∷ w)

pub new_socket-Opens : (w : List ℕ) → Opens system is_open laws (new_socket w).0 w (new_socket w).1
new_socket-Opens w x = elim (Bool-cases (is_negative (suc (sum w)))) [
  | inl full ↦ rw full (omega arith)
  | inr ok ↦ elim (Bool-cases (x == suc (sum w))) [
    | inl same ↦
        let eq : x ≡ suc (sum w) = ground arith in
        let unused : has x w ≡ false = has-large x w (omega arith) in rw (ok, same, unused, ok) refl
    | inr other ↦ rw (ok, other, ok) (omega arith)
  ]
]

abbrev pub host : Host (List ℕ)
host = record {
  calloc = λ w. (true, w);
  gethostname = λ w. (some (104 ∷ []), w);
  socket = new_socket;
  hwaddr = λ iface w. (some (1 ∷ 2 ∷ 3 ∷ 4 ∷ 5 ∷ 6 ∷ []), w);
  sockets = λ w. (record { socket = (new_socket w).0; bind = 0; listen = 0 }, (new_socket w).1);
}

pub host-HostLaws : HostLaws system is_open laws [] host
host-HostLaws = record {
  calloc_opens = λ w x. refl;
  gethostname_opens = λ w x. refl;
  hwaddr_opens = λ iface w x. refl;
  socket_opens = new_socket-Opens;
  sockets_opens = new_socket-Opens;
}
