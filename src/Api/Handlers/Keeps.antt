-- ===== src/Api/Handlers/Keeps.antt =====
-- Dispatching a message leaves the connection that it came from open.
use esphome_linux.Base.{
  ℕ, zero, suc, ◌≡◌, refl, ap, ◌∙◌, Bool, true, not, ◌&&◌, List, [], ◌∷◌, All, set, get_or,
}
use esphome_linux.Plugin.{is_negative}
use esphome_linux.Plugin.Invariant.{Preserves, with_ctx-Preserves}
use esphome_linux.Api.Server.{Client, World, Node, System, no_client, client_at}
use esphome_linux.Api.Handlers.{authenticate, dispatch_message}
use esphome_linux.Api.Handlers.Unchanged.{dispatch_message-Keeps}

-- The server runs, and the client in a slot has a descriptor.
abbrev pub is_open : {W : Type 0} → ℕ → World W → Bool
is_open slot world =
    world.server.running && not (is_negative (client_at world.server.clients slot).fd)

abbrev pub IsOpen : {W : Type 0} → ℕ → World W → Type 0
IsOpen slot world = is_open slot world ≡ true

-- Changing all but the descriptor of the client in a slot.
fd-set :
    (f : Client → Client) (same : (c : Client) → (f c).fd ≡ c.fd) (clients : List Client) (i : ℕ)
    → (get_or (set clients i (f (get_or clients i no_client))) i no_client).fd
      ≡ (get_or clients i no_client).fd
fd-set f same [] i = refl
fd-set f same (c ∷ clients) zero = same c
fd-set f same (c ∷ clients) (suc i) = fd-set f same clients i

module _ {W : Type 0} (system : System W) (build_time : List ℕ) (slot : ℕ) where
  -- What a node keeps: the connection, and plugins that leave it alone.
  abbrev pub Kept : Node W → Type 0
  Kept node = IsOpen slot node.world × All (Preserves (IsOpen slot)) node.plugins

  authenticate-keeps :
      (world : World W) → IsOpen slot world → IsOpen slot (authenticate system slot world)
  authenticate-keeps world h =
      let same =
        fd-set (λ client. record client { authenticated = true }) (λ c. refl) world.server.clients
          slot in
      ap (λ (fd : ℕ). world.server.running && not (is_negative fd)) same ∙ h

  -- With plugins whose callbacks leave the connection in a slot open, dispatching any message that
  -- came from it leaves it open too, and the plugins are still such plugins.
  pub dispatch_message-Kept :
      (msg_type : ℕ) (payload : List ℕ) (node : Node W)
      → Kept node
      → Kept (dispatch_message system build_time slot msg_type payload node)
  dispatch_message-Kept =
      dispatch_message-Keeps system build_time slot (IsOpen slot) (λ fd bytes world h. h)
        authenticate-keeps (Preserves (IsOpen slot)) (λ p h. h) (with_ctx-Preserves (IsOpen slot))
