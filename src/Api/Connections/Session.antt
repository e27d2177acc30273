-- ===== src/Api/Connections/Session.antt =====
-- A client thread over a stream of messages, with the server's own dispatch.
use esphome_linux.Base.{ℕ, ◌≡◌, refl, some, List, [], All, flatten}
use esphome_linux.Api.Receive.{Receiver, pending}
use esphome_linux.Api.Receive.Stream.{Message, IsMessage, stream}
use esphome_linux.Api.Receive.Reassembly.{IsReceiver, deliver}
use esphome_linux.Api.Receive.Thread.{Arrives, received, client_rounds-stream}
use esphome_linux.Api.Server.{Node, System, client_at}
use esphome_linux.Api.Handlers.{dispatch_message}
use esphome_linux.Api.Handlers.Keeps.{Kept, dispatch_message-Kept}
use esphome_linux.Api.Connections.{connected, store_receiver, client_thread_func}

module _ {W : Type 0} (system : System W) (build_time : List ℕ) (slot : ℕ) where
  -- What the messages make of a node, with `receiver` in the slot.
  abbrev pub served : Receiver → List Message → Node W → Node W
  served receiver ms node =
      let after = deliver (dispatch_message system build_time slot) ms node in
      record after { world = store_receiver system slot receiver after.world }

  -- On an open connection with an empty receive buffer, and with plugins whose callbacks leave that
  -- connection open, messages of at most 32-bit length and 16-bit type that arrive cut into chunks in
  -- any way that `recv` can return them, each chunk with a byte at least and fitting behind what is
  -- pending, are given to the server's dispatch whole, each once and in order; the thread then waits
  -- for more with nothing pending.
  pub client_thread_func-stream :
      (ms : List Message) (cs : List (List ℕ)) (node : Node W)
      → All IsMessage ms
      → flatten cs ≡ stream ms
      → IsReceiver (client_at node.world.server.clients slot).receiver
      → (client_at node.world.server.clients slot).receiver.recv_pos ≡ 0
      → Kept system build_time slot node
      → Arrives [] cs
      → (r' : Receiver) × (client_thread_func system build_time slot (received cs) node
          ≡ some (served r' ms node))
        × (pending r' ≡ [])
  unfolding client_thread_func
  client_thread_func-stream ms cs node hm e v empty kept room =
      let (r', returned, left) =
        client_rounds-stream (dispatch_message system build_time slot) (connected system slot)
          (Kept system build_time slot) (λ s h. h.0) (dispatch_message-Kept system build_time slot)
          ms cs (client_at node.world.server.clients slot).receiver node hm e v empty kept room in
      (r', rw (returned, client_thread_func) refl, left)
