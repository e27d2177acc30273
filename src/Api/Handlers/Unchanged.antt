-- ===== src/Api/Handlers/Unchanged.antt =====
-- What every message leaves alone, whatever it is.
use esphome_linux.Base.{
  ℕ, Bool, true, false, Option, none, some, List, [], All, take, ltb, ◌==◌, if◌then◌else◌,
  Option-cases, inl, inr, uninitialised,
}
use esphome_linux.Proto.Frame.{esphome_frame_message}
use esphome_linux.Proto.Response.{esphome_encode_device_info_response}
use esphome_linux.Plugin.{
  Context, Plugin, with_ctx, esphome_plugin_list_entities_all,
  esphome_plugin_configure_device_info_all,
}
use esphome_linux.Plugin.Invariant.{
  Preserves, handle_message-keeps, configuring-keeps, listing-keeps, subscribing-keeps,
}
use esphome_linux.Api.Server.{World, Node, System, client_at}
use esphome_linux.Api.Send.{answer, send_message}
use esphome_linux.Api.Handlers.{
  send_from, send_encoded, authenticate, find_client, device_info_response,
  msg_device_info_response, handle_hello_request, handle_connect_request,
  handle_device_info_request, handle_list_entities_request, handle_subscribe_states_request,
  handle_ping_request, dispatch_message,
}

pub choose : {A : Type 0} (Q : A → Type 0) (b : Bool) {x y : A} → Q x → Q y → Q (if b then x else y)
choose Q true hx hy = hx
choose Q false hx hy = hy

-- A property of the world that sending and authenticating a client leave alone.
module _ {W : Type 0} (system : System W) (build_time : List ℕ) (slot : ℕ) (P : World W → Type 0)
    (sends : (fd : ℕ) (bytes : List ℕ) (world : World W)
      → P world
      → P (record world { outside = (system.send fd bytes world.outside).1 }))
    (authenticates : (world : World W) → P world → P (authenticate system slot world))
    (Q : Plugin (World W) → Type 0) (serves : (p : Plugin (World W)) → Q p → Preserves P p)
    (stays : (p : Plugin (World W)) (ctx : Context) → Q p → Q (with_ctx p ctx)) where
  -- What a node keeps: the property, and plugins that leave it alone.
  abbrev pub Keeps : Node W → Type 0
  Keeps node = P node.world × All Q node.plugins

  answer-keeps :
      (frame_len : ℕ) (sent : Option ℕ) (world : World W) (w : W)
      → P (record world { outside = w })
      → P (record world { outside = (answer frame_len sent w).1 })
  answer-keeps frame_len none world w h = h
  answer-keeps frame_len (some sent) world w h =
      choose (λ (r : ℕ × W). P (record world { outside = r.1 })) (sent == frame_len) h h

  send_from-keeps :
      (t : ℕ) (payload : List ℕ) (n : ℕ) (world : World W)
      → P world
      → P (send_from system slot t payload n world)
  unfolding send_message
  send_from-keeps t payload n world h =
      let framed = esphome_frame_message (uninitialised 8192) 8192 t payload n in
      let fd = (client_at world.server.clients slot).fd in
      let sent = system.send fd (take framed.0 framed.1) world.outside in
      choose (λ (r : ℕ × W). P (record world { outside = r.1 })) (framed.0 == 0) h
        (answer-keeps framed.0 sent.0 world sent.1 (sends fd (take framed.0 framed.1) world h))

  send_encoded-keeps :
      (t : ℕ) (encoding : ℕ × List ℕ) (world : World W)
      → P world
      → P (send_encoded system slot t encoding world)
  unfolding send_encoded
  send_encoded-keeps t (len, buf) world h =
      choose P (ltb 0 len) (send_from-keeps t buf len world h) h

  device_info-Keeps :
      (node : Node W) → Keeps node → Keeps (handle_device_info_request system build_time slot node)
  unfolding handle_device_info_request
  device_info-Keeps node (h, hs) =
      let configured =
        configuring-keeps P Q serves stays node.plugins
          (device_info_response build_time node.world.server.config) node.world hs h in
      let done =
        esphome_plugin_configure_device_info_all node.plugins
          (device_info_response build_time node.world.server.config) node.world in
      let encoding = esphome_encode_device_info_response (uninitialised 1024) 1024 done.result in
      (send_encoded-keeps msg_device_info_response encoding done.world configured.0, configured.1)

  list_entities-Keeps :
      (node : Node W) → Keeps node → Keeps (handle_list_entities_request system slot node)
  unfolding handle_list_entities_request
  list_entities-Keeps node (h, hs) =
      elim (Option-cases (find_client slot 0 node.world.server.clients)) [
        | inl e ↦ rw (e, handle_list_entities_request) (send_from-keeps 19 [] 0 node.world h, hs)
        | inr (i, e) ↦
            let listed = listing-keeps P Q serves stays i node.plugins node.world hs h in
            rw (e, handle_list_entities_request)
              (
                send_from-keeps 19 [] 0
                    (esphome_plugin_list_entities_all i node.plugins node.world).1 listed.0,
                listed.1,
              )
      ]

  subscribe_states-Keeps :
      (node : Node W) → Keeps node → Keeps (handle_subscribe_states_request system slot node)
  unfolding handle_subscribe_states_request
  subscribe_states-Keeps node (h, hs) =
      elim (Option-cases (find_client slot 0 node.world.server.clients)) [
        | inl e ↦ rw (e, handle_subscribe_states_request) (h, hs)
        | inr (i, e) ↦
            rw (e, handle_subscribe_states_request)
              (subscribing-keeps P Q serves stays i node.plugins node.world hs h)
      ]

  -- Dispatching any message keeps it, and the plugins are still such plugins.
  pub dispatch_message-Keeps :
      (msg_type : ℕ) (payload : List ℕ) (node : Node W)
      → Keeps node
      → Keeps (dispatch_message system build_time slot msg_type payload node)
  unfolding dispatch_message handle_hello_request handle_connect_request handle_ping_request
  dispatch_message-Keeps t d node (h, hs) =
      choose Keeps (t == 1) (send_encoded-keeps 2 _ node.world h, hs)
        (choose Keeps (t == 3)
          (
            send_encoded-keeps 4 _ (authenticate system slot node.world)
                (authenticates node.world h),
            hs,
          )
          (choose Keeps (t == 9) (device_info-Keeps node (h, hs)) (
            choose Keeps (t == 11) (list_entities-Keeps node (h, hs)) (
              choose Keeps (t == 20) (subscribe_states-Keeps node (h, hs)) (
                choose Keeps (t == 34) (h, hs)
                  (choose Keeps (t == 38) (h, hs)
                    (choose Keeps (t == 7) (send_from-keeps 8 [] 0 node.world h, hs)
                      (choose Keeps (t == 5) (h, hs)
                        (handle_message-keeps P Q serves stays slot t d node.plugins node.world hs
                          h)))))))))
