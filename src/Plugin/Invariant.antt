-- ===== src/Plugin/Invariant.antt =====
-- What every callback preserves, the plugin manager preserves.
use esphome_linux.Base.{
  ℕ, ◌≡◌, Option, none, some, List, [], ◌∷◌, All, ◌==◌, Bool-cases, Option-cases, inl, inr,
}
use mathlib.Core.Path.{subst}
use esphome_linux.Proto.Response.{DeviceInfoResponse}
use esphome_linux.Plugin.{
  Context, Answer, Plugin, with_ctx, configure_plugin, esphome_plugin_configure_device_info_all,
  call_for_client, call_all, offer, esphome_plugin_handle_message,
}

-- The callbacks that a running server calls preserve `P`.
pub record Preserves {W : Type 0} (P : W → Type 0) (p : Plugin W) : Type 0 where
  pub handle_message :
      (f : Context → ℕ → ℕ → List ℕ → W → Answer W)
      → p.handle_message ≡ some f
      → (ctx : Context) (i t : ℕ) (d : List ℕ) (w : W) → P w
      → P (f ctx i t d w).world
  pub configure_device_info :
      (f : Context → DeviceInfoResponse → W → DeviceInfoResponse × Answer W)
      → p.configure_device_info ≡ some f
      → (ctx : Context) (info : DeviceInfoResponse) (w : W) → P w
      → P (f ctx info w).1.world
  pub list_entities :
      (f : Context → ℕ → W → Answer W)
      → p.list_entities ≡ some f
      → (ctx : Context) (i : ℕ) (w : W) → P w
      → P (f ctx i w).world
  pub subscribe_states :
      (f : Context → ℕ → W → Answer W)
      → p.subscribe_states ≡ some f
      → (ctx : Context) (i : ℕ) (w : W) → P w
      → P (f ctx i w).world

module _ {W : Type 0} (P : W → Type 0) where
  pub with_ctx-Preserves :
      (p : Plugin W) (ctx : Context) → Preserves P p → Preserves P (with_ctx p ctx)
  with_ctx-Preserves p ctx h = record {
    handle_message = h.handle_message;
    configure_device_info = h.configure_device_info;
    list_entities = h.list_entities;
    subscribe_states = h.subscribe_states;
  }

-- Plugins whose callbacks preserve `P`, and which stay such plugins with another context.
module _ {W : Type 0} (P : W → Type 0) (Q : Plugin W → Type 0)
    (serves : (p : Plugin W) → Q p → Preserves P p)
    (stays : (p : Plugin W) (ctx : Context) → Q p → Q (with_ctx p ctx)) where
  offer-keeps :
      (i t : ℕ) (d : List ℕ) (p : Plugin W) (w : W) (a : Answer W)
      → Q p
      → P w
      → offer i t d p w ≡ some a
      → P a.world
  unfolding offer
  offer-keeps i t d p w a h hw e = elim (Option-cases p.handle_message) [
    | inl null ↦ (let wrong : none ≡ some a = rw null at e in cc)
    | inr (f, yes_f) ↦ elim (Option-cases p.ctx) [
      | inl null ↦ (let wrong : none ≡ some a = rw (yes_f, null) at e in cc)
      | inr (ctx, yes_ctx) ↦
          let made : some (f ctx i t d w) ≡ some a = rw (yes_f, yes_ctx) at e in
          let same : f ctx i t d w ≡ a = cc in
          subst (λ (x : Answer W). P x.world) same
            ((serves p h).handle_message f yes_f ctx i t d w hw)
    ]
  ]

  pub handle_message-keeps :
      (i t : ℕ) (d : List ℕ) (ps : List (Plugin W)) (w : W)
      → All Q ps
      → P w
      → let m = esphome_plugin_handle_message i t d ps w in P m.world × All Q m.plugins
  unfolding esphome_plugin_handle_message
  handle_message-keeps i t d [] w h hw = (hw, tt)
  handle_message-keeps i t d (p ∷ ps) w (hp, hs) hw = elim (Option-cases (offer i t d p w)) [
    | inl e ↦
        let later = handle_message-keeps i t d ps w hs hw in
        rw (e, esphome_plugin_handle_message) (later.0, (hp, later.1))
    | inr (answer, e) ↦
        let kept = offer-keeps i t d p w answer hp hw e in
        let hp' = stays p answer.ctx hp in
        elim (Bool-cases (answer.result == 0)) [
          | inl z ↦ rw (e, z, esphome_plugin_handle_message) (kept, (hp', hs))
          | inr nz ↦
              let later = handle_message-keeps i t d ps answer.world hs kept in
              rw (e, nz, esphome_plugin_handle_message) (later.0, (hp', later.1))
        ]
  ]

  configure_plugin-keeps :
      (p : Plugin W) (info : DeviceInfoResponse) (w : W)
      → Q p
      → P w
      → let (p', (info', w')) = configure_plugin p info w in P w' × Q p'
  unfolding configure_plugin
  configure_plugin-keeps p info w h hw = elim (Option-cases p.configure_device_info) [
    | inl null ↦ rw (null, configure_plugin) (hw, h)
    | inr (f, yes_f) ↦ elim (Option-cases p.ctx) [
      | inl null ↦ rw (yes_f, null, configure_plugin) (hw, h)
      | inr (ctx, yes_ctx) ↦
          rw (yes_f, yes_ctx, configure_plugin)
            (
              (serves p h).configure_device_info f yes_f ctx info w hw,
              stays p (f ctx info w).1.ctx h,
            )
    ]
  ]

  pub configuring-keeps :
      (ps : List (Plugin W)) (info : DeviceInfoResponse) (w : W)
      → All Q ps
      → P w
      → let m = esphome_plugin_configure_device_info_all ps info w in P m.world × All Q m.plugins
  unfolding esphome_plugin_configure_device_info_all
  configuring-keeps [] info w h hw = (hw, tt)
  configuring-keeps (p ∷ ps) info w (hp, hs) hw =
      let first = configure_plugin-keeps p info w hp hw in
      let done = configure_plugin p info w in
      let later = configuring-keeps ps done.1.0 done.1.1 hs first.0 in (later.0, (first.1, later.1))

  -- Callbacks of one kind for a client, `list_entities` or `subscribe_states`.
  module _ (callback : Plugin W → Option (Context → ℕ → W → Answer W))
      (callback-keeps : (p : Plugin W)
        → Q p
        → (f : Context → ℕ → W → Answer W) → callback p ≡ some f
        → (ctx : Context) (i : ℕ) (w : W) → P w
        → P (f ctx i w).world) where
    call_for_client-keeps :
        (i : ℕ) (p : Plugin W) (w : W)
        → Q p
        → P w
        → let (p', w') = call_for_client callback i p w in P w' × Q p'
    unfolding call_for_client
    call_for_client-keeps i p w h hw = elim (Option-cases (callback p)) [
      | inl null ↦ rw (null, call_for_client) (hw, h)
      | inr (f, yes_f) ↦ elim (Option-cases p.ctx) [
        | inl null ↦ rw (yes_f, null, call_for_client) (hw, h)
        | inr (ctx, yes_ctx) ↦
            rw (yes_f, yes_ctx, call_for_client)
              (callback-keeps p h f yes_f ctx i w hw, stays p (f ctx i w).ctx h)
      ]
    ]

    call_all-keeps :
        (i : ℕ) (ps : List (Plugin W)) (w : W)
        → All Q ps
        → P w
        → let (ps', w') = call_all callback i ps w in P w' × All Q ps'
    unfolding call_all
    call_all-keeps i [] w h hw = (hw, tt)
    call_all-keeps i (p ∷ ps) w (hp, hs) hw =
        let first = call_for_client-keeps i p w hp hw in
        let later = call_all-keeps i ps (call_for_client callback i p w).1 hs first.0 in
        (later.0, (first.1, later.1))

  pub listing-keeps :
      (i : ℕ) (ps : List (Plugin W)) (w : W)
      → All Q ps
      → P w
      → let (ps', w') = call_all (λ p. p.list_entities) i ps w in P w' × All Q ps'
  listing-keeps = call_all-keeps (λ p. p.list_entities) (λ p h. (serves p h).list_entities)

  pub subscribing-keeps :
      (i : ℕ) (ps : List (Plugin W)) (w : W)
      → All Q ps
      → P w
      → let (ps', w') = call_all (λ p. p.subscribe_states) i ps w in P w' × All Q ps'
  subscribing-keeps =
      call_all-keeps (λ p. p.subscribe_states) (λ p h. (serves p h).subscribe_states)
