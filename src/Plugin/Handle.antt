-- ===== src/Plugin/Handle.antt =====
-- `esphome_plugin_handle_message`: which plugins a message reaches.
use esphome_linux.Base.{
  ℕ, ◌≡◌, ◌⊎◌, inl, inr, refl, none, List, [], ◌∷◌, ◌++◌, ◌==◌, if◌then◌else◌, All, Bool-cases,
  Option-cases,
}
use esphome_linux.Plugin.{
  minus_one, Plugin, with_ctx, Managed, behind, offer, esphome_plugin_handle_message,
}

-- Going on with the plugins `qs` behind those that `m` has handled.
abbrev pub continue_with :
    {W : Type 0} → (List (Plugin W) → W → Managed W ℕ) → List (Plugin W) → Managed W ℕ → Managed W ℕ
continue_with handle qs m =
    if m.result == 0
    then record m { plugins = m.plugins ++ qs }
    else (let later = handle qs m.world in record later { plugins = m.plugins ++ later.plugins })

behind-continue_with :
    {W : Type 0} (handle : List (Plugin W) → W → Managed W ℕ) (p : Plugin W) (qs : List (Plugin W))
    (m : Managed W ℕ)
    → behind p (continue_with handle qs m) ≡ continue_with handle qs (behind p m)
behind-continue_with handle p qs m = elim (Bool-cases (m.result == 0)) [
  | inl e ↦ rw e refl
  | inr e ↦ rw e refl
]

-- The message is offered to the plugins in the order of the list, and those behind the first one
-- that answers 0 are left alone: handling by `ps ++ qs` is handling by `ps`, and then by `qs` in the
-- world that `ps` leave unless one of `ps` answered 0.
pub esphome_plugin_handle_message-append :
    {W : Type 0} (client_id msg_type : ℕ) (payload : List ℕ) (ps qs : List (Plugin W)) (w : W)
    → esphome_plugin_handle_message client_id msg_type payload (ps ++ qs) w
      ≡ continue_with
          (esphome_plugin_handle_message client_id msg_type payload)
          qs
          (esphome_plugin_handle_message client_id msg_type payload ps w)
unfolding esphome_plugin_handle_message
esphome_plugin_handle_message-append i t d [] qs w = refl
esphome_plugin_handle_message-append i t d (p ∷ ps) qs w = elim (Option-cases (offer i t d p w)) [
  | inl e ↦
      rw (e, esphome_plugin_handle_message-append i t d ps qs w, esphome_plugin_handle_message)
        (behind-continue_with (esphome_plugin_handle_message i t d) p qs
          (esphome_plugin_handle_message i t d ps w))
  | inr (answer, e) ↦ elim (Bool-cases (answer.result == 0)) [
    | inl z ↦ rw (e, z, esphome_plugin_handle_message) refl
    | inr nz ↦
        rw
          (
            e,
            nz,
            esphome_plugin_handle_message-append i t d ps qs answer.world,
            esphome_plugin_handle_message,
          )
          (behind-continue_with (esphome_plugin_handle_message i t d) (with_ctx p answer.ctx) qs
            (esphome_plugin_handle_message i t d ps answer.world))
  ]
]

-- The answer for a message is 0 or -1.
pub esphome_plugin_handle_message_result :
    {W : Type 0} (client_id msg_type : ℕ) (payload : List ℕ) (ps : List (Plugin W)) (w : W)
    → let m = esphome_plugin_handle_message client_id msg_type payload ps w in
      (m.result ≡ 0) ⊎ (m.result ≡ minus_one)
unfolding esphome_plugin_handle_message
esphome_plugin_handle_message_result i t d [] w = inr refl
esphome_plugin_handle_message_result i t d (p ∷ ps) w = elim (Option-cases (offer i t d p w)) [
  | inl e ↦ rw (e, esphome_plugin_handle_message) (esphome_plugin_handle_message_result i t d ps w)
  | inr (answer, e) ↦ elim (Bool-cases (answer.result == 0)) [
    | inl z ↦ rw (e, z, esphome_plugin_handle_message) (inl refl)
    | inr nz ↦
        rw (e, nz, esphome_plugin_handle_message)
          (esphome_plugin_handle_message_result i t d ps answer.world)
  ]
]

-- A plugin without a context is not called.
offer-inactive :
    {W : Type 0} (i t : ℕ) (d : List ℕ) (p : Plugin W) (w : W)
    → p.ctx ≡ none
    → offer i t d p w ≡ none
unfolding offer
offer-inactive i t d p w h = elim (Option-cases p.handle_message) [
  | inl e ↦ rw e refl
  | inr (f, e) ↦ rw (e, h) refl
]

pub handle_message-inactive :
    {W : Type 0} (i t : ℕ) (d : List ℕ) (ps : List (Plugin W)) (w : W)
    → All (λ p. p.ctx ≡ none) ps
    → esphome_plugin_handle_message i t d ps w
      ≡ record { result = minus_one; plugins = ps; world = w }
unfolding esphome_plugin_handle_message
handle_message-inactive i t d [] w h = refl
handle_message-inactive i t d (p ∷ ps) w (hp, hs) =
    rw
      (
        offer-inactive i t d p w hp,
        handle_message-inactive i t d ps w hs,
        esphome_plugin_handle_message,
      )
      refl
