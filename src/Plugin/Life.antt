-- ===== src/Plugin/Life.antt =====
-- What the callbacks of plugins preserve, initialising and cleaning up preserves.
use esphome_linux.Base.{
  ℕ, ◌+◌, ◌≡◌, Bool, none, some, List, [], ◌∷◌, All, if◌then◌else◌, Bool-cases, Option-cases, inl,
  inr,
}
use esphome_linux.Plugin.{
  Context, Answer, Plugin, is_negative, with_ctx, init_plugin, init_loop, esphome_plugin_init_all,
  cleanup_plugin, esphome_plugin_cleanup_all,
}
use esphome_linux.Plugin.Invariant.{Preserves, with_ctx-Preserves}

-- All callbacks preserve `P`, those at the start and the end of a plugin's life included.
pub record PreservesLife {W : Type 0} (P : W → Type 0) (p : Plugin W) : Type 0 where
  pub served : Preserves P p
  pub init :
      (f : Context → W → Answer W)
      → p.init ≡ some f
      → (ctx : Context) (w : W) → P w
      → P (f ctx w).world
  pub cleanup :
      (f : Context → W → W) → p.cleanup ≡ some f → (ctx : Context) (w : W) → P w → P (f ctx w)

abbrev pub without_ctx : {W : Type 0} → Plugin W → Plugin W
without_ctx p = record p { ctx = none }

module _ {W : Type 0} (P : W → Type 0) where
  pub with_ctx-PreservesLife :
      (p : Plugin W) (ctx : Context) → PreservesLife P p → PreservesLife P (with_ctx p ctx)
  with_ctx-PreservesLife p ctx h = record {
    served = with_ctx-Preserves P p ctx h.served;
    init = h.init;
    cleanup = h.cleanup;
  }

  without_ctx-PreservesLife : (p : Plugin W) → PreservesLife P p → PreservesLife P (without_ctx p)
  without_ctx-PreservesLife p h = record {
    served = record {
      handle_message = h.served.handle_message;
      configure_device_info = h.served.configure_device_info;
      list_entities = h.served.list_entities;
      subscribe_states = h.served.subscribe_states;
    };
    init = h.init;
    cleanup = h.cleanup;
  }

  cleanup_plugin-keeps :
      (p : Plugin W) (w : W)
      → PreservesLife P p
      → P w
      → let (p', w') = cleanup_plugin p w in P w' × PreservesLife P p'
  unfolding cleanup_plugin
  cleanup_plugin-keeps p w h hw = elim (Option-cases p.cleanup) [
    | inl null ↦ rw (null, cleanup_plugin) (hw, h)
    | inr (f, yes_f) ↦ elim (Option-cases p.ctx) [
      | inl null ↦ rw (yes_f, null, cleanup_plugin) (hw, h)
      | inr (ctx, yes_ctx) ↦
          rw (yes_f, yes_ctx, cleanup_plugin)
            (h.cleanup f yes_f ctx w hw, without_ctx-PreservesLife p h)
    ]
  ]

  pub cleaning-keeps :
      (ps : List (Plugin W)) (w : W)
      → All (PreservesLife P) ps
      → P w
      → let (ps', w') = esphome_plugin_cleanup_all ps w in P w' × All (PreservesLife P) ps'
  unfolding esphome_plugin_cleanup_all
  cleaning-keeps [] w h hw = (hw, tt)
  cleaning-keeps (p ∷ ps) w (hp, hs) hw =
      let first = cleanup_plugin-keeps p w hp hw in
      let done = cleanup_plugin p w in
      let later = cleaning-keeps ps done.1 hs first.0 in (later.0, (first.1, later.1))

  module _ (calloc : W → Bool × W) (calloc-keeps : (w : W) → P w → P (calloc w).1)
      (server config : ℕ) where
    init_plugin-keeps :
        (p : Plugin W) (w : W)
        → PreservesLife P p
        → P w
        → let (fails, (p', w')) = init_plugin calloc server config p w in P w' × PreservesLife P p'
    unfolding init_plugin
    init_plugin-keeps p w h hw = elim (Option-cases p.init) [
      | inl null ↦ rw (null, init_plugin) (hw, h)
      | inr (f, yes_f) ↦
          let given : Context = record { server = server; config = config; plugin_data = 0 } in
          let answer = f given (calloc w).1 in
          let kept = h.init f yes_f given (calloc w).1 (calloc-keeps w hw) in
          elim (Bool-cases (calloc w).0) [
            | inr no_memory ↦ rw (yes_f, no_memory, init_plugin) (calloc-keeps w hw, h)
            | inl allocated ↦ elim (Bool-cases (is_negative answer.result)) [
              | inl failed ↦ rw (yes_f, allocated, failed, init_plugin) (kept, h)
              | inr ready ↦
                  rw (yes_f, allocated, ready, init_plugin)
                    (kept, with_ctx-PreservesLife p answer.ctx h)
            ]
          ]
    ]

    init_loop-keeps :
        (ps : List (Plugin W)) (counts : ℕ × ℕ) (w : W)
        → All (PreservesLife P) ps
        → P w
        → let m = init_loop calloc server config ps counts w in
          P m.world × All (PreservesLife P) m.plugins
    unfolding init_loop
    init_loop-keeps [] counts w h hw = (hw, tt)
    init_loop-keeps (p ∷ ps) (n, failed) w (hp, hs) hw =
        let first = init_plugin-keeps p w hp hw in
        let done = init_plugin calloc server config p w in
        let later =
          init_loop-keeps ps (n + 1, (if done.0 then failed + 1 else failed)) done.1.1 hs first.0 in
        (later.0, (first.1, later.1))

    pub initialising-keeps :
        (ps : List (Plugin W)) (w : W)
        → All (PreservesLife P) ps
        → P w
        → let m = esphome_plugin_init_all calloc server config ps w in
          P m.world × All (PreservesLife P) m.plugins
    unfolding esphome_plugin_init_all
    initialising-keeps ps w h hw = init_loop-keeps ps (0, 0) w h hw
