-- ===== src/Plugin/Lifecycle.antt =====
-- The contexts of the plugins, from `esphome_plugin_init_all` to `esphome_plugin_cleanup_all`.
use esphome_linux.Base.{
  ℕ, ◌+◌, ◌≤◌, ◌≡◌, inl, inr, refl, Bool, true, false, ◌&&◌, Option, none, some, List, [], ◌∷◌,
  arith, leb, if◌then◌else◌, All, Bool-cases, Option-cases,
}
use esphome_linux.Plugin.{
  minus_one, is_negative, Plugin, init_plugin, init_loop, esphome_plugin_init_all, cleanup_plugin,
  esphome_plugin_cleanup_all,
}

abbrev pub is_some {ℓ} : {A : Type ℓ} → Option A → Bool
is_some none = false
is_some (some a) = true

-- A plugin that needs no initialisation or has a context.
abbrev pub ready : {W : Type 0} → Plugin W → Bool
ready p = if is_some p.init then is_some p.ctx else true

abbrev pub all_ready : {W : Type 0} → List (Plugin W) → Bool
all_ready [] = true
all_ready (p ∷ ps) = ready p && all_ready ps

module _ {W : Type 0} (calloc : W → Bool × W) (server config : ℕ) where
  init_plugin-ready :
      (p : Plugin W) (w : W)
      → p.ctx ≡ none
      → let (fails, (p', w')) = init_plugin calloc server config p w in
        ready p' ≡ (if fails then false else true)
  unfolding init_plugin
  init_plugin-ready p w h = elim (Option-cases p.init) [
    | inl e ↦ rw e refl
    | inr (f, e) ↦ elim (Bool-cases (calloc w).0) [
      | inr full ↦ rw (e, full, h) refl
      | inl given ↦
          let answer =
            f (record { server = server; config = config; plugin_data = 0 }) (calloc w).1 in
          elim (Bool-cases (is_negative answer.result)) [
            | inl neg ↦ rw (e, given, neg, h) refl
            | inr pos ↦ rw (e, given, pos) refl
          ]
    ]
  ]

  -- The loop fails once for each plugin that it does not make ready.
  init_loop-all_ready :
      (ps : List (Plugin W)) (count failed : ℕ) (w : W)
      → All (λ p. p.ctx ≡ none) ps
      → let done = init_loop calloc server config ps (count, failed) w in
        (failed ≤ done.result.1) × (all_ready done.plugins ≡ leb done.result.1 failed)
  unfolding init_loop
  init_loop-all_ready [] count failed w h = (omega arith, ground arith)
  init_loop-all_ready (p ∷ ps) count failed w (hp, hs) =
      let round = init_plugin calloc server config p w in
      let is_ready = init_plugin-ready p w hp in
      elim (Bool-cases round.0) [
        | inl bad ↦
            let (le, later) = init_loop-all_ready ps (count + 1) (failed + 1) round.1.1 hs in
            rw (bad, rw bad at is_ready) (omega (arith, le), ground (arith, le))
        | inr good ↦
            let (le, later) = init_loop-all_ready ps (count + 1) failed round.1.1 hs in
            rw (good, rw good at is_ready) (le, later)
      ]

  -- From plugins without contexts, initialisation returns 0 if every plugin that has an `init`
  -- callback has a context after it, and -1 if one has not.
  pub esphome_plugin_init_all-all_ready :
      (ps : List (Plugin W)) (w : W)
      → All (λ p. p.ctx ≡ none) ps
      → let done = esphome_plugin_init_all calloc server config ps w in
        done.result ≡ (if all_ready done.plugins then 0 else minus_one)
  unfolding esphome_plugin_init_all
  esphome_plugin_init_all-all_ready ps w h =
      let (le, told) = init_loop-all_ready ps 0 0 w h in rw told (ground arith)

cleanup_plugin_twice :
    {W : Type 0} (p : Plugin W) (w : W) (w' : W)
    → cleanup_plugin (cleanup_plugin p w).0 w' ≡ ((cleanup_plugin p w).0, w')
unfolding cleanup_plugin
cleanup_plugin_twice p w w' = elim (Option-cases p.cleanup) [
  | inl e ↦ rw e refl
  | inr (f, e) ↦ elim (Option-cases p.ctx) [ inl n ↦ rw (e, n) refl | inr (c, n) ↦ rw (e, n) refl ]
]

-- A second cleanup calls nothing and changes nothing.
pub esphome_plugin_cleanup_all_twice :
    {W : Type 0} (ps : List (Plugin W)) (w w' : W)
    → let done = esphome_plugin_cleanup_all ps w in
      esphome_plugin_cleanup_all done.0 w' ≡ (done.0, w')
unfolding esphome_plugin_cleanup_all
esphome_plugin_cleanup_all_twice [] w w' = refl
esphome_plugin_cleanup_all_twice (p ∷ ps) w w' =
    rw (cleanup_plugin_twice p w w', esphome_plugin_cleanup_all_twice ps (cleanup_plugin p w).1 w')
      refl
