-- ===== src/Plugin.antt =====
-- The plugin manager, src/esphome_plugin.c. The list that the `next` pointers make, from
-- `plugins_head` on, is a list here; `W` is all that a callback can change beside the context it is
-- given: the server, the operating system and the plugins' own data.
mod Tests
pub mod Handle
pub mod Lifecycle
pub mod Invariant
pub mod Life
use esphome_linux.Base.{
  ℕ, zero, suc, ◌+◌, ◌-◌, ◌^◌, Bool, true, false, Option, none, some, List, [], ◌∷◌, ltb, leb, ◌==◌,
  if◌then◌else◌,
}
use esphome_linux.Proto.Response.{DeviceInfoResponse}

-- An `int` is its bit pattern.
abbrev pub minus_one : ℕ
minus_one = 2 ^ 32 - 1

abbrev pub is_negative : ℕ → Bool
is_negative result = leb (2 ^ 31) result

-- `esphome_plugin_context_t`: three pointers, as addresses.
pub record Context : Type 0 where
  pub server : ℕ
  pub config : ℕ
  pub plugin_data : ℕ

-- What a callback that answers an `int` leaves.
pub record Answer (W : Type 0) : Type 0 where
  pub result : ℕ
  pub ctx : Context
  pub world : W

-- `esphome_plugin_t`; a null pointer is `none`.
pub record Plugin (W : Type 0) : Type 0 where
  pub name : List ℕ
  pub version : List ℕ
  pub init : Option (Context → W → Answer W)
  pub cleanup : Option (Context → W → W)
  pub handle_message : Option (Context → ℕ → ℕ → List ℕ → W → Answer W)
  pub configure_device_info :
      Option (Context → DeviceInfoResponse → W → DeviceInfoResponse × Answer W)
  pub list_entities : Option (Context → ℕ → W → Answer W)
  pub subscribe_states : Option (Context → ℕ → W → Answer W)
  pub ctx : Option Context

abbrev pub with_ctx : {W : Type 0} → Plugin W → Context → Plugin W
with_ctx p ctx = record p { ctx = some ctx }

-- What a function of the manager leaves, with what it returns.
pub record Managed (W : Type 0) (R : Type 0) : Type 0 where
  pub result : R
  pub plugins : List (Plugin W)
  pub world : W

-- The loop goes on behind the plugin that it has handled.
abbrev pub behind : {W R : Type 0} → Plugin W → Managed W R → Managed W R
behind p m = record m { plugins = p ∷ m.plugins }

module _ {W : Type 0} where
  unfoldable pub esphome_plugin_register : Option (Plugin W) → List (Plugin W) → List (Plugin W)
  esphome_plugin_register none plugins_head = plugins_head
  esphome_plugin_register (some plugin) plugins_head = plugin ∷ plugins_head

  -- One round of the loop of `esphome_plugin_init_all`: whether the plugin failed. `calloc` is the
  -- allocation of a context, which may fail.
  unfoldable pub init_plugin : (W → Bool × W) → ℕ → ℕ → Plugin W → W → Bool × (Plugin W × W)
  init_plugin calloc server config plugin w = elim plugin.init [
    | none ↦ (false, (plugin, w))
    | some init ↦
        let (allocated, w') = calloc w in
        let answer = init (record { server = server; config = config; plugin_data = 0 }) w' in
        if allocated
        then (if is_negative answer.result
            then (true, (plugin, answer.world))
            else (false, (with_ctx plugin answer.ctx, answer.world)))
        else (true, (plugin, w'))
  ]

  -- The loop: the number of plugins and of failures.
  unfoldable pub init_loop :
      (W → Bool × W) → ℕ → ℕ → List (Plugin W) → ℕ × ℕ → W → Managed W (ℕ × ℕ)
  unfolding init_plugin
  init_loop calloc server config [] counts w = record { result = counts; plugins = []; world = w }
  init_loop calloc server config (plugin ∷ next) (count, failed) w =
      let (fails, (plugin', w')) = init_plugin calloc server config plugin w in
      behind plugin'
        (init_loop calloc server config next (count + 1, (if fails then failed + 1 else failed)) w')

  unfoldable pub esphome_plugin_init_all :
      (W → Bool × W) → ℕ → ℕ → List (Plugin W) → W → Managed W ℕ
  unfolding init_loop
  esphome_plugin_init_all calloc server config plugins_head w =
      let done = init_loop calloc server config plugins_head (0, 0) w in
      record {
        result = (if ltb 0 done.result.1 then minus_one else 0);
        plugins = done.plugins;
        world = done.world;
      }

  -- One round of `esphome_plugin_cleanup_all`.
  unfoldable pub cleanup_plugin : Plugin W → W → Plugin W × W
  cleanup_plugin plugin w = elim plugin.cleanup [
    | none ↦ (plugin, w)
    | some cleanup ↦ elim plugin.ctx [
      | none ↦ (plugin, w)
      | some ctx ↦ (record plugin { ctx = none }, cleanup ctx w)
    ]
  ]

  unfoldable pub esphome_plugin_cleanup_all : List (Plugin W) → W → List (Plugin W) × W
  unfolding cleanup_plugin
  esphome_plugin_cleanup_all [] w = ([], w)
  esphome_plugin_cleanup_all (plugin ∷ next) w =
      let (plugin', w') = cleanup_plugin plugin w in
      let (next', w'') = esphome_plugin_cleanup_all next w' in (plugin' ∷ next', w'')

  unfoldable pub configure_plugin :
      Plugin W → DeviceInfoResponse → W → Plugin W × (DeviceInfoResponse × W)
  configure_plugin plugin info w = elim plugin.configure_device_info [
    | none ↦ (plugin, (info, w))
    | some configure ↦ elim plugin.ctx [
      | none ↦ (plugin, (info, w))
      | some ctx ↦
          let (info', answer) = configure ctx info w in
          (with_ctx plugin answer.ctx, (info', answer.world))
    ]
  ]

  -- What the callbacks answer is only logged; 0 is returned.
  unfoldable pub esphome_plugin_configure_device_info_all :
      List (Plugin W) → DeviceInfoResponse → W → Managed W DeviceInfoResponse
  unfolding configure_plugin
  esphome_plugin_configure_device_info_all [] info w = record {
    result = info;
    plugins = [];
    world = w;
  }
  esphome_plugin_configure_device_info_all (plugin ∷ next) info w =
      let (plugin', (info', w')) = configure_plugin plugin info w in
      behind plugin' (esphome_plugin_configure_device_info_all next info' w')

  -- A callback that is given the index of a client, `list_entities` or `subscribe_states`.
  unfoldable pub call_for_client :
      (Plugin W → Option (Context → ℕ → W → Answer W)) → ℕ → Plugin W → W → Plugin W × W
  call_for_client callback client_id plugin w = elim (callback plugin) [
    | none ↦ (plugin, w)
    | some f ↦ elim plugin.ctx [
      | none ↦ (plugin, w)
      | some ctx ↦ let answer = f ctx client_id w in (with_ctx plugin answer.ctx, answer.world)
    ]
  ]

  unfoldable pub call_all :
      (Plugin W → Option (Context → ℕ → W → Answer W))
      → ℕ
      → List (Plugin W)
      → W
      → List (Plugin W) × W
  unfolding call_for_client
  call_all callback client_id [] w = ([], w)
  call_all callback client_id (plugin ∷ next) w =
      let (plugin', w') = call_for_client callback client_id plugin w in
      let (next', w'') = call_all callback client_id next w' in (plugin' ∷ next', w'')

  abbrev pub esphome_plugin_list_entities_all : ℕ → List (Plugin W) → W → List (Plugin W) × W
  esphome_plugin_list_entities_all = call_all (λ p. p.list_entities)

  abbrev pub esphome_plugin_subscribe_states_all : ℕ → List (Plugin W) → W → List (Plugin W) × W
  esphome_plugin_subscribe_states_all = call_all (λ p. p.subscribe_states)

  -- One round of `esphome_plugin_handle_message`; `none` for a plugin that is passed over.
  unfoldable pub offer : ℕ → ℕ → List ℕ → Plugin W → W → Option (Answer W)
  offer client_id msg_type payload plugin w = elim plugin.handle_message [
    | none ↦ none
    | some handle ↦ elim plugin.ctx [
      | none ↦ none
      | some ctx ↦ some (handle ctx client_id msg_type payload w)
    ]
  ]

  unfoldable pub esphome_plugin_handle_message : ℕ → ℕ → List ℕ → List (Plugin W) → W → Managed W ℕ
  unfolding offer
  esphome_plugin_handle_message client_id msg_type payload [] w = record {
    result = minus_one;
    plugins = [];
    world = w;
  }
  esphome_plugin_handle_message client_id msg_type payload (plugin ∷ next) w =
      elim (offer client_id msg_type payload plugin w) [
        | none ↦ behind plugin (esphome_plugin_handle_message client_id msg_type payload next w)
        | some answer ↦
            let plugin' = with_ctx plugin answer.ctx in
            let others =
              esphome_plugin_handle_message client_id msg_type payload next answer.world in
            if answer.result == 0
            then record { result = 0; plugins = plugin' ∷ next; world = answer.world }
            else behind plugin' others
      ]
