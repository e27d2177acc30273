-- ===== src/Plugin/Tests.antt =====
-- The theorems on src/esphome_plugin.c at concrete plugins, whose world counts the calls.
use esphome_linux.Base.{
  ℕ, ◌+◌, ◌≡◌, ◌⊎◌, refl, Bool, true, none, some, [], ◌∷◌, ◌++◌, if◌then◌else◌, ◌==◌,
}
use esphome_linux.Plugin.{
  minus_one, Context, Plugin, esphome_plugin_init_all, esphome_plugin_cleanup_all,
  esphome_plugin_handle_message,
}
use esphome_linux.Plugin.Handle.{
  continue_with, esphome_plugin_handle_message-append, esphome_plugin_handle_message_result,
}
use esphome_linux.Plugin.Lifecycle.{
  all_ready, esphome_plugin_init_all-all_ready, esphome_plugin_cleanup_all_twice,
}

-- A plugin that handles messages of one type, and whose initialisation answers `start`.
abbrev counter : ℕ → ℕ → Plugin ℕ
counter start mine = record {
  name = [];
  version = [];
  init = some (λ ctx w. record { result = start; ctx = ctx; world = w + 1 });
  cleanup = some (λ ctx w. w + 10);
  handle_message = some (λ ctx client_id msg_type payload w. record {
    result = if msg_type == mine then 0 else minus_one;
    ctx = ctx;
    world = w + 1;
  });
  configure_device_info = none;
  list_entities = none;
  subscribe_states = none;
  ctx = none;
}

abbrev context : Context
context = record { server = 1; config = 2; plugin_data = 0 }

abbrev active : ℕ → Plugin ℕ
active mine = record (counter 0 mine) { ctx = some context }

abbrev always : ℕ → Bool × ℕ
always w = (true, w)

-- The second plugin answers, and the third is not asked.
second_answers :
    (esphome_plugin_handle_message 0 66 [] (active 1 ∷ active 66 ∷ active 66 ∷ []) 0).world ≡ 2
unfolding esphome_plugin_handle_message
second_answers = refl

one_fails :
    (esphome_plugin_init_all always 1 2 (counter 0 1 ∷ counter minus_one 2 ∷ []) 0).result
    ≡ minus_one
unfolding esphome_plugin_init_all
one_fails = refl

cleaned_world : (esphome_plugin_cleanup_all (active 1 ∷ counter 0 2 ∷ []) 0).1 ≡ 10
unfolding esphome_plugin_cleanup_all
cleaned_world = refl

esphome_plugin_handle_message-append_example :
    esphome_plugin_handle_message 0 66 [] ((active 66 ∷ []) ++ (active 1 ∷ [])) 0
    ≡ continue_with
        (esphome_plugin_handle_message 0 66 [])
        (active 1 ∷ [])
        (esphome_plugin_handle_message 0 66 [] (active 66 ∷ []) 0)
esphome_plugin_handle_message-append_example =
    esphome_plugin_handle_message-append 0 66 [] (active 66 ∷ []) (active 1 ∷ []) 0

esphome_plugin_handle_message_result_example :
    let m = esphome_plugin_handle_message 0 66 [] (active 1 ∷ []) 0 in
    (m.result ≡ 0) ⊎ (m.result ≡ minus_one)
esphome_plugin_handle_message_result_example =
    esphome_plugin_handle_message_result 0 66 [] (active 1 ∷ []) 0

esphome_plugin_init_all-all_ready_example :
    let done = esphome_plugin_init_all always 1 2 (counter 0 1 ∷ counter minus_one 2 ∷ []) 0 in
    done.result ≡ (if all_ready done.plugins then 0 else minus_one)
esphome_plugin_init_all-all_ready_example =
    esphome_plugin_init_all-all_ready always 1 2 (counter 0 1 ∷ counter minus_one 2 ∷ []) 0
      (refl, (refl, tt))

esphome_plugin_cleanup_all_twice_example :
    let done = esphome_plugin_cleanup_all (active 1 ∷ []) 0 in
    esphome_plugin_cleanup_all done.0 5 ≡ (done.0, 5)
esphome_plugin_cleanup_all_twice_example = esphome_plugin_cleanup_all_twice (active 1 ∷ []) 0 5
