-- ===== src/Service/Sound.antt =====
-- The plugin, the scanner and the server together: what holds from the plugin's start to its end.
use esphome_linux.Base.{
  ℕ, ◌≡◌, sym, Bool, false, Option, none, some, List, All, ltb, leb, ◌==◌, if◌then◌else◌,
  Bool-cases, Option-cases, inl, inr, arith, uninitialised,
}
use mathlib.Core.Path.{subst}
use mathlib.Core.Option.{some-injective, none-ne-some}
use esphome_linux.Proto.Response.{DeviceInfoResponse}
use esphome_linux.Proto.Advertisements.{esphome_encode_ble_advertisements}
use esphome_linux.Plugin.{Context, Answer}
use esphome_linux.Plugin.Invariant.{Preserves, with_ctx-Preserves}
use esphome_linux.Api.Server.{Server, World, Node, System}
use esphome_linux.Api.Send.Keeps.{broadcasting-keeps}
use esphome_linux.Api.Handlers.Unchanged.{choose, dispatch_message-Keeps}
use esphome_linux.Proxy.{
  BleReport, ProxyState, Scanner, append_entry, flush_ble_batch, on_ble_advertisement,
  bluetooth_proxy_handle_message, handle_subscribe_ble_advertisements,
  handle_unsubscribe_ble_advertisements,
}
use esphome_linux.Scanner.Control.{BleScanner, Driver, ble_scanner}
use esphome_linux.Scanner.Lifecycle.{DriverLaws}
use esphome_linux.Scanner.Subscription.{Agrees, bluetooth_proxy_handle_message-Agrees}
use esphome_linux.Service.{
  Outside, ProxyHost, system_outside, state_of, handle_message_callback,
  configure_device_info_callback, bluetooth_proxy_plugin, report_to, flush_from, Event, message,
  report, flush, happen,
}
use esphome_linux.Service.Radio.{Unseen, Idle, Sound, Sound-same}

-- Without a state, or without a scanner, a message changes nothing.
pub handle_message-stateless :
    {W : Type 0} (scanner : Scanner W) (t : ℕ) (w : W)
    → (bluetooth_proxy_handle_message scanner t none w).1 ≡ (none, w)
unfolding bluetooth_proxy_handle_message handle_subscribe_ble_advertisements
    handle_unsubscribe_ble_advertisements
handle_message-stateless scanner t w = ground arith

handle_message-silent :
    {W : Type 0} (scanner : Scanner W) (t : ℕ) (state : ProxyState) (w : W)
    → state.scanner ≡ false
    → (bluetooth_proxy_handle_message scanner t (some state) w).1 ≡ (some state, w)
unfolding bluetooth_proxy_handle_message handle_subscribe_ble_advertisements
    handle_unsubscribe_ble_advertisements
handle_message-silent scanner t state w absent = rw absent (ground arith)

module _ {V : Type 0} (system : System V) (driver : Driver V) (host : ProxyHost V)
    (scans : V → Bool) (threads : V → ℕ) (laws : DriverLaws driver scans threads)
    (no_scan : Unseen system driver host scans)
    (no_thread : Unseen system driver host threads) where
  abbrev IsSound : Outside V → Type 0
  IsSound o = Sound scans threads o.proxy o.ble o.rest

  -- The plugin, its scanner and the radio agree.
  abbrev pub SoundWorld : World (Outside V) → Type 0
  SoundWorld world = IsSound world.outside

  abbrev SoundHandled : ℕ × (Option ProxyState × (Option BleScanner × V)) → Type 0
  SoundHandled r = Sound scans threads r.1.0 r.1.1.0 r.1.1.1

  Agrees-Sound :
      (proxy : Option ProxyState) (s : Option BleScanner × V)
      → Agrees driver scans threads laws proxy s
      → Sound scans threads proxy s.0 s.1
  Agrees-Sound none s h = absurd h
  Agrees-Sound (some state) (none, v) h = absurd h
  Agrees-Sound (some state) (some ble, v) h = h

  handled-Sound :
      (t : ℕ) (proxy : Option ProxyState) (ble : Option BleScanner) (v : V)
      → Sound scans threads proxy ble v
      → SoundHandled (bluetooth_proxy_handle_message (ble_scanner driver) t proxy (ble, v))
  handled-Sound t none ble v h =
      subst
        (λ (r : Option ProxyState × (Option BleScanner × V)). Sound scans threads r.0 r.1.0 r.1.1)
        (sym (handle_message-stateless (ble_scanner driver) t (ble, v))) h
  handled-Sound t (some state) none v h =
      subst
        (λ (r : Option ProxyState × (Option BleScanner × V)). Sound scans threads r.0 r.1.0 r.1.1)
        (sym (handle_message-silent (ble_scanner driver) t state (none, v) h.0)) h
  handled-Sound t (some state) (some ble) v h =
      let r = bluetooth_proxy_handle_message (ble_scanner driver) t (some state) (some ble, v) in
      Agrees-Sound r.1.0 r.1.1
        (bluetooth_proxy_handle_message-Agrees driver scans threads laws t state ble v h).0

  handle_message-Sound :
      (ctx : Context) (client_id t : ℕ) (payload : List ℕ) (world : World (Outside V))
      → SoundWorld world
      → SoundWorld (handle_message_callback driver host ctx client_id t payload world).world
  unfolding handle_message_callback
  handle_message-Sound ctx client_id t payload world h =
      let o = world.outside in
      let s : Option BleScanner × V = (o.ble, o.rest) in
      elim (Bool-cases (ctx.plugin_data == 0)) [
        | inl null ↦
            let same = handle_message-stateless (ble_scanner driver) t s in
            let kept =
              subst
                (λ (r : Option ProxyState × (Option BleScanner × V)).
                  Sound scans threads o.proxy r.1.0 r.1.1)
                (sym same) h in
            rw null kept
        | inr there ↦ rw there (handled-Sound t o.proxy o.ble o.rest h)
      ]

  pub bluetooth_proxy_plugin-Preserves : Preserves SoundWorld (bluetooth_proxy_plugin driver host)
  unfolding configure_device_info_callback
  bluetooth_proxy_plugin-Preserves = record {
    handle_message = λ f e ctx i t d world h.
        subst
          (λ (g : Context → ℕ → ℕ → List ℕ → World (Outside V) → Answer (World (Outside V))).
            SoundWorld (g ctx i t d world).world)
          (some-injective (handle_message_callback driver host) f e)
          (handle_message-Sound ctx i t d world h);
    configure_device_info = λ f e ctx info world h.
        subst
          (λ (g : Context
              → DeviceInfoResponse
              → World (Outside V)
              → DeviceInfoResponse × Answer (World (Outside V))).
            SoundWorld (g ctx info world).1.world)
          (some-injective (configure_device_info_callback driver host) f e) h;
    list_entities = λ f e. absurd (none-ne-some f e);
    subscribe_states = λ f e. absurd (none-ne-some f e);
  }

  sends-Sound :
      (proxy : Option ProxyState) (fd : ℕ) (bytes : List ℕ) (o : Outside V)
      → Sound scans threads proxy o.ble o.rest
      → let o' = ((system_outside system).send fd bytes o).1 in
        Sound scans threads proxy o'.ble o'.rest
  sends-Sound proxy fd bytes o h =
      Sound-same scans threads proxy o.ble (no_scan.send fd bytes o.rest)
        (no_thread.send fd bytes o.rest) h

  -- What a call leaves of the plugin's state and of the world.
  abbrev SoundPair : ProxyState × Outside V → Type 0
  SoundPair r = Sound scans threads (some r.0) r.1.ble r.1.rest

  flush-Sound :
      (server : Server) (now : ℕ) (state : ProxyState) (o : Outside V)
      → SoundPair (state, o)
      → SoundPair (flush_ble_batch (system_outside system) server now state o)
  unfolding flush_ble_batch
  flush-Sound server now state o h =
      let encoded = esphome_encode_ble_advertisements (uninitialised 4096) 4096 state.ble_batch in
      choose SoundPair (state.ble_batch.count == 0) h (
        choose (λ (o' : Outside V). Sound scans threads (some state) o'.ble o'.rest)
          (ltb 0 encoded.0)
          (broadcasting-keeps (system_outside system)
            (λ o'. Sound scans threads (some state) o'.ble o'.rest) (sends-Sound (some state))
            server 93 encoded.1 encoded.0 o h)
          h)

  report-Sound :
      (server : Server) (now : ℕ) (advert : BleReport) (state : ProxyState) (o : Outside V)
      → SoundPair (state, o)
      → SoundPair (on_ble_advertisement (system_outside system) server now advert state o)
  unfolding on_ble_advertisement
  report-Sound server now advert state o h =
      let ready =
        if leb 16 state.ble_batch.count
        then flush_ble_batch (system_outside system) server now state o
        else (state, o) in
      let readied : SoundPair ready =
        choose SoundPair (leb 16 state.ble_batch.count) (flush-Sound server now state o h) h in
      let added = append_entry advert ready.0 in
      choose SoundPair (leb 16 added.ble_batch.count) (flush-Sound server now added ready.1 readied)
        readied

  -- The plugin's state and scanner, and the radio, are those of a plugin that has not started.
  abbrev pub OffWorld : World (Outside V) → Type 0
  OffWorld world =
      (world.outside.proxy ≡ none)
      × (world.outside.ble ≡ none)
      × Idle scans threads world.outside.rest

  state_of-some :
      (ctx : Context) (o : Outside V) (state : ProxyState)
      → state_of ctx o ≡ some state
      → o.proxy ≡ some state
  state_of-some ctx o state e = elim (Bool-cases (ctx.plugin_data == 0)) [
    | inl null ↦ (let no = rw null at e in absurd (none-ne-some state no))
    | inr there ↦ (let yes = rw there at e in yes)
  ]

  -- The state that the plugin has.
  present :
      (o : Outside V) (state : ProxyState) → o.proxy ≡ some state → IsSound o → SoundPair (state, o)
  present o state e h = subst (λ (p : Option ProxyState). Sound scans threads p o.ble o.rest) e h

  report_to-Sound :
      (now : ℕ) (ctx : Context) (advert : BleReport) (world : World (Outside V))
      → SoundWorld world
      → SoundWorld (report_to system now ctx advert world)
  unfolding report_to
  report_to-Sound now ctx advert world h = elim (Option-cases (state_of ctx world.outside)) [
    | inl null ↦ rw (null, report_to) h
    | inr (state, there) ↦
        rw (there, report_to)
          (report-Sound world.server now advert state world.outside
            (present world.outside state (state_of-some ctx world.outside state there) h))
  ]

  flush_from-Sound :
      (now : ℕ) (world : World (Outside V))
      → SoundWorld world
      → SoundWorld (flush_from system now world)
  unfolding flush_from
  flush_from-Sound now world h = elim (Option-cases world.outside.proxy) [
    | inl null ↦ rw (null, flush_from) h
    | inr (state, there) ↦
        rw (there, flush_from)
          (flush-Sound world.server now state world.outside (present world.outside state there h))
  ]

  pub happen-Sound :
      (build_time : List ℕ) (event : Event) (node : Node (Outside V))
      → SoundWorld node.world
      → All (Preserves SoundWorld) node.plugins
      → let node' = happen system build_time event node in
        SoundWorld node'.world × All (Preserves SoundWorld) node'.plugins
  unfolding happen
  happen-Sound build_time (message slot t payload) node h hs =
      dispatch_message-Keeps (system_outside system) build_time slot SoundWorld
        (λ fd bytes world. sends-Sound world.outside.proxy fd bytes world.outside) (λ world h. h)
        (Preserves SoundWorld) (λ p hp. hp) (with_ctx-Preserves SoundWorld) t payload node (h, hs)
  happen-Sound build_time (report now ctx advert) node h hs =
      (report_to-Sound now ctx advert node.world h, hs)
  happen-Sound build_time (flush now) node h hs = (flush_from-Sound now node.world h, hs)
