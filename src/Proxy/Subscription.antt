-- ===== src/Proxy/Subscription.antt =====
-- The subscription of plugins/bluetooth_proxy/bluetooth_proxy_plugin.c over several messages.
use esphome_linux.Base.{◌≡◌, refl, true, false, Option, none, some, arith, Bool-cases, inl, inr}
use esphome_linux.Plugin.{is_negative}
use esphome_linux.Proxy.{ProxyState, Scanner, bluetooth_proxy_handle_message}

module _ {W : Type 0} (scanner : Scanner W) where
  -- Once a SubscribeBluetoothLEAdvertisementsRequest has been answered with 0, a second one is
  -- answered with 0 too and does nothing: the scanner is not started again.
  pub subscribe_twice :
      (state : Option ProxyState) (w : W)
      → let first = bluetooth_proxy_handle_message scanner 66 state w in
        first.0 ≡ 0
        → bluetooth_proxy_handle_message scanner 66 first.1.0 first.1.1
          ≡ (0, (first.1.0, first.1.1))
  unfolding bluetooth_proxy_handle_message
  subscribe_twice none w h = absurd (omega (arith, h))
  subscribe_twice (some state) w h = elim (Bool-cases state.scanner) [
    | inr missing ↦ absurd (omega (arith, rw missing at h))
    | inl present ↦ elim (Bool-cases state.subscribed) [
      | inl already ↦ rw (present, already) refl
      | inr idle ↦ elim (Bool-cases (is_negative (scanner.start w).0)) [
        | inl failed ↦ absurd (omega (arith, rw (present, idle, failed) at h))
        | inr started ↦ rw (present, idle, started) refl
      ]
    ]
  ]

  -- From a state that has a scanner and no subscription, subscribing and unsubscribing, with a scanner
  -- that starts and then stops without an error, start and stop it once and restore the state.
  pub subscribe_unsubscribe :
      (state : ProxyState) (w : W)
      → state.scanner ≡ true
      → state.subscribed ≡ false
      → is_negative (scanner.start w).0 ≡ false
      → is_negative (scanner.stop (scanner.start w).1).0 ≡ false
      → let first = bluetooth_proxy_handle_message scanner 66 (some state) w in
        bluetooth_proxy_handle_message scanner 87 first.1.0 first.1.1
        ≡ (0, (some state, (scanner.stop (scanner.start w).1).1))
  unfolding bluetooth_proxy_handle_message
  subscribe_unsubscribe state w present idle started stopped =
      rw (present, idle, started, stopped) refl
