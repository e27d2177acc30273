-- ===== src/Scanner/Forward.antt =====
-- The scanner of ble_scanner.cpp with the plugin's callback `on_ble_advertisement`: what a round of
-- reports makes of the batch.
use esphome_linux.Base.{ℕ, ◌≡◌, List, [], ◌∷◌}
use esphome_linux.Api.Server.{Server, System}
use esphome_linux.Proxy.{BleReport, ProxyState, on_ble_advertisement}
use esphome_linux.Proxy.Batch.{Holds, enqueue}

module _ {W : Type 0} (system : System W) (server : Server) (now : ℕ) where
  -- The callback that the plugin gives to the scanner.
  abbrev pub callback : BleReport → ProxyState × W → ProxyState × W
  callback advert s = on_ble_advertisement system server now advert s.0 s.1

  -- A queue that reports join one by one.
  abbrev pub enqueue_all : List BleReport → List BleReport × W → List BleReport × W
  enqueue_all [] q = q
  enqueue_all (advert ∷ adverts) q = enqueue_all adverts (enqueue system server q.0 advert q.1)

  -- The plugin's state and the world stand for a queue and a world.
  abbrev pub Refines : ProxyState × W → List BleReport × W → Type 0
  Refines s q = Holds s.0 q.0 × (s.1 ≡ q.1)
