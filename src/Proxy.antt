-- ===== src/Proxy.antt =====
-- The Bluetooth proxy, plugins/bluetooth_proxy/bluetooth_proxy_plugin.c: batches of advertisements and
-- the subscription. The scanner that it calls is a parameter.
pub mod Flush
pub mod Run
pub mod Batch
pub mod Subscription
mod Tests
use esphome_linux.Base.{
  ℕ, zero, suc, ◌+◌, ◌-◌, ◌*◌, ◌%◌, ◌/◌, ◌^◌, ◌<◌, bit_or, min, Bool, true, false, not, ◌&&◌,
  Option, none, some, List, [], ◌∷◌, take, length, replicate, set, get_or, write_at, ltb, leb, ◌==◌,
  if◌then◌else◌, uninitialised,
}
use esphome_linux.Proto.Response.{
  DeviceInfoResponse, BleAdvertisement, BleAdvertisementsResponse, max_adv_data, max_adv_batch,
}
use esphome_linux.Proto.Advertisements.{esphome_encode_ble_advertisements}
use esphome_linux.Plugin.{minus_one, is_negative}
use esphome_linux.Api.Server.{Server, System}
use esphome_linux.Api.Send.{esphome_plugin_send_message}

abbrev pub ble_max_adv_batch : ℕ
ble_max_adv_batch = 16

abbrev pub msg_bluetooth_le_raw_advertisements_response : ℕ
msg_bluetooth_le_raw_advertisements_response = 93

-- `ble_advertisement_t`, as the scanner reports it; `rssi` is the bit pattern of an `int8_t`.
pub record BleReport : Type 0 where
  pub address : List ℕ
  pub address_type : ℕ
  pub rssi : ℕ
  pub bytes : List ℕ
  pub data_len : ℕ

-- `bluetooth_proxy_state_t`, without its mutex, its thread and its context; `scanner` says whether
-- the pointer is not null, and `last_flush` is a time.
pub record ProxyState : Type 0 where
  pub scanner : Bool
  pub subscribed : Bool
  pub ble_batch : BleAdvertisementsResponse
  pub last_flush : ℕ
  pub flush_thread_running : Bool

-- `result |= ((uint64_t)mac[i]) << ((5 - i) * 8);` for the bytes from index `i` on.
abbrev pub mac_loop : ℕ → ℕ → List ℕ → ℕ
mac_loop i result [] = result
mac_loop i result (x ∷ xs) = mac_loop (i + 1) (bit_or result (x * 2 ^ ((5 - i) * 8) % 2 ^ 64)) xs

unfoldable pub mac_to_uint64 : List ℕ → ℕ
mac_to_uint64 mac = mac_loop 0 0 mac

-- An `int8_t` as an `int32_t`.
abbrev pub widen : ℕ → ℕ
widen rssi = if ltb rssi 128 then rssi else rssi + (2 ^ 32 - 256)

-- The entry that is written over what its slot holds.
abbrev pub entry : BleReport → BleAdvertisement → BleAdvertisement
entry advert old =
    let copy_len = min advert.data_len max_adv_data in
    record {
      address = mac_to_uint64 advert.address;
      rssi = widen advert.rssi;
      address_type = advert.address_type;
      bytes = write_at old.bytes 0 (take copy_len advert.bytes);
      data_len = copy_len;
    }

abbrev pub empty_entry : BleAdvertisement
empty_entry = record {
  address = 0;
  rssi = 0;
  address_type = 0;
  bytes = replicate max_adv_data 0;
  data_len = 0;
}

abbrev pub with_count : ProxyState → ℕ → ProxyState
with_count state count = record state {
  ble_batch = record { advertisements = state.ble_batch.advertisements; count = count };
}

abbrev pub append_entry : BleReport → ProxyState → ProxyState
append_entry advert state =
    let count = state.ble_batch.count in
    let old = get_or state.ble_batch.advertisements count empty_entry in
    record state {
      ble_batch = record {
        advertisements = set state.ble_batch.advertisements count (entry advert old);
        count = count + 1;
      };
    }

module _ {W : Type 0} (system : System W) (server : Server) where
  -- `now` is what `clock_gettime` stores.
  unfoldable pub flush_ble_batch : ℕ → ProxyState → W → ProxyState × W
  flush_ble_batch now state w =
      let (len, encode_buf) =
        esphome_encode_ble_advertisements (uninitialised 4096) 4096 state.ble_batch in
      let sent =
        (esphome_plugin_send_message system (some (some server))
          msg_bluetooth_le_raw_advertisements_response encode_buf len w).1 in
      if state.ble_batch.count == 0
      then (state, w)
      else (record (with_count state 0) { last_flush = now }, (if ltb 0 len then sent else w))

  unfoldable pub on_ble_advertisement : ℕ → BleReport → ProxyState → W → ProxyState × W
  unfolding flush_ble_batch
  on_ble_advertisement now advert state w =
      let (ready, w') =
        if leb ble_max_adv_batch state.ble_batch.count
        then flush_ble_batch now state w
        else (state, w) in
      let added = append_entry advert ready in
      if leb ble_max_adv_batch added.ble_batch.count
      then flush_ble_batch now added w'
      else (added, w')

-- `none` for the -1 of a failed `calloc` or `pthread_create`; a scanner that is not made is only warned
-- about.
unfoldable pub bluetooth_proxy_init : (allocated created scanner : Bool) → ℕ → Option ProxyState
bluetooth_proxy_init allocated created scanner now =
    if allocated && created
    then some (record {
      scanner = scanner;
      subscribed = false;
      ble_batch = record { advertisements = replicate max_adv_batch empty_entry; count = 0 };
      last_flush = now;
      flush_thread_running = true;
    })
    else none

-- `BLE_FEATURE_PASSIVE_SCAN | BLE_FEATURE_RAW_ADVERTISEMENTS`
unfoldable pub bluetooth_proxy_configure_device_info :
    List ℕ → DeviceInfoResponse → DeviceInfoResponse
bluetooth_proxy_configure_device_info mac_address device_info = record device_info {
  bluetooth_proxy_feature_flags = bit_or 1 32;
  bluetooth_mac_address = take 23 mac_address;
}

-- The scanner: what starting and stopping it answer, and what the calls do.
pub record Scanner (W : Type 0) : Type 0 where
  pub start : W → ℕ × W
  pub stop : W → ℕ × W
  pub free : W → W

module _ {W : Type 0} (scanner : Scanner W) where
  unfoldable pub handle_subscribe_ble_advertisements :
      Option ProxyState → W → ℕ × (Option ProxyState × W)
  handle_subscribe_ble_advertisements none w = (minus_one, (none, w))
  handle_subscribe_ble_advertisements (some state) w =
      let (result, w') = scanner.start w in
      if not state.scanner
      then (minus_one, (some state, w))
      else if state.subscribed
      then (0, (some state, w))
      else if is_negative result
      then (minus_one, (some state, w'))
      else (0, (some (record state { subscribed = true }), w'))

  unfoldable pub handle_unsubscribe_ble_advertisements :
      Option ProxyState → W → ℕ × (Option ProxyState × W)
  handle_unsubscribe_ble_advertisements none w = (0, (none, w))
  handle_unsubscribe_ble_advertisements (some state) w =
      let (result, w') = scanner.stop w in
      if not state.scanner
      then (0, (some state, w))
      else if not state.subscribed
      then (0, (some state, w))
      else if is_negative result
      then (minus_one, (some state, w'))
      else (0, (some (record state { subscribed = false }), w'))

  unfoldable pub bluetooth_proxy_handle_message :
      ℕ → Option ProxyState → W → ℕ × (Option ProxyState × W)
  unfolding handle_subscribe_ble_advertisements handle_unsubscribe_ble_advertisements
  bluetooth_proxy_handle_message msg_type state w =
      if msg_type == 66
      then handle_subscribe_ble_advertisements state w
      else if msg_type == 87
      then handle_unsubscribe_ble_advertisements state w
      else (minus_one, (state, w))

  -- The state is freed, and the context has none after it.
  unfoldable pub bluetooth_proxy_cleanup : Option ProxyState → W → Option ProxyState × W
  bluetooth_proxy_cleanup none w = (none, w)
  bluetooth_proxy_cleanup (some state) w =
      (none, (if state.scanner then scanner.free (scanner.stop w).1 else w))
