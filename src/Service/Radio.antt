-- ===== src/Service/Radio.antt =====
-- The radio and the threads of the scanner, over the plugin's whole life.
use esphome_linux.Base.{
  ℕ, ◌≡◌, ◌⊎◌, refl, ap, ◌∙◌, Bool, true, false, Option, none, some, List, if◌then◌else◌,
  Bool-cases, Option-cases, inl, inr, replicate,
}
use esphome_linux.Api.Server.{System}
use esphome_linux.Proxy.{ProxyState}
use esphome_linux.Scanner.{no_device, max_cached_devices}
use esphome_linux.Scanner.Control.{
  BleScanner, Driver, ble_scanner_init, ble_scanner_stop, ble_scanner_free,
}
use esphome_linux.Scanner.Lifecycle.{DriverLaws, Consistent, ble_scanner_stop-Consistent}
use esphome_linux.Service.{ProxyHost}

-- What is relied on of the calls that are neither the radio's nor the scanner's threads': they leave
-- alone what `f` sees of the world.
pub record Unseen {V A : Type 0} (system : System V) (driver : Driver V) (host : ProxyHost V)
    (f : V → A) : Type 0 where
  pub send : (fd : ℕ) (bytes : List ℕ) (v : V) → f (system.send fd bytes v).1 ≡ f v
  pub host_calloc : (v : V) → f (host.calloc v).1 ≡ f v
  pub clock_gettime : (v : V) → f (host.clock_gettime v).1 ≡ f v
  pub create_flush_thread : (v : V) → f (host.create_flush_thread v).1 ≡ f v
  pub join_flush_thread : (v : V) → f (host.join_flush_thread v) ≡ f v
  pub calloc : (v : V) → f (driver.calloc v).1 ≡ f v
  pub free : (v : V) → f (driver.free v) ≡ f v
  pub create_transport : (v : V) → f (driver.create_transport v).1 ≡ f v
  pub delete_transport : (v : V) → f (driver.delete_transport v) ≡ f v
  pub new_scanner : (v : V) → f (driver.new_scanner v).1 ≡ f v
  pub delete_scanner : (v : V) → f (driver.delete_scanner v) ≡ f v

abbrev pub new_ble_scanner : BleScanner
new_ble_scanner = record {
  running = false;
  stop_requested = false;
  device_cache = replicate max_cached_devices no_device;
}

module _ {V A : Type 0} (system : System V) (driver : Driver V) (host : ProxyHost V) (f : V → A)
    (unseen : Unseen system driver host f) where
  -- A scanner that is made does not run, and making one is not seen.
  pub ble_scanner_init_new :
      (v : V)
      → let made = ble_scanner_init driver v in
        ((made.0 ≡ none) ⊎ (made.0 ≡ some new_ble_scanner)) × (f made.1 ≡ f v)
  unfolding ble_scanner_init
  ble_scanner_init_new v =
      let v1 = (driver.calloc v).1 in
      let v2 = (driver.create_transport v1).1 in
      let v3 = (driver.new_scanner v2).1 in
      let same1 = unseen.calloc v in
      let same2 = unseen.create_transport v1 ∙ same1 in
      let same3 = unseen.new_scanner v2 ∙ same2 in
      elim (Bool-cases (driver.calloc v).0) [
        | inr no_memory ↦ rw (no_memory, ble_scanner_init) (inl refl, same1)
        | inl memory ↦ elim (Option-cases (driver.create_transport v1).0) [
          | inl thrown ↦ rw (memory, thrown, ble_scanner_init) (inl refl, unseen.free v2 ∙ same2)
          | inr (false, absent) ↦
              rw (memory, absent, ble_scanner_init) (inl refl, unseen.free v2 ∙ same2)
          | inr (true, present) ↦ elim (Bool-cases (driver.new_scanner v2).0) [
            | inl done ↦ rw (memory, present, done, ble_scanner_init) (inr refl, same3)
            | inr thrown ↦
                rw (memory, present, thrown, ble_scanner_init)
                  (
                    inl refl,
                    unseen.free (driver.delete_transport v3) ∙ unseen.delete_transport v3 ∙ same3,
                  )
          ]
        ]
      ]

  pub deleting_unseen :
      (v : V) → f (driver.free (driver.delete_transport (driver.delete_scanner v))) ≡ f v
  deleting_unseen v =
      unseen.free (driver.delete_transport (driver.delete_scanner v))
      ∙ unseen.delete_transport (driver.delete_scanner v)
      ∙ unseen.delete_scanner v

module _ {V : Type 0} (scans : V → Bool) (threads : V → ℕ) where
  -- The radio does not scan, and the scanner has no thread.
  abbrev pub Idle : V → Type 0
  Idle v = (scans v ≡ false) × (threads v ≡ 0)

  pub Idle-same : {v v' : V} → scans v' ≡ scans v → threads v' ≡ threads v → Idle v → Idle v'
  Idle-same hs ht (quiet, none_left) = (hs ∙ quiet, ht ∙ none_left)

  -- The plugin has a scanner exactly if its state says so, is subscribed exactly if the scanner
  -- runs, and only a scanner that runs scans and has threads.
  abbrev pub Follows : Bool → Bool → Option BleScanner → V → Type 0
  Follows scanner subscribed none v = (scanner ≡ false) × (subscribed ≡ false) × Idle v
  Follows scanner subscribed (some ble) v =
      (scanner ≡ true)
      × (subscribed ≡ ble.running)
      × ((scans v ≡ ble.running) × (threads v ≡ (if ble.running then 2 else 0)))

  abbrev pub Sound : Option ProxyState → Option BleScanner → V → Type 0
  Sound none ble v = (ble ≡ none) × Idle v
  Sound (some state) ble v = Follows state.scanner state.subscribed ble v

  pub Follows-same :
      (scanner subscribed : Bool) (ble : Option BleScanner) {v v' : V}
      → scans v' ≡ scans v
      → threads v' ≡ threads v
      → Follows scanner subscribed ble v
      → Follows scanner subscribed ble v'
  Follows-same scanner subscribed none hs ht (absent, off, idle) =
      (absent, off, Idle-same hs ht idle)
  Follows-same scanner subscribed (some ble) hs ht (present, same, (s, t)) =
      (present, same, (hs ∙ s, ht ∙ t))

  pub Sound-same :
      (proxy : Option ProxyState) (ble : Option BleScanner) {v v' : V}
      → scans v' ≡ scans v
      → threads v' ≡ threads v
      → Sound proxy ble v
      → Sound proxy ble v'
  Sound-same none ble hs ht (absent, idle) = (absent, Idle-same hs ht idle)
  Sound-same (some state) ble hs ht h = Follows-same state.scanner state.subscribed ble hs ht h

module _ {V : Type 0} (system : System V) (driver : Driver V) (host : ProxyHost V)
    (scans : V → Bool) (threads : V → ℕ) (laws : DriverLaws driver scans threads)
    (no_scan : Unseen system driver host scans)
    (no_thread : Unseen system driver host threads) where
  pub stopped-Idle :
      (ble : BleScanner) (v : V)
      → ble.running ≡ false
      → Consistent driver scans threads laws ble v
      → Idle scans threads v
  stopped-Idle ble v off (s, t) = (s ∙ off, t ∙ ap (λ (b : Bool). if b then 2 else 0) off)

  pub ble_scanner_free-Idle :
      (ble : BleScanner) (v : V)
      → Consistent driver scans threads laws ble v
      → Idle scans threads (ble_scanner_free driver (some ble) v)
  unfolding ble_scanner_free ble_scanner_stop
  ble_scanner_free-Idle ble v h =
      let freed : (v' : V)
          → Idle scans threads v'
          → Idle scans threads (driver.free (driver.delete_transport (driver.delete_scanner v'))) =
        λ v'.
          Idle-same scans threads (deleting_unseen system driver host scans no_scan v')
            (deleting_unseen system driver host threads no_thread v') in
      elim (Bool-cases ble.running) [
        | inr off ↦ rw off (freed v (stopped-Idle ble v off h))
        | inl on ↦
            let stopped = ble_scanner_stop-Consistent driver scans threads laws ble v h in
            let quiet = rw on at stopped in rw on (freed _ quiet.0)
      ]
