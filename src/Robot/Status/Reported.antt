-- ===== src/Robot/Status/Reported.antt =====
-- The loop of Run in pkg/rockrobo/rockrobo.go that reports the status: what it reports, and when
-- it panics.
use rocklet.Base.{
  ℕ, ◌≡◌, ◌≢◌, ◌⊎◌, List, [], ◌∷◌, Option, none, some, Bool, ◌||◌, true, false, refl, Outcome, ok,
  err, panic, ◌>>=◌, map,
}
use rocklet.Base.Int.{ℤ, pos, int_eq, int_eq_ne, int_equality}
use rocklet.NavMap.RobotDb.{Map, Position}
use rocklet.NavMap.Slam.{Floats, shift}
use rocklet.NavMap.Slam.Log.{latest_positions_map_lem, first}
use rocklet.Kubernetes.Vacuum.{Vacuum, Server}
use rocklet.Cloud.Otc.{Codec, DeviceId, InternalInfo, get_internal_info}
use rocklet.Cloud.Otc as Otc
use rocklet.Robot.Status.{
  GetStatus, Error, VacuumStatus, Navigation, Loop, Tick, info_tick, status_tick, local_get_status,
  with_info, with_device, with_map, charger_or, vacuum_status, update_status, tick, report_status,
  state_name,
}

module _ {F G : Type 0} (fl : Floats F G) (seconds : ℤ → List ℕ) where
  undecided :
      (info : Option InternalInfo) (device : Option DeviceId) (v : VacuumStatus G)
      → (with_info fl seconds info (with_device fl seconds device v)).charger ≡ v.charger
  unfolding with_info with_device
  undecided none none v = refl
  undecided none (some d) v = refl
  undecided (some i) none v = refl
  undecided (some i) (some d) v = refl

  taken : (c old : Option (Position G)) → old ≡ none → charger_or fl seconds c old ≡ c
  taken none old h = h
  taken (some c) old h = refl

  -- What updateStatus reports when the vacuum has a map, and the robot has drawn it and seen
  -- positions: the map, the positions shifted by its corner for a path, and the first of them for
  -- the charger.
  pub vacuum_status-map :
      (info : Option InternalInfo) (device : Option DeviceId) (n : Navigation G) (m : Map)
      (status : GetStatus)
      → status.map_present ≢ pos 0
      → n.latest ≡ some (some m)
      → let v = vacuum_status fl seconds info device n status in
        (v.map ≡ some m)
        × (v.path ≡ map (shift fl m) n.positions)
        × (v.charger ≡ first fl (map (shift fl m) n.positions))
  unfolding vacuum_status with_map
  vacuum_status-map info device n m status present latest =
      let shown : int_eq status.map_present (pos 0) ≡ false =
        int_eq_ne status.map_present (pos 0) present in
      rw (shown, latest, latest_positions_map_lem fl m n.positions)
        (refl, refl, taken (first fl (map (shift fl m) n.positions)) _ (undecided info device _))

  abbrev ssid_of : Option InternalInfo → List ℕ
  ssid_of none = []
  ssid_of (some i) = i.access_point.ssid

  abbrev rssi_of : Option InternalInfo → ℤ
  rssi_of none = pos 0
  rssi_of (some i) = i.access_point.rssi

  abbrev mac_of : Option DeviceId → List ℕ
  mac_of none = []
  mac_of (some d) = d.mac

  abbrev id_of : Option DeviceId → ℤ
  id_of none = pos 0
  id_of (some d) = d.device_id

  -- A status with these numbers of the vacuum, this WiFi and this device.
  pub record IsStatusOf (info : Option InternalInfo) (device : Option DeviceId) (status : GetStatus)
      (v : VacuumStatus G) : Type 0 where
    pub same_area : v.area ≡ status.clean_area
    pub same_duration : v.duration ≡ seconds status.clean_time
    pub same_battery_level : v.battery_level ≡ status.battery
    pub same_fan_power : v.fan_power ≡ status.fan_power
    pub same_do_not_disturb : v.do_not_disturb ≡ int_eq status.dnd_enabled (pos 1)
    pub same_error_code : v.error_code ≡ status.error_code
    pub same_state : v.state ≡ state_name fl seconds status.state
    pub same_wifi_ssid : v.wifi_ssid ≡ ssid_of info
    pub same_wifi_rssi : v.wifi_rssi ≡ rssi_of info
    pub same_mac : v.mac ≡ mac_of device
    pub same_device_id : v.device_id ≡ id_of device

  module _ (j : Codec) (unmarshal_status : List ℕ → Option (List GetStatus))
      (same : VacuumStatus G → VacuumStatus G → Bool) (server : Server (VacuumStatus G))
      (node_name : List ℕ) where
    abbrev reported : Loop G → List (Tick G) → Outcome Error (Loop G)
    reported = report_status fl seconds j unmarshal_status same server node_name

    abbrev failed : Outcome Error GetStatus → Bool
    failed (ok status) = false
    failed _ = true

    -- Whether a tick asks for the status and gets none.
    abbrev pub fails : Tick G → Bool
    fails (info_tick response) = false
    fails (status_tick response device n) = failed (local_get_status unmarshal_status response)

    abbrev pub any_fails : List (Tick G) → Bool
    any_fails [] = false
    any_fails (t ∷ ts) = fails t || any_fails ts

    abbrev pub Ended : Bool → Outcome Error (Loop G) → Type 0
    Ended true r = r ≡ panic
    Ended false r = (l : Loop G) × (r ≡ ok l)

    tick-Ended :
        (l : Loop G) (t : Tick G) (ts : List (Tick G))
        → ((next : Loop G) → Ended (any_fails ts) (reported next ts))
        → Ended (fails t || any_fails ts) (
            tick fl seconds j unmarshal_status same server node_name l t >>= λ next.
            reported next ts)
    unfolding tick
    tick-Ended l (info_tick response) ts more = more _
    tick-Ended l (status_tick response device n) ts more =
        answered (local_get_status unmarshal_status response)
      where
        answered :
            (r : Outcome Error GetStatus)
            → Ended (failed r || any_fails ts) (
                update_status fl seconds j unmarshal_status same server node_name l device n r
                >>= λ next. reported next ts)
        answered (ok status) = more _
        answered (err e) = refl
        answered panic = refl

    -- The goroutine panics, and with it the program, exactly when the vacuum fails to answer one
    -- of the questions for its status; else it goes on, whatever the API server and the other
    -- questions answer.
    pub report_status-Ended :
        (l : Loop G) (ts : List (Tick G)) → Ended (any_fails ts) (reported l ts)
    unfolding report_status
    report_status-Ended l [] = (l, refl)
    report_status-Ended l (t ∷ ts) = tick-Ended l t ts (λ next. report_status-Ended next ts)

    -- The cache holds an object with the status of this tick, or nothing.
    abbrev pub Shows : Loop G → Option DeviceId → Navigation G → GetStatus → Type 0
    Shows l device n status =
        (l.vacuum_obj ≡ none)
        ⊎ ((v : Vacuum (VacuumStatus G)) × (l.vacuum_obj ≡ some v)
            × (v.status ≡ vacuum_status fl seconds l.internal_info device n status))

    -- The last answer to the question for the internal information, none after an error.
    abbrev answered_info :
        Option InternalInfo → Outcome Otc.Error InternalInfo → Option InternalInfo
    answered_info old (ok i) = some i
    answered_info old (err e) = none
    answered_info old panic = old

    abbrev pub last_info : Option InternalInfo → List (Tick G) → Option InternalInfo
    last_info info [] = info
    last_info info (info_tick response ∷ ts) =
        last_info (answered_info info (get_internal_info j response)) ts
    last_info info (status_tick response device n ∷ ts) = last_info info ts

    -- The cache holds an object with such a status, or nothing.
    abbrev pub Reports :
        Option (Vacuum (VacuumStatus G))
        → Option InternalInfo
        → Option DeviceId
        → GetStatus
        → Type 0
    Reports cached info device status =
        (cached ≡ none)
        ⊎ ((v : Vacuum (VacuumStatus G)) × (cached ≡ some v)
            × IsStatusOf info device status v.status)
