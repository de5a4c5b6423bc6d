-- ===== src/Robot/Status.antt =====
-- pkg/rockrobo/rockrobo.go, the loop of Run that reports the status to the API server, with
-- LocalGetStatus of pkg/rockrobo/local_connection.go and VacuumStateHash of
-- pkg/apis/vacuum/v1alpha1/types.go. The answers of the vacuum are arguments; `unmarshal_status`
-- is json.Unmarshal, `seconds` the text of a time.Duration of this many seconds.
pub mod Reported
mod Tests
use rocklet.Base.{
  ℕ, List, [], ◌∷◌, ◌++◌, Option, none, some, Bool, not, if◌then◌else◌, Outcome, ok, err, panic,
  ◌>>=◌,
}
use rocklet.Base.Assoc.{Assoc, lookup}
use rocklet.Base.Int.{ℤ, pos, int_eq, int_equality}
use rocklet.Base.Text.{codes}
use rocklet.Protocol.{Method}
use rocklet.NavMap.RobotDb.{Map, Position}
use rocklet.NavMap.Slam.{Floats, MapError, latest_positions_map}
use rocklet.Kubernetes.Vacuum.{Vacuum, Server, Request, try_update_vacuum_status}
use rocklet.Cloud.Otc.{Codec, DeviceId, InternalInfo, get_internal_info}
use rocklet.Cloud.Otc as Otc

-- MethodResultResponseGetStatus
pub record GetStatus : Type 0 where
  pub battery : ℤ
  pub clean_area : ℤ
  pub clean_time : ℤ
  pub dnd_enabled : ℤ
  pub error_code : ℤ
  pub fan_power : ℤ
  pub in_cleaning : ℤ
  pub map_present : ℤ
  pub msg_seq : ℤ
  pub msg_ver : ℤ
  pub state : ℤ

pub data Error : Type 0 where
  no_response : Error
  bad_json : Error
  no_status : Error

abbrev or_error : {A : Type 0} → Option A → Error → Outcome Error A
or_error none e = err e
or_error (some a) e = ok a

first_status : List GetStatus → Outcome Error GetStatus
first_status [] = err no_status
first_status (r ∷ rs) = ok r

-- LocalGetStatus, on the response of retrieveAppProxy.
unfoldable pub local_get_status :
    (List ℕ → Option (List GetStatus)) → Option Method → Outcome Error GetStatus
unfolding first_status
local_get_status unmarshal_status response = or_error response no_response >>= λ m.
    or_error (unmarshal_status m.result) bad_json >>= λ results. first_status results

abbrev pub vacuum_state_unknown : List ℕ
vacuum_state_unknown = codes "Unknown"

abbrev pub vacuum_state_hash : Assoc ℤ (List ℕ)
vacuum_state_hash =
    (pos 0, vacuum_state_unknown)
    ∷ (pos 1, codes "Initiating")
    ∷ (pos 2, codes "Sleeping")
    ∷ (pos 3, codes "Waiting")
    ∷ (pos 5, codes "Cleaning")
    ∷ (pos 6, codes "ReturningHome")
    ∷ (pos 7, codes "RemoteControl")
    ∷ (pos 8, codes "Charging")
    ∷ (pos 9, codes "ChargingError")
    ∷ (pos 10, codes "Pause")
    ∷ (pos 11, codes "SpotCleaning")
    ∷ (pos 12, codes "Error")
    ∷ (pos 13, codes "ShuttingDown")
    ∷ (pos 14, codes "Updating")
    ∷ (pos 15, codes "Docking")
    ∷ (pos 17, codes "ZoneCleaning")
    ∷ (pos 100, codes "Full")
    ∷ []

-- v1alpha1.VacuumStatus; Position, which nothing sets, is left out.
pub record VacuumStatus (G : Type 0) : Type 0 where
  pub state : List ℕ
  pub map : Option Map
  pub charger : Option (Position G)
  pub duration : List ℕ
  pub area : ℤ
  pub battery_level : ℤ
  pub fan_power : ℤ
  pub do_not_disturb : Bool
  pub error_code : ℤ
  pub device_id : ℤ
  pub mac : List ℕ
  pub wifi_ssid : List ℕ
  pub wifi_rssi : ℤ
  pub path : List (Position G)

-- The map of the robot: the latest map with its kubernetesMap, and the positions.
pub record Navigation (G : Type 0) : Type 0 where
  pub latest : Option (Option Map)
  pub positions : List (Position G)

-- What the goroutine keeps between two ticks, and the requests it has made.
pub record Loop (G : Type 0) : Type 0 where
  pub internal_info : Option InternalInfo
  pub vacuum_obj : Option (Vacuum (VacuumStatus G))
  pub requests : List (Request (VacuumStatus G))

-- A tick of one of the two tickers, with the response that it gets from the vacuum, and for a
-- status what deviceID and the maps are then.
pub data Tick (G : Type 0) : Type 0 where
  info_tick : Option Method → Tick G
  status_tick : Option Method → Option DeviceId → Navigation G → Tick G

abbrev or_unknown : Option (List ℕ) → List ℕ
or_unknown none = vacuum_state_unknown
or_unknown (some s) = s

module _ {F G : Type 0} (fl : Floats F G) (seconds : ℤ → List ℕ) where
  unfoldable pub state_name : ℤ → List ℕ
  unfolding lookup
  state_name s = or_unknown (lookup s vacuum_state_hash)

  unfoldable pub with_device : Option DeviceId → VacuumStatus G → VacuumStatus G
  with_device none v = v
  with_device (some d) v = record v { mac = d.mac; device_id = d.device_id }

  unfoldable pub with_info : Option InternalInfo → VacuumStatus G → VacuumStatus G
  with_info none v = v
  with_info (some i) v = record v {
    wifi_ssid = i.access_point.ssid;
    wifi_rssi = i.access_point.rssi;
  }

  abbrev pub charger_or : Option (Position G) → Option (Position G) → Option (Position G)
  charger_or none old = old
  charger_or (some c) old = some c

  -- An error is logged, and the status has no map then.
  unfoldable pub with_map :
      Outcome MapError (List (Position G) × Map × Option (Position G))
      → VacuumStatus G
      → VacuumStatus G
  with_map (ok (p, m, c)) v = record v { map = some m; path = p; charger = charger_or c v.charger }
  with_map (err e) v = v
  with_map panic v = v

  -- The status that updateStatus puts together.
  unfoldable pub vacuum_status :
      Option InternalInfo → Option DeviceId → Navigation G → GetStatus → VacuumStatus G
  vacuum_status info device navigation status =
      let v = with_info info (
        with_device device (record {
          state = state_name status.state;
          map = none;
          charger = none;
          duration = seconds status.clean_time;
          area = status.clean_area;
          battery_level = status.battery;
          fan_power = status.fan_power;
          do_not_disturb = int_eq status.dnd_enabled (pos 1);
          error_code = status.error_code;
          device_id = pos 0;
          mac = [];
          wifi_ssid = [];
          wifi_rssi = pos 0;
          path = [];
        })) in
      if not (int_eq status.map_present (pos 0))
      then with_map (latest_positions_map fl navigation.latest navigation.positions) v
      else v

  module _ (j : Codec) (unmarshal_status : List ℕ → Option (List GetStatus))
      (same : VacuumStatus G → VacuumStatus G → Bool) (server : Server (VacuumStatus G))
      (node_name : List ℕ) where
    abbrev pub keep_info : Loop G → Outcome Otc.Error InternalInfo → Loop G
    keep_info l (ok i) = record l { internal_info = some i }
    keep_info l (err e) = record l { internal_info = none }
    keep_info l panic = l

    abbrev pub report : Loop G → VacuumStatus G → Loop G
    report l v =
        let u = try_update_vacuum_status same server node_name l.vacuum_obj v in
        record l { vacuum_obj = u.vacuum_obj; requests = l.requests ++ u.requests }

    -- updateStatus: the error of LocalGetStatus is logged, and its nil status is dereferenced
    -- next.
    unfoldable pub update_status :
        Loop G → Option DeviceId → Navigation G → Outcome Error GetStatus → Outcome Error (Loop G)
    unfolding vacuum_status try_update_vacuum_status
    update_status l device navigation (ok status) =
        ok (report l (vacuum_status l.internal_info device navigation status))
    update_status l device navigation _ = panic

    unfoldable pub tick : Loop G → Tick G → Outcome Error (Loop G)
    unfolding get_internal_info update_status local_get_status
    tick l (info_tick response) = ok (keep_info l (get_internal_info j response))
    tick l (status_tick response device navigation) =
        update_status l device navigation (local_get_status unmarshal_status response)

    -- The goroutine, from the first tick on.
    unfoldable pub report_status : Loop G → List (Tick G) → Outcome Error (Loop G)
    unfolding tick
    report_status l [] = ok l
    report_status l (t ∷ ts) = tick l t >>= λ next. report_status next ts
