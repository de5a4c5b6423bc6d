-- ===== src/Robot/Status/Tests.antt =====
-- The status loop of pkg/rockrobo/rockrobo.go on two answers of a vacuum.
use rocklet.Base.{ℕ, List, [], ◌∷◌, Option, none, some, Bool, false, Outcome}
use rocklet.Base.Int.{ℤ, pos, int_equality}
use rocklet.Protocol.{Method}
use rocklet.NavMap.Slam.Tests.{naturals, map_image, here, there}
use rocklet.Kubernetes.Vacuum.{
  Vacuum, Server, not_found, get_request, create_request, update_request,
}
use rocklet.Cloud.Otc.{Codec, DeviceId}
use rocklet.Robot.Status as Status
use rocklet.Robot.Status.{
  GetStatus, VacuumStatus, Navigation, Loop, Tick, info_tick, status_tick, vacuum_status,
  report_status, report, keep_info, with_map, with_info, with_device, state_name,
}

abbrev charging : GetStatus
charging = record {
  battery = pos 80;
  clean_area = pos 1000;
  clean_time = pos 600;
  dnd_enabled = pos 1;
  error_code = pos 0;
  fan_power = pos 60;
  in_cleaning = pos 0;
  map_present = pos 1;
  msg_seq = pos 5;
  msg_ver = pos 4;
  state = pos 8;
}

abbrev vacuum : DeviceId
vacuum = record { device_id = pos 1000; key = []; vendor = []; mac = 9 ∷ []; model = [] }

abbrev seen : Navigation ℕ
seen = record { latest = some (some map_image); positions = here ∷ there ∷ [] }

abbrev no_text : ℤ → List ℕ
no_text n = []

codec : Codec
codec = record {
  marshal_info = λ i. none;
  marshal_method = λ m. none;
  unmarshal_info = λ text. none;
  unmarshal_method = λ text. none;
  unmarshal_otc_info = λ text. none;
  base64 = λ text. text;
  hex = λ text. text;
}

unmarshal_status : List ℕ → Option (List GetStatus)
unmarshal_status [] = none
unmarshal_status (b ∷ bs) = some (charging ∷ [])

never : VacuumStatus ℕ → VacuumStatus ℕ → Bool
never s t = false

abbrev server : Server (VacuumStatus ℕ)
server = record { get = not_found; create = λ v. some v; update = λ v. some v }

abbrev at_start : Loop ℕ
at_start = record { internal_info = none; vacuum_obj = none; requests = [] }

abbrev answer : List ℕ → Option Method
answer result =
    some (record { method = []; params = []; result = result; id = pos 0; partner_id = [] })

abbrev status_at : List ℕ → Tick ℕ
status_at result = status_tick (answer result) (some vacuum) seen

abbrev ticks : List (Tick ℕ)
ticks = info_tick none ∷ status_at (1 ∷ []) ∷ []

abbrev run : List (Tick ℕ) → Outcome Status.Error (Loop ℕ)
run ts = report_status naturals no_text codec unmarshal_status never server [] at_start ts

abbrev shown : Loop ℕ
shown =
    let v : Vacuum (VacuumStatus ℕ) = record {
      name = [];
      cloud = false;
      status = vacuum_status naturals no_text none (some vacuum) seen charging;
    } in
    record {
      internal_info = none;
      vacuum_obj = some v;
      requests = get_request ∷ create_request v ∷ update_request v ∷ [];
    }
