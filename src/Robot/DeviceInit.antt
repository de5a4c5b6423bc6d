-- ===== src/Robot/DeviceInit.antt =====
-- runLocalDeviceInit of pkg/rockrobo/local_connection.go, with LocalDeviceID and
-- LocalWifiConfigStatus of that file and GetToken of pkg/rockrobo/rockrobo.go. The responses of
-- retrieveInternal are arguments, none for an error; `Decoder` is json.Unmarshal on the types that
-- are used.
pub mod Known
mod Tests
use rocklet.Base.{
  ℕ, List, [], ◌∷◌, Option, none, some, Bool, true, false, Outcome, ok, err, panic, ◌>>=◌,
}
use rocklet.Base.Int.{ℤ}
use rocklet.Protocol.{Method}
use rocklet.Cloud.Otc.{DeviceId, Error, no_response, bad_json, or_error}

pub record Decoder : Type 0 where
  pub unmarshal_device_id : List ℕ → Option DeviceId
  pub unmarshal_token : List ℕ → Option (List ℕ)
  pub unmarshal_int : List ℕ → Option ℤ

-- The fields of Rockrobo that are set, and whether localDeviceReadyCh is closed.
pub record Device : Type 0 where
  pub device_id : Option DeviceId
  pub d_token : List ℕ
  pub ready : Bool

-- The responses in one pass of the loop.
pub record Responses : Type 0 where
  pub device_id : Option Method
  pub token : Option Method
  pub wifi_config_status : Option Method

module _ (j : Decoder) where
  unfoldable pub local_device_id : Option Method → Outcome Error DeviceId
  local_device_id response =
      or_error response no_response >>= λ m. or_error (j.unmarshal_device_id m.params) bad_json

  unfoldable pub get_token : Option Method → Outcome Error (List ℕ)
  get_token response =
      or_error response no_response >>= λ m. or_error (j.unmarshal_token m.params) bad_json

  unfoldable pub local_wifi_config_status : Option Method → Outcome Error ℤ
  local_wifi_config_status response =
      or_error response no_response >>= λ m. or_error (j.unmarshal_int m.params) bad_json

  -- The state of WiFi is only logged.
  abbrev pub with_wifi : Device → Outcome Error ℤ → Device
  with_wifi s (ok state) = record s { ready = true }
  with_wifi s _ = s

  -- On an error the token is empty.
  abbrev pub with_token : Device → Outcome Error (List ℕ) → Option Method → Device
  with_token s (ok token) wifi =
      with_wifi (record s { d_token = token }) (local_wifi_config_status wifi)
  with_token s _ wifi = record s { d_token = [] }

  -- On an error deviceID is nil.
  abbrev pub with_device_id : Device → Outcome Error DeviceId → Responses → Device
  with_device_id s (ok d) r =
      with_token (record s { device_id = some d }) (get_token r.token) r.wifi_config_status
  with_device_id s _ r = record s { device_id = none }

  -- A pass of the loop.
  unfoldable pub init_pass : Device → Responses → Device
  init_pass s r = with_device_id s (local_device_id r.device_id) r

  abbrev pub unless_ready : Bool → Device → Device → Device
  unless_ready true s more = s
  unless_ready false s more = more

  -- runLocalDeviceInit, on the responses of as many passes: the loop ends once the device is
  -- ready.
  unfoldable pub run_local_device_init : Device → List Responses → Device
  run_local_device_init s [] = s
  run_local_device_init s (r ∷ rs) =
      let next = init_pass s r in
      let more = run_local_device_init next rs in unless_ready next.ready next more

abbrev pub new : Device
new = record { device_id = none; d_token = []; ready = false }
