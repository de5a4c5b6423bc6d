-- ===== src/Robot/DeviceInit/Tests.antt =====
-- runLocalDeviceInit of pkg/rockrobo/local_connection.go on a vacuum that answers in its second
-- pass.
use rocklet.Base.{ℕ, ◌≡◌, ◌≢◌, List, [], ◌∷◌, ◌++◌, Option, none, some, true, panic, refl}
use rocklet.Base.Int.{pos}
use rocklet.Protocol.{Method}
use rocklet.Cloud.Message.{Crypto}
use rocklet.Cloud.Otc.{Codec, DeviceId, otc_request}
use rocklet.Robot.DeviceInit.{
  Decoder, Responses, local_device_id, get_token, local_wifi_config_status, init_pass,
  run_local_device_init, new,
}
use rocklet.Robot.DeviceInit.Known.{
  Among, Answered, run_local_device_init-ready, otc_request_when_ready,
}

abbrev vacuum : DeviceId
vacuum = record { device_id = pos 1000; key = 7 ∷ []; vendor = []; mac = 9 ∷ []; model = [] }

-- An empty text cannot be decoded.
decoder : Decoder
decoder = record {
  unmarshal_device_id = λ text. some vacuum;
  unmarshal_token = λ text. filled text;
  unmarshal_int = λ text. some (pos 1);
}
  where
    filled : List ℕ → Option (List ℕ)
    filled [] = none
    filled (b ∷ bs) = some (b ∷ bs)

abbrev response : List ℕ → Option Method
response text =
    some (record { method = []; params = text; result = []; id = pos 0; partner_id = [] })

abbrev no_token : Responses
no_token = record { device_id = response []; token = response []; wifi_config_status = response [] }

abbrev in_full : Responses
in_full = record {
  device_id = response [];
  token = response (5 ∷ 6 ∷ []);
  wifi_config_status = response [];
}

in_full-Answered : Answered decoder in_full
unfolding local_device_id get_token local_wifi_config_status decoder
in_full-Answered = record {
  device = vacuum;
  token = 5 ∷ 6 ∷ [];
  wifi = pos 1;
  has_device = refl;
  has_token = refl;
  has_wifi = refl;
}

run_local_device_init-ready_example :
    let s = run_local_device_init decoder new ((no_token ∷ []) ++ in_full ∷ no_token ∷ []) in
    (s.ready ≡ true)
    × ((p : Responses) × Among decoder p ((no_token ∷ []) ++ in_full ∷ no_token ∷ [])
        × (h : Answered decoder p) × (s.device_id ≡ some h.device)
        × (s.d_token ≡ h.token))
run_local_device_init-ready_example =
    run_local_device_init-ready decoder (no_token ∷ []) (no_token ∷ []) in_full in_full-Answered

codec : Codec
codec = record {
  marshal_info = λ i. some i.token;
  marshal_method = λ m. some m.params;
  unmarshal_info = λ text. none;
  unmarshal_method = λ text. none;
  unmarshal_otc_info = λ text. none;
  base64 = λ text. text;
  hex = λ text. text;
}

crypto : Crypto
crypto = record {
  md5_sum = λ text. text;
  cbc_encrypt = λ k iv text. text;
  cbc_decrypt = λ k iv text. text;
}

otc_request_when_ready_example :
    let s = run_local_device_init decoder new (no_token ∷ in_full ∷ []) in
    otc_request codec crypto s.device_id s.d_token (response []) 1500000000 (pos 3) ≢ panic
otc_request_when_ready_example =
    otc_request_when_ready decoder codec crypto (no_token ∷ in_full ∷ []) (response []) 1500000000
      (pos 3)
      (unfold run_local_device_init init_pass local_device_id get_token local_wifi_config_status
          decoder in
        refl)
