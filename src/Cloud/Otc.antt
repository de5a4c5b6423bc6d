-- ===== src/Cloud/Otc.antt =====
-- pkg/rockrobo/cloud.go, CloudOTCInfo, with GetInternalInfo of pkg/rockrobo/rockrobo.go and the
-- structs of pkg/rockrobo/local_connection.go that they carry. `Codec` is encoding/json on the
-- types that are used, encoding/base64 and encoding/hex; an answer of none is an error.
pub mod Exchange
pub mod Tests
use rocklet.Base.{ℕ, ◌-◌, ◌%◌, List, [], Option, none, some, Outcome, ok, err, panic, ◌>>=◌}
use rocklet.Base.Bytes.{u32}
use rocklet.Base.Int.{ℤ, pos, negsuc}
use rocklet.Protocol.{Method, method_otc_info}
use rocklet.Cloud.Message.{Crypto, CloudMessage, new_cloud_message, write}
use rocklet.Cloud.Message as Message

-- MethodParamsResponseDeviceID
pub record DeviceId : Type 0 where
  pub device_id : ℤ
  pub key : List ℕ
  pub vendor : List ℕ
  pub mac : List ℕ
  pub model : List ℕ

-- MethodParamsResponseInternalInfoAccessPoint
pub record AccessPoint : Type 0 where
  pub ssid : List ℕ
  pub bssid : List ℕ
  pub rssi : ℤ

-- MethodParamsResponseInternalInfoNetworkInterface
pub record NetworkInterface : Type 0 where
  pub local_ip : List ℕ
  pub mask : List ℕ
  pub gateway : List ℕ

-- MethodParamsResponseInternalInfo
pub record InternalInfo : Type 0 where
  pub hardware_version : List ℕ
  pub firmware_version : List ℕ
  pub model : List ℕ
  pub mac : List ℕ
  pub token : List ℕ
  pub life : ℕ
  pub access_point : AccessPoint
  pub network_interface : NetworkInterface

-- IPPort
pub record IpPort : Type 0 where
  pub ip : List ℕ
  pub port : ℤ

-- MethodResultOTCInfo, with the interval of its MethodResultOTCTest.
pub record OtcInfo : Type 0 where
  pub otc_list : List IpPort
  pub interval : ℤ

pub record Codec : Type 0 where
  pub marshal_info : InternalInfo → Option (List ℕ)
  pub marshal_method : Method → Option (List ℕ)
  pub unmarshal_info : List ℕ → Option InternalInfo
  pub unmarshal_method : List ℕ → Option Method
  pub unmarshal_otc_info : List ℕ → Option OtcInfo
  pub base64 : List ℕ → List ℕ
  pub hex : List ℕ → List ℕ

pub data Error : Type 0 where
  no_response : Error
  bad_json : Error
  bad_message : Error
  timed_out : Error

abbrev pub or_error : {A : Type 0} → Option A → Error → Outcome Error A
or_error none e = err e
or_error (some a) e = ok a

-- uint32 of an int.
abbrev pub uint32 : ℤ → ℕ
uint32 (pos n) = u32 n
uint32 (negsuc n) = 4294967295 - u32 n

abbrev pub message_error : Outcome Message.Error (List ℕ) → Outcome Error (List ℕ)
message_error (ok packet) = ok packet
message_error (err e) = err bad_message
message_error panic = panic

module _ (j : Codec) where
  -- GetInternalInfo, on the response of retrieveInternal.
  unfoldable pub get_internal_info : Option Method → Outcome Error InternalInfo
  get_internal_info response = do
    m ← or_error response no_response
    or_error (j.unmarshal_info m.params) bad_json

  -- The fields that are set before the information is sent.
  abbrev pub completed : DeviceId → List ℕ → InternalInfo → InternalInfo
  completed d d_token info = record info {
    token = j.hex (j.base64 d_token);
    mac = d.mac;
    model = d.model;
    life = 40707;
  }

  -- A device that is not known yet is a nil pointer.
  unfoldable pub complete_info :
      Option DeviceId → List ℕ → InternalInfo → Outcome Error InternalInfo
  complete_info none d_token info = panic
  complete_info (some d) d_token info = ok (completed d d_token info)

  -- The message for the cloud: `device_id` and `body` are set in a new message.
  unfoldable pub otc_message : ℕ → ℤ → List ℕ → CloudMessage
  unfolding new_cloud_message
  otc_message now device_id body =
      let m = new_cloud_message now in
      record m { head = record m.head { device_id = uint32 device_id }; body = body }

  -- The key of the packets.
  abbrev pub packet_key : DeviceId → List ℕ
  packet_key d = j.base64 d.key

  unfoldable pub seal : Crypto → Option DeviceId → ℕ → List ℕ → Outcome Error (List ℕ)
  seal c none now body = panic
  seal c (some d) now body =
      message_error (write c (otc_message now d.device_id body) (packet_key d))

  -- CloudOTCInfo up to the packet, with the id that it registers its channel under.
  unfoldable pub otc_request :
      Crypto → Option DeviceId → List ℕ → Option Method → ℕ → ℤ → Outcome Error (ℤ × List ℕ)
  unfolding get_internal_info complete_info seal
  otc_request c device d_token response now id = do
    info ← get_internal_info response
    complete ← complete_info device d_token info
    params ← or_error (j.marshal_info complete) bad_json
    body ←
        or_error
          (j.marshal_method (record {
            method = method_otc_info;
            params = params;
            result = [];
            id = id;
            partner_id = [];
          }))
          bad_json
    packet ← seal c device now body
    ok (id, packet)

  -- CloudOTCInfo after the packet: what comes on the channel, or none after five seconds.
  unfoldable pub otc_answer : Option (List ℕ) → Outcome Error OtcInfo
  otc_answer answer = do
    text ← or_error answer timed_out
    method ← or_error (j.unmarshal_method text) bad_json
    or_error (j.unmarshal_otc_info method.result) bad_json
