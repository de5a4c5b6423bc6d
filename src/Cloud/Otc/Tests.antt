-- ===== src/Cloud/Otc/Tests.antt =====
-- CloudOTCInfo of pkg/rockrobo/cloud.go on a concrete exchange, with a toy cipher and a toy
-- encoding.
use rocklet.Base.{ℕ, ◌≡◌, List, [], ◌∷◌, ◌++◌, Option, none, some, ok, refl, arith, replicate}
use rocklet.Base.Assoc.{lookup}
use rocklet.Base.Bytes.{be16, be32}
use rocklet.Base.Int.{pos, int_equality}
use rocklet.Protocol.{Method, method_internal_info}
use rocklet.Cloud.Message.{
  CloudMessage, returned, read, write, trim, encode_header, pad, aes_params_from_key,
  valid_key_size, compute_checksum,
}
use rocklet.Cloud.Tests.{toy, toy_laws, letter, letter-IsHeader, key, first_byte, sealed_head}
use rocklet.Cloud.Receiver
use rocklet.Cloud.Otc.{
  Codec, DeviceId, InternalInfo, get_internal_info, otc_request, packet_key, uint32,
}
use rocklet.Cloud.Otc.Exchange.{otc_request-read, otc_answer_arrives}

abbrev info : InternalInfo
info = record {
  hardware_version = 1 ∷ [];
  firmware_version = 2 ∷ [];
  model = [];
  mac = [];
  token = [];
  life = 0;
  access_point = record { ssid = 3 ∷ []; bssid = 4 ∷ []; rssi = pos 5 };
  network_interface = record { local_ip = 6 ∷ []; mask = 7 ∷ []; gateway = 8 ∷ [] };
}

-- An encoding that keeps the method's parameters between two brackets.
toy_codec : Codec
toy_codec = record {
  marshal_info = λ i. some i.token;
  marshal_method = λ m. some (91 ∷ (m.params ++ 93 ∷ []));
  unmarshal_info = λ text. some info;
  unmarshal_method = λ text.
      some (record { method = []; params = []; result = text; id = pos 0; partner_id = [] });
  unmarshal_otc_info = λ text. none;
  base64 = λ text. text;
  hex = λ text. text;
}

abbrev device : DeviceId
device = record { device_id = pos 1000; key = key; vendor = []; mac = 9 ∷ []; model = 10 ∷ [] }

abbrev response : Option Method
response = some (record {
  method = method_internal_info;
  params = [];
  result = [];
  id = pos 0;
  partner_id = [];
})

otc_request-read_example :
    (bytes : List ℕ) × (sealed : CloudMessage) × (otc_request toy_codec toy
        (some device)
        (5 ∷ 6 ∷ [])
        response
        1500000000
        (pos 3)
      ≡ ok (pos 3, bytes))
    × (read toy letter bytes (packet_key toy_codec device) ≡ returned sealed none)
    × (sealed.body ≡ 91 ∷ ((5 ∷ 6 ∷ []) ++ 93 ∷ []))
    × (sealed.device_id ≡ uint32 (pos 1000))
unfolding toy_codec get_internal_info
otc_request-read_example =
    otc_request-read toy_codec toy toy_laws device (5 ∷ 6 ∷ []) response 1500000000 (pos 3) info
      (5 ∷ 6 ∷ []) (5 ∷ 6 ∷ []) 91 93 letter refl refl refl (omega arith) (omega arith)
      (omega arith, (omega arith, (omega arith, (omega arith, tt)))) (omega arith) (omega arith)

abbrev answer : List ℕ
unfolding encode_header be16 be32
answer = encode_header sealed_head ++ (1 ∷ 2 ∷ 3 ∷ replicate 13 14)

written : write toy letter key ≡ ok answer
unfolding write toy encode_header pad be16 be32 aes_params_from_key valid_key_size compute_checksum
written = refl

otc_answer_arrives_example :
    let after = Receiver.run toy first_byte key Receiver.new (
      Receiver.register (pos 1) 4
      ∷ Receiver.packet (Receiver.read_from answer) 7
      ∷ Receiver.receive
      ∷ []) in
    (after.answers ≡ [] ++ (4, trim 0 letter.body) ∷ [])
    × (after.receiver ≡ Receiver.reading)
    × (lookup (pos 1) after.cloud_sessions ≡ none)
unfolding first_byte trim
otc_answer_arrives_example =
    otc_answer_arrives toy first_byte key toy_laws Receiver.new (pos 1) 4 7 letter answer refl
      letter-IsHeader (omega arith, (omega arith, (omega arith, tt))) (omega arith) (omega arith)
      written refl
