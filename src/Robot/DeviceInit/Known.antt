-- ===== src/Robot/DeviceInit/Known.antt =====
-- runLocalDeviceInit of pkg/rockrobo/local_connection.go: what is known once the device is ready,
-- and that CloudOTCInfo of pkg/rockrobo/cloud.go then finds it.
use mathlib.Core.Path.{subst}
use rocklet.Base.{
  sym, ℕ, ◌≡◌, ◌≢◌, ◌⊎◌, inl, inr, List, [], ◌∷◌, ◌++◌, Option, none, some, Bool, true, false,
  Outcome, ok, err, panic, ◌>>=◌, refl, arith, if◌then◌else◌,
}
use rocklet.Base.Int.{ℤ}
use rocklet.Protocol.{Method, method_otc_info}
use rocklet.Cloud.Message.{Crypto, CloudMessage, write, compute_checksum}
use rocklet.Cloud.Message as Message
use rocklet.Cloud.Otc.{
  Codec, DeviceId, Error, no_response, bad_json, completed, or_error, get_internal_info,
  complete_info, seal, message_error, otc_request,
}
use rocklet.Robot.DeviceInit.{
  Decoder, Device, Responses, local_device_id, get_token, local_wifi_config_status, with_wifi,
  with_token, with_device_id, init_pass, unless_ready, run_local_device_init, new,
}

module _ (j : Decoder) where
  -- The device id, the token and the WiFi state of one pass have all been answered.
  pub record Answered (r : Responses) : Type 0 where
    pub device : DeviceId
    pub token : List ℕ
    pub wifi : ℤ
    pub has_device : local_device_id j r.device_id ≡ ok device
    pub has_token : get_token j r.token ≡ ok token
    pub has_wifi : local_wifi_config_status j r.wifi_config_status ≡ ok wifi

  -- A device that is ready has the id and the token of one of these passes.
  abbrev pub Among : Responses → List Responses → Type 0
  Among r [] = ⊥
  Among r (x ∷ xs) = (x ≡ r) ⊎ Among r xs

  abbrev pub Knows : List Responses → Device → Type 0
  Knows rs s =
      (s.ready ≡ false)
      ⊎ ((r : Responses) × Among r rs
          × (h : Answered r) × (s.device_id ≡ some h.device)
          × (s.d_token ≡ h.token))

  init_pass-Knows :
      (s : Device) (r : Responses) → s.ready ≡ false → Knows (r ∷ []) (init_pass j s r)
  unfolding init_pass
  init_pass-Knows s r e = device (local_device_id j r.device_id) refl
    where
      wifi :
          (d : DeviceId) (t : List ℕ) (o : Outcome Error ℤ)
          → local_device_id j r.device_id ≡ ok d
          → get_token j r.token ≡ ok t
          → local_wifi_config_status j r.wifi_config_status ≡ o
          → Knows (r ∷ []) (with_wifi j (record s { device_id = some d; d_token = t }) o)
      wifi d t (ok w) f g h = inr (
        r,
        inl refl,
        record { device = d; token = t; wifi = w; has_device = f; has_token = g; has_wifi = h },
        refl,
        refl,
      )
      wifi d t (err x) f g h = inl e
      wifi d t panic f g h = inl e

      token :
          (d : DeviceId) (o : Outcome Error (List ℕ))
          → local_device_id j r.device_id ≡ ok d
          → get_token j r.token ≡ o
          → Knows (r ∷ []) (with_token j (record s { device_id = some d }) o r.wifi_config_status)
      token d (ok t) f g = wifi d t (local_wifi_config_status j r.wifi_config_status) f g refl
      token d (err x) f g = inl e
      token d panic f g = inl e

      device :
          (o : Outcome Error DeviceId)
          → local_device_id j r.device_id ≡ o
          → Knows (r ∷ []) (with_device_id j s o r)
      device (ok d) f = token d (get_token j r.token) f refl
      device (err x) f = inl e
      device panic f = inl e

  later-Knows : (s : Device) (r : Responses) (rs : List Responses) → Knows rs s → Knows (r ∷ rs) s
  later-Knows s r rs (inl e) = inl e
  later-Knows s r rs (inr (p, among, h, device, token)) = inr (p, inr among, h, device, token)

  first-Knows :
      (s : Device) (r : Responses) (rs : List Responses) → Knows (r ∷ []) s → Knows (r ∷ rs) s
  first-Knows s r rs (inl e) = inl e
  first-Knows s r rs (inr (p, inl same, h, device, token)) = inr (p, inl same, h, device, token)
  first-Knows s r rs (inr (p, inr none_there, h, device, token)) = absurd none_there

  run-Knows :
      (s : Device) (rs : List Responses) → s.ready ≡ false → Knows rs (run_local_device_init j s rs)
  unfolding run_local_device_init
  run-Knows s [] e = inl e
  run-Knows s (r ∷ rs) e =
      pick (init_pass j s r).ready refl (first-Knows _ r rs (init_pass-Knows s r e))
        (λ f. later-Knows _ r rs (run-Knows (init_pass j s r) rs f))
    where
      pick :
          (b : Bool)
          → (init_pass j s r).ready ≡ b
          → Knows (r ∷ rs) (init_pass j s r)
          → ((init_pass j s r).ready ≡ false
              → Knows (r ∷ rs) (run_local_device_init j (init_pass j s r) rs))
          → Knows
              (r ∷ rs)
              (unless_ready j b (init_pass j s r) (run_local_device_init j (init_pass j s r) rs))
      pick true f h k = h
      pick false f h k = k f

  init_pass-answered :
      (s : Device) (r : Responses) (h : Answered r)
      → init_pass j s r ≡ record { device_id = some h.device; d_token = h.token; ready = true }
  unfolding init_pass
  init_pass-answered s r h = rw (h.has_device, h.has_token, h.has_wifi) refl

  run-ready :
      (s : Device) (before after : List Responses) (r : Responses)
      → Answered r
      → (run_local_device_init j s (before ++ r ∷ after)).ready ≡ true
  unfolding run_local_device_init
  run-ready s [] after r h = rw (init_pass-answered s r h) refl
  run-ready s (b ∷ before) after r h =
      pick (init_pass j s b).ready refl (run-ready (init_pass j s b) before after r h)
    where
      pick :
          (t : Bool)
          → (init_pass j s b).ready ≡ t
          → (run_local_device_init j (init_pass j s b) (before ++ r ∷ after)).ready ≡ true
          → (unless_ready j t
              (init_pass j s b)
              (run_local_device_init j (init_pass j s b) (before ++ r ∷ after))).ready
            ≡ true
      pick true f k = f
      pick false f k = k

  known :
      (rs : List Responses) (s : Device)
      → Knows rs s
      → s.ready ≡ true
      → (r : Responses) × Among r rs
        × (h : Answered r) × (s.device_id ≡ some h.device)
        × (s.d_token ≡ h.token)
  known rs s (inl waiting) e = ground (arith, waiting, e)
  known rs s (inr k) e = k

  -- The loop ends, at the latest, with the first pass in which the device id, the token and the
  -- state of the WiFi are all answered, whatever goes wrong before; and then deviceID and dToken
  -- are those of one and the same of these passes.
  pub run_local_device_init-ready :
      (before after : List Responses) (r : Responses)
      → Answered r
      → let s = run_local_device_init j new (before ++ r ∷ after) in
        (s.ready ≡ true)
        × ((p : Responses) × Among p (before ++ r ∷ after)
            × (h : Answered p) × (s.device_id ≡ some h.device)
            × (s.d_token ≡ h.token))
  run_local_device_init-ready before after r h =
      let ended = run-ready new before after r h in
      (ended, known (before ++ r ∷ after) _ (run-Knows new (before ++ r ∷ after) refl) ended)

module _ {E : Type 0} where
  ok_returns : {A : Type 0} (x : A) → ◌≢◌ {A = Outcome E A} (ok x) panic
  ok_returns x e = ground (arith, e)

  err_returns : {A : Type 0} (x : E) → ◌≢◌ {A = Outcome E A} (err x) panic
  err_returns x e = ground (arith, e)

  if_returns :
      {A : Type 0} (b : Bool) (m n : Outcome E A)
      → m ≢ panic
      → n ≢ panic
      → (if b then m else n) ≢ panic
  if_returns true m n h k = h
  if_returns false m n h k = k

  bind_returns :
      {A B : Type 0} (m : Outcome E A) (f : A → Outcome E B)
      → m ≢ panic
      → ((a : A) → f a ≢ panic)
      → (m >>= f) ≢ panic
  bind_returns (ok a) f h k = k a
  bind_returns (err x) f h k = err_returns x
  bind_returns panic f h k = λ e. h refl

or_error_returns : {A : Type 0} (o : Option A) (x : Error) → or_error o x ≢ panic
or_error_returns none x = err_returns x
or_error_returns (some a) x = ok_returns a

-- Write to a buffer returns a packet or an error.
write_returns : (c : Crypto) (m : CloudMessage) (key : List ℕ) → write c m key ≢ panic
unfolding write compute_checksum
write_returns c m key = search (if_returns, bind_returns, ok_returns, err_returns)

message_error_returns : (r : Outcome Message.Error (List ℕ)) → r ≢ panic → message_error r ≢ panic
message_error_returns (ok packet) h = ok_returns packet
message_error_returns (err e) h = err_returns _
message_error_returns panic h = λ e. h refl

get_internal_info_returns :
    (codec : Codec) (response : Option Method) → get_internal_info codec response ≢ panic
unfolding get_internal_info
get_internal_info_returns codec response =
    bind_returns (or_error response no_response) _ (or_error_returns response no_response)
      (λ m. or_error_returns (codec.unmarshal_info m.params) bad_json)

seal_returns :
    (codec : Codec) (c : Crypto) (d : DeviceId) (now : ℕ) (body : List ℕ)
    → seal codec c (some d) now body ≢ panic
unfolding seal
seal_returns codec c d now body = message_error_returns _ (write_returns c _ _)

otc_request_returns :
    (codec : Codec) (c : Crypto) (d : DeviceId) (d_token : List ℕ) (response : Option Method)
    (now : ℕ) (id : ℤ)
    → otc_request codec c (some d) d_token response now id ≢ panic
unfolding otc_request complete_info
otc_request_returns codec c d d_token response now id =
    bind_returns (get_internal_info codec response) _ (get_internal_info_returns codec response)
      (λ info.
        bind_returns (or_error (codec.marshal_info (completed codec d d_token info)) bad_json) _
          (or_error_returns _ bad_json)
          (λ params.
            let message : Method = record {
              method = method_otc_info;
              params = params;
              result = [];
              id = id;
              partner_id = [];
            } in
            bind_returns (or_error (codec.marshal_method message) bad_json) _
              (or_error_returns _ bad_json)
              (λ body.
                bind_returns (seal codec c (some d) now body) _ (seal_returns codec c d now body)
                  (λ packet. ok_returns (id, packet)))))

-- Once runLocalDeviceInit has made the device ready, CloudOTCInfo does not dereference a nil
-- deviceID: whatever the vacuum answered before and answers now, and whatever the message is, it
-- returns a packet or an error.
pub otc_request_when_ready :
    (j : Decoder) (codec : Codec) (c : Crypto) (rs : List Responses) (response : Option Method)
    (now : ℕ) (id : ℤ)
    → (run_local_device_init j new rs).ready ≡ true
    → let s = run_local_device_init j new rs in
      otc_request codec c s.device_id s.d_token response now id ≢ panic
otc_request_when_ready j codec c rs response now id e =
    let s = run_local_device_init j new rs in
    let (r, _, h, device, token) = known j rs s (run-Knows j new rs refl) e in
    subst (λ o. otc_request codec c o s.d_token response now id ≢ panic) (sym device)
      (otc_request_returns codec c h.device s.d_token response now id)
