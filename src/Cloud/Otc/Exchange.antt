-- ===== src/Cloud/Otc/Exchange.antt =====
-- CloudOTCInfo of pkg/rockrobo/cloud.go with Write, Read and runCloudReceiver: the request that
-- the cloud can read, and the way of the answer back to the caller.
use rocklet.Base.{
  ℕ, ◌+◌, ◌≤◌, ◌<◌, ◌≡◌, ◌≢◌, List, [], ◌∷◌, ◌++◌, Option, none, some, true, ok, refl, sym, ◌∙◌,
  arith, All, length, take_all, ◌==◌, ==_self,
}
use rocklet.Base.Assoc.{lookup, delete, lookup-delete}
use rocklet.Base.Bytes.{IsByte, IsU32}
use rocklet.Base.Int.{ℤ, pos, negsuc, int_eq, int_eq_iff, int_equality}
use rocklet.Protocol.{Method, method_otc_info}
use rocklet.Cloud.Message.{Crypto, IsCrypto, CloudMessage, write, read, returned, trim, header_size}
use rocklet.Cloud.Message.Header.{IsHeader}
use rocklet.Cloud.Message.RoundTrip.{read-write, trim_self}
use rocklet.Cloud.Receiver.{
  State, reading, register, packet, receive, run, step, read_from, zero_message,
}
use rocklet.Cloud.Receiver.Blocking.{step_returned}
use rocklet.Cloud.Otc.{
  Codec, DeviceId, InternalInfo, uint32, get_internal_info, completed, seal, otc_request,
  otc_message, packet_key,
}

uint32-IsU32 : (i : ℤ) → IsU32 (uint32 i)
uint32-IsU32 (pos n) = omega arith
uint32-IsU32 (negsuc n) = omega arith

otc_message-IsHeader :
    (j : Codec) (now : ℕ) (id : ℤ) (body : List ℕ)
    → IsU32 now
    → IsHeader (otc_message j now id body).head
unfolding otc_message
otc_message-IsHeader j now id body h = record {
  header_length = refl;
  length_range = omega arith;
  unknown_length = refl;
  device_id_range = uint32-IsU32 id;
  epoch_range = h;
  checksum_length = refl;
}

packet_sent :
    (j : Codec) (c : Crypto) (d : DeviceId) (d_token : List ℕ) (response : Option Method) (now : ℕ)
    (id : ℤ) (info : InternalInfo) (params body sent : List ℕ)
    → get_internal_info j response ≡ ok info
    → j.marshal_info (completed j d d_token info) ≡ some params
    → j.marshal_method (record {
      method = method_otc_info;
      params = params;
      result = [];
      id = id;
      partner_id = [];
    })
      ≡ some body
    → write c (otc_message j now d.device_id body) (packet_key j d) ≡ ok sent
    → otc_request j c (some d) d_token response now id ≡ ok (id, sent)
unfolding otc_request seal
packet_sent j c d d_token response now id info params body sent i p q w = rw (i, p, q, w) refl

-- CloudOTCInfo of a known device, whose internal information arrives and is marshalled to a text
-- of bytes with no null byte at either end: it sends a packet from which the holder of the
-- device's key reads that text and the device id.
pub otc_request-read :
    (j : Codec) (c : Crypto) (laws : IsCrypto c) (d : DeviceId) (d_token : List ℕ)
    (response : Option Method) (now : ℕ) (id : ℤ) (info : InternalInfo) (params mid : List ℕ)
    (x y : ℕ) (m0 : CloudMessage)
    → get_internal_info j response ≡ ok info
    → j.marshal_info (completed j d d_token info) ≡ some params
    → j.marshal_method (record {
      method = method_otc_info;
      params = params;
      result = [];
      id = id;
      partner_id = [];
    })
      ≡ some (x ∷ (mid ++ y ∷ []))
    → x ≢ 0
    → y ≢ 0
    → All IsByte (x ∷ (mid ++ y ∷ []))
    → length (x ∷ (mid ++ y ∷ [])) + 48 < 65536
    → IsU32 now
    → (bytes : List ℕ) × (sealed : CloudMessage) × (otc_request j c (some d) d_token response now id
        ≡ ok (id, bytes))
      × (read c m0 bytes (packet_key j d) ≡ returned sealed none)
      × (sealed.body ≡ x ∷ (mid ++ y ∷ []))
      × (sealed.device_id ≡ uint32 d.device_id)
unfolding otc_message
otc_request-read j c laws d d_token response now id info params mid x y m0 i p q hx hy bytes small
      clock =
    let (sent, sealed, w, r, body, h, u, device, e, l, lo, hi) =
      read-write c laws (otc_message j now d.device_id (x ∷ (mid ++ y ∷ []))) m0 (packet_key j d)
        (otc_message-IsHeader j now d.device_id (x ∷ (mid ++ y ∷ [])) clock) bytes (omega arith)
        small in
    (
      sent,
      sealed,
      packet_sent j c d d_token response now id info params (x ∷ (mid ++ y ∷ [])) sent i p q w,
      r,
      body ∙ trim_self x y mid hx hy,
      device,
    )

module _ (c : Crypto) (unmarshal : List ℕ → Method) (key : List ℕ) where
  -- A packet that is read without an error after a channel is registered under the id of its text.
  delivered :
      (s : State) (id : ℤ) (ch address : ℕ) (sealed : CloudMessage) (bytes : List ℕ)
      → s.receiver ≡ reading
      → read c zero_message bytes key ≡ returned sealed none
      → sealed.length_field ≢ header_size
      → (unmarshal sealed.body).id ≡ id
      → let after = run c unmarshal key s (register id ch ∷ packet bytes address ∷ receive ∷ []) in
        (after.answers ≡ s.answers ++ (ch, sealed.body) ∷ [])
        × (after.receiver ≡ reading)
        × (lookup id after.cloud_sessions ≡ none)
  unfolding run
  delivered s id ch address sealed bytes r rd ne same =
      let opened = step c unmarshal key s (register id ch) in
      let self : int_eq id id ≡ true = (int_eq_iff id id).1 refl in
      let known : lookup (unmarshal sealed.body).id opened.cloud_sessions ≡ some ch =
        unfold step lookup in rw (same, self) refl in
      let taken =
        step_returned c unmarshal key opened address ch bytes sealed none (unfold step in r) rd ne
          known in
      let missing : lookup id (delete (unmarshal sealed.body).id opened.cloud_sessions) ≡ none =
        rw (same, lookup-delete id id opened.cloud_sessions, self) refl in
      let meets : (ch == ch) ≡ true = ==_self ch in
      rw taken (unfold step in rw meets (refl, refl, missing))

  from_cloud :
      (s : State) (id : ℤ) (ch address : ℕ) (m : CloudMessage) (bytes sent : List ℕ)
      (sealed : CloudMessage)
      → s.receiver ≡ reading
      → write c m key ≡ ok bytes
      → (unmarshal (trim 0 m.body)).id ≡ id
      → length m.body + 48 ≤ 4096
      → write c m key ≡ ok sent
      → read c zero_message sent key ≡ returned sealed none
      → sealed.body ≡ trim 0 m.body
      → sealed.length_field ≡ length sent
      → header_size < length sent
      → length sent ≤ length m.body + 48
      → let after =
          run c unmarshal key s
            (register id ch ∷ packet (read_from bytes) address ∷ receive ∷ []) in
        (after.answers ≡ s.answers ++ (ch, trim 0 m.body) ∷ [])
        × (after.receiver ≡ reading)
        × (lookup id after.cloud_sessions ≡ none)
  from_cloud s id ch address m bytes sent sealed r written same small w rd body l lo hi =
      let one : bytes ≡ sent = cc (written, w) in
      let whole : read_from bytes ≡ sent = rw one (take_all 4096 sent (omega (arith, hi, small))) in
      let longer : sealed.length_field ≢ header_size = λ e. absurd (omega (arith, e, l, lo)) in
      let named : (unmarshal sealed.body).id ≡ id = rw body same in
      rw (whole, sym body) (delivered s id ch address sealed sent r rd longer named)

  -- The answer to CloudOTCInfo: after it has registered its channel under an id, a packet that the
  -- cloud has written with the device's key, whose text has that id and which fits the receiver's
  -- buffer, is read, and the channel gets the text without the null bytes at its ends; the session
  -- is gone and the receiver reads on.
  pub otc_answer_arrives :
      (laws : IsCrypto c) (s : State) (id : ℤ) (ch address : ℕ) (m : CloudMessage) (bytes : List ℕ)
      → s.receiver ≡ reading
      → IsHeader m.head
      → All IsByte m.body
      → 0 < length m.body
      → length m.body + 48 ≤ 4096
      → write c m key ≡ ok bytes
      → (unmarshal (trim 0 m.body)).id ≡ id
      → let after =
          run c unmarshal key s
            (register id ch ∷ packet (read_from bytes) address ∷ receive ∷ []) in
        (after.answers ≡ s.answers ++ (ch, trim 0 m.body) ∷ [])
        × (after.receiver ≡ reading)
        × (lookup id after.cloud_sessions ≡ none)
  otc_answer_arrives laws s id ch address m bytes r wf all some_body small written same =
      let (sent, sealed, w, rd, body, h, u, d, e, l, lo, hi) =
        read-write c laws m zero_message key wf all some_body (omega (arith, small)) in
      from_cloud s id ch address m bytes sent sealed r written same small w rd body l lo hi
