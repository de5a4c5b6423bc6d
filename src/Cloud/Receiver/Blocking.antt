-- ===== src/Cloud/Receiver/Blocking.antt =====
-- runCloudReceiver of pkg/rockrobo/cloud.go: the error of Read that is not acted on, and the send
-- to a caller that no longer waits.
use rocklet.Base.{
  ℕ, ◌+◌, ◌≡◌, ◌≢◌, List, [], ◌∷◌, ◌++◌, Option, some, true, false, ◌==◌, ==_iff, length, refl,
  arith, All, Bool-cases, inl, inr,
}
use rocklet.Base.Assoc.{lookup, delete}
use rocklet.Base.Bytes.{u16}
use rocklet.Base.Int.{int_equality}
use rocklet.Protocol.{Method}
use rocklet.Cloud.Message.{
  Crypto, IsCrypto, CloudMessage, Error, returned, read, header_size, encode_header,
}
use rocklet.Cloud.Message.Header.{IsHeader}
use rocklet.Cloud.Message.Forged.{digest, read_forged}
use rocklet.Cloud.Receiver.{
  State, Event, reading, sending, packet, register, receive, time_out, step, run, zero_message,
}

-- No goroutine starts to wait on the channel.
abbrev pub Leaves : ℕ → Event → Type 0
Leaves ch (register id j) = j ≢ ch
Leaves ch _ = Unit

pub record IsBlocked (ch : ℕ) (body : List ℕ) (s : State) : Type 0 where
  pub sends : s.receiver ≡ sending ch body
  pub alone : s.waiting ch ≡ false

module _ (c : Crypto) (unmarshal : List ℕ → Method) (key : List ℕ) (ch : ℕ) (body : List ℕ) where
  step-IsBlocked :
      (s : State) (e : Event)
      → IsBlocked ch body s
      → Leaves ch e
      → IsBlocked ch body (step c unmarshal key s e)
  unfolding step
  step-IsBlocked s (register id j) b h = ground arith
  step-IsBlocked s (time_out j) b h = ground arith
  step-IsBlocked s _ b h = ground arith

  -- A receiver that sends to a channel on which nobody waits never gets on, unless somebody starts
  -- to wait on that channel.
  run-IsBlocked :
      (s : State) (es : List Event)
      → IsBlocked ch body s
      → All (Leaves ch) es
      → IsBlocked ch body (run c unmarshal key s es)
  unfolding run
  run-IsBlocked s [] b h = b
  run-IsBlocked s (e ∷ es) b h =
      run-IsBlocked (step c unmarshal key s e) es (step-IsBlocked s e b h.0) h.1

module _ (c : Crypto) (unmarshal : List ℕ → Method) (key : List ℕ) (s : State)
    (address ch : ℕ) where
  -- What the receiver does with a packet for which Read returns at all, the error of Read not
  -- read.
  pub step_returned :
      (bytes : List ℕ) (msg : CloudMessage) (error : Option Error)
      → s.receiver ≡ reading
      → read c zero_message bytes key ≡ returned msg error
      → msg.length_field ≢ header_size
      → lookup (unmarshal msg.body).id s.cloud_sessions ≡ some ch
      → step c unmarshal key s (packet bytes address) ≡ record s {
        cloud_sessions = delete (unmarshal msg.body).id s.cloud_sessions;
        receiver = sending ch msg.body;
      }
  unfolding step
  step_returned bytes msg error r e ne known = elim (Bool-cases (msg.length_field == header_size)) [
    | inl bare ↦ absurd (ne ((==_iff _ _).0 bare))
    | inr body ↦ rw (r, e, body, known)
  ]

  -- An answer to a caller that has given up (five seconds after it registered) is taken from the
  -- table of sessions and blocks the receiver: whatever else happens, as long as nobody waits on
  -- that channel again, no further packet is read.
  pub late_answer_blocks :
      (bytes : List ℕ) (msg : CloudMessage) (error : Option Error)
      → s.receiver ≡ reading
      → read c zero_message bytes key ≡ returned msg error
      → msg.length_field ≢ header_size
      → lookup (unmarshal msg.body).id s.cloud_sessions ≡ some ch
      → s.waiting ch ≡ false
      → (es : List Event) → All (Leaves ch) es
      → (run c unmarshal key (step c unmarshal key s (packet bytes address)) es).receiver
        ≡ sending ch msg.body
  late_answer_blocks bytes msg error r e ne known alone es away =
      (run-IsBlocked c unmarshal key ch msg.body _ es blocked away).sends
    where
      blocked : IsBlocked ch msg.body (step c unmarshal key s (packet bytes address))
      blocked =
          rw (step_returned bytes msg error r e ne known) (record { sends = refl; alone = alone })

  -- A packet with a wrong checksum, its body any text that names the id of a session, is handed to
  -- the caller that waits for the answer: the body is passed on as it arrived, not decrypted.
  pub forged_answer :
      (laws : IsCrypto c) (m : CloudMessage)
      → IsHeader m.head
      → m.length_field ≡ u16 (header_size + length m.body)
      → m.length_field ≢ header_size
      → m.sum ≢ digest c m key
      → s.receiver ≡ reading
      → lookup (unmarshal m.body).id s.cloud_sessions ≡ some ch
      → s.waiting ch ≡ true
      → (run c unmarshal key s
          (packet (encode_header m.head ++ m.body) address ∷ receive ∷ [])).answers
        ≡ s.answers ++ (ch, m.body) ∷ []
  unfolding run
  forged_answer laws m wf fits ne wrong r known waits =
      rw (step_returned _ m _ r (read_forged c laws m zero_message key wf fits ne wrong) ne known)
        (unfold step in rw waits)
