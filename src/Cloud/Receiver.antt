-- ===== src/Cloud/Receiver.antt =====
-- pkg/rockrobo/cloud.go, runCloudReceiver and cloudRegisterID, with what CloudOTCInfo does on the
-- other side of its channel. The goroutines are interleaved: an event is one step of one of them.
-- The device id is known, so its key is an argument; a packet that comes while r.deviceID is nil
-- ends the program, and is left out.
-- `unmarshal` is json.Unmarshal into a Method: what it fills in, also when it fails.
pub mod Sessions
pub mod Blocking
use rocklet.Base.{
  ℕ, suc, ◌+◌, List, [], ◌∷◌, ◌++◌, Option, none, some, Bool, true, false, ◌==◌, ltb, if◌then◌else◌,
  replicate, length, take,
}
use rocklet.Base.Assoc.{Assoc, lookup, insert, delete}
use rocklet.Base.Int.{ℤ, int_equality}
use rocklet.Protocol.{Method}
use rocklet.Cloud.Message.{Crypto, CloudMessage, ReadResult, returned, crashed, read, header_size}

-- What the receiving goroutine is at: reading the socket, blocked in a send on a channel, ended by
-- the closed socket, or ended by a panic.
pub data Receiver : Type 0 where
  reading : Receiver
  sending : ℕ → List ℕ → Receiver
  queueing : ℕ → Receiver
  stopped : Receiver
  panicked : Receiver

pub record State : Type 0 where
  -- the channel that waits for an answer to an id
  pub cloud_sessions : Assoc ℤ ℕ
  -- whether a goroutine is in the select of CloudOTCInfo on this channel
  pub waiting : ℕ → Bool
  -- what CloudOTCInfo has received
  pub answers : List (ℕ × List ℕ)
  -- cloudKeepAliveCh, a buffered channel of addresses
  pub cloud_keep_alive : List ℕ
  pub receiver : Receiver

abbrev pub keep_alive_capacity : ℕ
keep_alive_capacity = 16

pub data Event : Type 0 where
  packet : List ℕ → ℕ → Event  -- ReadFrom returns a packet and its address
  read_failed : Event  -- ReadFrom fails
  socket_closed : Event  -- ReadFrom fails since the socket is closed
  register : ℤ → ℕ → Event  -- CloudOTCInfo registers its channel and waits on it
  receive : Event  -- CloudOTCInfo takes what the receiver sends
  time_out : ℕ → Event  -- CloudOTCInfo gives up after five seconds
  queue : Event  -- the send on cloudKeepAliveCh finds room
  take_keep_alive : Event  -- runCloudKeepAlive receives an address

-- ReadFrom into a buffer of 4096 bytes: the rest of a longer datagram is lost.
abbrev pub read_from : List ℕ → List ℕ
read_from datagram = take 4096 datagram

-- `var msg CloudMessage`
abbrev pub zero_message : CloudMessage
zero_message = record {
  head = record {
    header = replicate 2 0;
    length = 0;
    unknown = replicate 4 0;
    device_id = 0;
    epoch = 0;
    checksum = replicate 16 0;
  };
  body = [];
}

abbrev pub set_waiting : (ℕ → Bool) → ℕ → Bool → ℕ → Bool
set_waiting w ch b j = if j == ch then b else w j

-- The channel of the session is looked up and the session deleted under the lock.
hand_over : State → ℤ → List ℕ → Option ℕ → State
hand_over s id body none = s
hand_over s id body (some ch) = record s {
  cloud_sessions = delete id s.cloud_sessions;
  receiver = sending ch body;
}

-- What follows the call of Read, whose error is logged and not looked at further.
handle_message : (List ℕ → Method) → State → ℕ → ReadResult → State
unfolding hand_over lookup delete
handle_message unmarshal s address crashed = record s { receiver = panicked }
handle_message unmarshal s address (returned msg error) =
    if msg.length_field == header_size
    then record s { receiver = queueing address }
    else (let method = unmarshal msg.body in
        hand_over s method.id msg.body (lookup method.id s.cloud_sessions))

-- cloudRegisterID, and the start of the wait.
cloud_register_id : State → ℤ → ℕ → State
unfolding insert
cloud_register_id s id ch = record s {
  cloud_sessions = insert id ch s.cloud_sessions;
  waiting = set_waiting s.waiting ch true;
}

-- The two sides of an unbuffered channel meet.
rendezvous : State → Receiver → State
rendezvous s (sending ch body) =
    if s.waiting ch
    then record s {
      waiting = set_waiting s.waiting ch false;
      answers = s.answers ++ (ch, body) ∷ [];
      receiver = reading;
    }
    else s
rendezvous s _ = s

enqueue : State → Receiver → State
enqueue s (queueing address) =
    if ltb (length s.cloud_keep_alive) keep_alive_capacity
    then record s { cloud_keep_alive = s.cloud_keep_alive ++ address ∷ []; receiver = reading }
    else s
enqueue s _ = s

dequeue : List ℕ → List ℕ
dequeue [] = []
dequeue (a ∷ rest) = rest

-- The receiver takes part in the events of its socket only while it reads.
on_reading : Receiver → State → State → State
on_reading reading s next = next
on_reading _ s next = s

-- One step. An event of a goroutine that is blocked or ended changes nothing.
unfoldable pub step : Crypto → (List ℕ → Method) → List ℕ → State → Event → State
unfolding handle_message cloud_register_id rendezvous enqueue dequeue on_reading
step c unmarshal key s (packet bytes address) =
    on_reading s.receiver s (handle_message unmarshal s address (read c zero_message bytes key))
step c unmarshal key s read_failed = s
step c unmarshal key s socket_closed = on_reading s.receiver s (record s { receiver = stopped })
step c unmarshal key s (register id ch) = cloud_register_id s id ch
step c unmarshal key s receive = rendezvous s s.receiver
step c unmarshal key s (time_out ch) = record s { waiting = set_waiting s.waiting ch false }
step c unmarshal key s queue = enqueue s s.receiver
step c unmarshal key s take_keep_alive = record s { cloud_keep_alive = dequeue s.cloud_keep_alive }

unfoldable pub run : Crypto → (List ℕ → Method) → List ℕ → State → List Event → State
run c unmarshal key s [] = s
run c unmarshal key s (e ∷ es) = run c unmarshal key (step c unmarshal key s e) es

abbrev pub new : State
new = record {
  cloud_sessions = [];
  waiting = λ ch. false;
  answers = [];
  cloud_keep_alive = [];
  receiver = reading;
}
