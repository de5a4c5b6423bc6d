-- ===== src/Cloud/KeepAlive.antt =====
-- pkg/rockrobo/cloud.go, runCloudKeepAlive: the loop that picks a cloud endpoint and the loop that
-- keeps a session with it. One call of `connect` is a pass of ConnectionLoop up to SessionLoop,
-- and one call of `session` a pass of SessionLoop; what the network, the clock and the random
-- source answer in a pass are its arguments. Times are seconds; no time is the zero time.Time.
pub mod Attempts
pub mod Stays
mod Tests
use rocklet.Base.{
  ℕ, zero, suc, ◌+◌, List, [], ◌∷◌, ◌++◌, Option, none, some, Bool, true, false, not, ◌&&◌, ◌||◌,
  ltb, if◌then◌else◌, bytes_eq,
}
use rocklet.Protocol.{method_local_status_internet_connected, method_local_status_cloud_connected}

abbrev pub Host : Type 0
Host = List ℕ

-- cloudEndpoints, a map without values, as the list of its keys in the order of iteration.
unfoldable pub add_endpoint : Host → List Host → List Host
add_endpoint h [] = h ∷ []
add_endpoint h (g ∷ gs) = let rest = add_endpoint h gs in if bytes_eq g h then g ∷ gs else g ∷ rest

unfoldable pub add_endpoints : List Host → List Host → List Host
unfolding add_endpoint
add_endpoints [] gs = gs
add_endpoints (h ∷ hs) gs = add_endpoints hs (add_endpoint h gs)

unfoldable pub delete_endpoint : Host → List Host → List Host
delete_endpoint h [] = []
delete_endpoint h (g ∷ gs) =
    let rest = delete_endpoint h gs in if bytes_eq g h then rest else g ∷ rest

-- What the inner loop knows of its session.
pub record Session : Type 0 where
  pub host : Host
  pub failed_attempts : ℕ
  pub next_status : Option ℕ
  pub has_queue : Bool  -- incomingQueueCloudCh is not nil

pub record State : Type 0 where
  pub cloud_endpoints : List Host
  pub cloud_queue : Bool  -- incomingQueues has the key "cloud"
  pub statuses : List (List ℕ)  -- what LocalSetStatus was called with
  pub session : Option Session  -- none outside SessionLoop

-- `for host = range r.cloudEndpoints { if i == 0 { break }; i-- }`
pick : Host → ℕ → List Host → Host
pick host i [] = host
pick host zero (g ∷ gs) = g
pick host (suc i) (g ∷ gs) = pick g i gs

is_empty : List Host → Bool
is_empty [] = true
is_empty (h ∷ hs) = false

-- The lookup of the cloud's name, if there is no endpoint; `none` is a lookup that fails.
look_up : List Host → Option (List Host) → List Host
unfolding add_endpoints is_empty
look_up gs none = gs
look_up gs (some hosts) = if is_empty gs then add_endpoints hosts gs else gs

-- A pass of ConnectionLoop: `answer` is what net.LookupHost returns, `index` what rand.Intn
-- returns, and `resolved` tells whether net.ResolveUDPAddr succeeds.
unfoldable pub connect : State → Option (List Host) → ℕ → Bool → State
unfolding look_up pick is_empty
connect s answer index resolved =
    let hosts = look_up s.cloud_endpoints answer in
    record s {
      cloud_endpoints = hosts;
      cloud_queue = false;
      session =
          if is_empty hosts || not resolved
          then none
          else some (record {
            host = pick [] index hosts;
            failed_attempts = 0;
            next_status = none;
            has_queue = false;
          });
    }

-- The select after the hello packet.
pub data Reply : Type 0 where
  right_address : Reply
  wrong_address : Reply
  no_reply : Reply

-- The select at the end: a message for the cloud, with whether json.Marshal and Write succeed and
-- whether the socket takes the packet, or fifteen seconds without one.
pub data Outgoing : Type 0 where
  message : Bool → Bool → Outgoing
  idle : Outgoing

-- What the calls of one pass of SessionLoop answer.
pub record Round : Type 0 where
  pub hello_written : Bool  -- NewHelloCloudMessage().Write returns no error
  pub hello_sent : Bool  -- WriteToUDP returns no error
  pub reply : Reply
  pub now : ℕ
  pub otc_info : Option (ℕ × List Host)  -- CloudOTCInfo: the interval and the IPs of the list
  pub after : ℕ  -- time.Now() behind CloudOTCInfo
  pub outgoing : Outgoing

abbrev failed : State → Session → State
failed s x = record s { session = some (record x { failed_attempts = x.failed_attempts + 1 }) }

-- nextStatus.Before(time.Now())
is_due : Option ℕ → ℕ → Bool
is_due none now = true
is_due (some t) now = ltb t now

is_zero : Option ℕ → Bool
is_zero none = true
is_zero (some t) = false

forward : State → Session → Outgoing → State
forward s x idle = record s { session = some x }
forward s x (message built sent) =
    if built && not sent then failed s x else record s { session = some x }

-- From `failedAttemps = 0` on.
proceed : State → Session → Round → State
unfolding forward
proceed s x r = forward s (record x { failed_attempts = 0 }) r.outgoing

report : State → Session → Round → Option (ℕ × List Host) → State
unfolding proceed add_endpoints
report s x r none = failed s x
report s x r (some (interval, hosts)) =
    proceed
      (record s {
        cloud_endpoints = add_endpoints hosts s.cloud_endpoints;
        statuses = s.statuses ++ method_local_status_cloud_connected ∷ [];
      })
      (record x { next_status = some (r.after + interval) }) r

-- After the answer to the hello packet.
connected : State → Session → Round → State
unfolding report proceed is_due is_zero
connected s x r =
    let s1 : State = record s {
      cloud_queue = if x.has_queue then s.cloud_queue else true;
      statuses =
          if is_zero x.next_status
          then s.statuses ++ method_local_status_internet_connected ∷ []
          else s.statuses;
    } in
    let x1 : Session = record x { has_queue = true } in
    if is_due x.next_status r.now then report s1 x1 r r.otc_info else proceed s1 x1 r

greeted : State → Session → Round → Reply → State
unfolding connected
greeted s x r right_address = connected s x r
greeted s x r wrong_address = record s { session = some x }
greeted s x r no_reply = failed s x

abbrev pub max_failed_attempts : ℕ
max_failed_attempts = 5

session_round : State → Session → Round → State
unfolding greeted delete_endpoint
session_round s x r =
    if ltb max_failed_attempts x.failed_attempts
    then record s { cloud_endpoints = delete_endpoint x.host s.cloud_endpoints; session = none }
    else if not r.hello_written
    then failed s x
    else if not r.hello_sent
    then failed s x
    else greeted s x r r.reply

in_session : State → Option Session → Round → State
unfolding session_round
in_session s none r = s
in_session s (some x) r = session_round s x r

-- A pass of SessionLoop; outside of it nothing happens.
unfoldable pub session_pass : State → Round → State
unfolding in_session
session_pass s r = in_session s s.session r

unfoldable pub session_passes : State → List Round → State
session_passes s [] = s
session_passes s (r ∷ rs) = session_passes (session_pass s r) rs
