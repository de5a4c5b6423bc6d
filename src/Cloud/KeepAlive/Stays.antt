-- ===== src/Cloud/KeepAlive/Stays.antt =====
-- runCloudKeepAlive of pkg/rockrobo/cloud.go: what a pass of the session keeps while few attempts
-- have failed.
use rocklet.Base.{
  ℕ, ◌+◌, ◌≤◌, ◌≡◌, List, [], ◌∷◌, ◌++◌, Option, none, some, Bool, true, false, not, le→ltb,
  if◌then◌else◌, refl, ap, arith,
}
use rocklet.Protocol.{method_local_status_internet_connected, method_local_status_cloud_connected}
use rocklet.Cloud.KeepAlive.{
  Host, Session, State, Round, Reply, right_address, wrong_address, no_reply, Outgoing, message,
  idle, add_endpoint, add_endpoints, session_pass, in_session, max_failed_attempts, session_round,
  is_due, is_zero, greeted, connected, report, proceed, forward, failed,
}
use rocklet.Cloud.KeepAlive.Attempts.{known}

known-add_endpoint :
    (h k : Host) (gs : List Host) → known k gs ≡ true → known k (add_endpoint h gs) ≡ true
unfolding add_endpoint
known-add_endpoint h k [] e = cc
known-add_endpoint h k (g ∷ gs) e = ground (arith, known-add_endpoint h k gs)

known-add_endpoints :
    (hs : List Host) (k : Host) (gs : List Host)
    → known k gs ≡ true
    → known k (add_endpoints hs gs) ≡ true
unfolding add_endpoints
known-add_endpoints [] k gs e = e
known-add_endpoints (h ∷ hs) k gs e =
    known-add_endpoints hs k (add_endpoint h gs) (known-add_endpoint h k gs e)

-- What a pass keeps while at most five attempts have failed.
record Keeps (s : State) (x : Session) (t : State) : Type 0 where
  session : Session
  in_session : t.session ≡ some session
  same_host : session.host ≡ x.host
  counted : session.failed_attempts ≤ x.failed_attempts + 1
  kept : (k : Host) → known k s.cloud_endpoints ≡ true → known k t.cloud_endpoints ≡ true

Keeps-forward :
    (s t : State) (x y : Session) (o : Outgoing)
    → y.host ≡ x.host
    → y.failed_attempts ≡ 0
    → ((k : Host) → known k s.cloud_endpoints ≡ true → known k t.cloud_endpoints ≡ true)
    → Keeps s x (forward t y o)
unfolding forward
Keeps-forward s t x y idle e z kept = record {
  session = y;
  in_session = refl;
  same_host = e;
  counted = omega arith;
  kept = kept;
}
Keeps-forward s t x y (message true false) e z kept = record {
  session = record y { failed_attempts = y.failed_attempts + 1 };
  in_session = refl;
  same_host = e;
  counted = omega arith;
  kept = kept;
}
Keeps-forward s t x y (message true true) e z kept = record {
  session = y;
  in_session = refl;
  same_host = e;
  counted = omega arith;
  kept = kept;
}
Keeps-forward s t x y (message false sent) e z kept = record {
  session = y;
  in_session = refl;
  same_host = e;
  counted = omega arith;
  kept = kept;
}

Keeps-failed :
    (s t : State) (x y : Session)
    → y.host ≡ x.host
    → y.failed_attempts ≡ x.failed_attempts
    → t.cloud_endpoints ≡ s.cloud_endpoints
    → Keeps s x (failed t y)
Keeps-failed s t x y e n same = record {
  session = record y { failed_attempts = y.failed_attempts + 1 };
  in_session = refl;
  same_host = e;
  counted = omega arith;
  kept = λ k p. rw same p;
}

Keeps-report :
    (s t : State) (x y : Session) (r : Round) (o : Option (ℕ × List Host))
    → y.host ≡ x.host
    → y.failed_attempts ≡ x.failed_attempts
    → t.cloud_endpoints ≡ s.cloud_endpoints
    → Keeps s x (report t y r o)
unfolding report proceed
Keeps-report s t x y r none e n same = Keeps-failed s t x y e n same
Keeps-report s t x y r (some (interval, hosts)) e n same =
    Keeps-forward s
      (record t {
        cloud_endpoints = add_endpoints hosts t.cloud_endpoints;
        statuses = t.statuses ++ method_local_status_cloud_connected ∷ [];
      })
      x (record y { next_status = some (r.after + interval); failed_attempts = 0 }) r.outgoing e
      refl λ k p. rw same (known-add_endpoints hosts k s.cloud_endpoints p)

Keeps-if :
    {s : State} {x : Session} (b : Bool) {t u : State}
    → Keeps s x t
    → Keeps s x u
    → Keeps s x (if b then t else u)
Keeps-if true h k = h
Keeps-if false h k = k

Keeps-connected : (s : State) (x : Session) (r : Round) → Keeps s x (connected s x r)
unfolding connected proceed
Keeps-connected s x r =
    Keeps-if (is_due x.next_status r.now) (Keeps-report s s1 x x1 r r.otc_info refl refl refl)
      (Keeps-forward s s1 x (record x1 { failed_attempts = 0 }) r.outgoing refl refl (λ k p. p))
  where
    s1 : State
    s1 = record s {
      cloud_queue = if x.has_queue then s.cloud_queue else true;
      statuses =
          if is_zero x.next_status
          then s.statuses ++ method_local_status_internet_connected ∷ []
          else s.statuses;
    }

    x1 : Session
    x1 = record x { has_queue = true }

Keeps-greeted :
    (s : State) (x : Session) (r : Round) (y : Reply)
    → s.session ≡ some x
    → Keeps s x (greeted s x r y)
unfolding greeted
Keeps-greeted s x r right_address at = Keeps-connected s x r
Keeps-greeted s x r wrong_address at = record {
  session = x;
  in_session = refl;
  same_host = refl;
  counted = omega arith;
  kept = λ k p. p;
}
Keeps-greeted s x r no_reply at = Keeps-failed s s x x refl refl refl

session_pass_in :
    (s : State) (x : Session) (r : Round)
    → s.session ≡ some x
    → session_pass s r ≡ session_round s x r
unfolding session_pass
session_pass_in s x r at = ap (λ o. in_session s o r) at

session_pass-Keeps :
    (s : State) (x : Session) (r : Round)
    → s.session ≡ some x
    → x.failed_attempts ≤ max_failed_attempts
    → Keeps s x (session_pass s r)
unfolding session_round
session_pass-Keeps s x r at few =
    rw (session_pass_in s x r at, le→ltb _ _ few)
      (Keeps-if (not r.hello_written) (Keeps-failed s s x x refl refl refl) (
        Keeps-if (not r.hello_sent) (Keeps-failed s s x x refl refl refl)
          (Keeps-greeted s x r r.reply at)))

-- While at most five attempts in a row have failed, a pass stays in the session with its endpoint,
-- counts at most one more failure, and drops no endpoint, whatever the network answers.
pub session_pass_stays :
    (s : State) (x : Session) (r : Round) (k : Host)
    → s.session ≡ some x
    → x.failed_attempts ≤ max_failed_attempts
    → known k s.cloud_endpoints ≡ true
    → (y : Session) × ((session_pass s r).session ≡ some y)
      × (y.host ≡ x.host)
      × (y.failed_attempts ≤ x.failed_attempts + 1)
      × (known k (session_pass s r).cloud_endpoints ≡ true)
session_pass_stays s x r k at few p =
    let h = session_pass-Keeps s x r at few in
    (h.session, h.in_session, h.same_host, h.counted, h.kept k p)
