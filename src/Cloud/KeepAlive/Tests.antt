-- ===== src/Cloud/KeepAlive/Tests.antt =====
-- runCloudKeepAlive of pkg/rockrobo/cloud.go on concrete sessions.
use rocklet.Base.{◌≡◌, [], ◌∷◌, ◌++◌, none, some, true, false, refl, arith, inr, replicate}
use rocklet.Base.Text.{codes}
use rocklet.Cloud.KeepAlive.{
  Host, Session, State, Round, no_reply, wrong_address, right_address, idle, session_passes,
}
use rocklet.Cloud.KeepAlive.Attempts.{known, dead_endpoint_dropped}

abbrev first : Host
first = codes "10.0.0.1"

abbrev second : Host
second = codes "10.0.0.2"

abbrev session : Session
session = record { host = first; failed_attempts = 0; next_status = none; has_queue = false }

abbrev state : State
state = record {
  cloud_endpoints = first ∷ second ∷ [];
  cloud_queue = false;
  statuses = [];
  session = some session;
}

abbrev silent : Round
silent = record {
  hello_written = true;
  hello_sent = true;
  reply = no_reply;
  now = 5;
  otc_info = none;
  after = 6;
  outgoing = idle;
}

abbrev misanswered : Round
misanswered = record silent { reply = wrong_address }

abbrev answered : Round
answered = record silent { reply = right_address; otc_info = some (30, codes "10.0.0.3" ∷ []) }

dead_endpoint_dropped_example :
    ((session_passes state (replicate 6 silent ++ answered ∷ [])).session ≡ none)
    × (known first (session_passes state (replicate 6 silent ++ answered ∷ [])).cloud_endpoints
        ≡ false)
    × (known second (session_passes state (replicate 6 silent ++ answered ∷ [])).cloud_endpoints
        ≡ known second (first ∷ second ∷ []))
dead_endpoint_dropped_example =
    dead_endpoint_dropped state session (replicate 6 silent) answered second refl refl refl
      (
        inr (inr refl),
        (
          inr (inr refl),
          (inr (inr refl), (inr (inr refl), (inr (inr refl), (inr (inr refl), tt)))),
        ),
      )
      (λ e. ground (arith, e))
