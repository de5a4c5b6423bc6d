-- ===== src/Local/AppCommand/Tests.antt =====
-- AppCommand of pkg/rockrobo/rockrobo.go with GetToken beside it.
use rocklet.Base.{ℕ, ◌≡◌, ◌≢◌, List, [], ◌∷◌, ◌++◌, none, some, true, refl, arith, bytes_eq}
use rocklet.Base.Assoc.{string_eq}
use rocklet.Base.Int.{pos}
use rocklet.Base.Decimal.{itoa}
use rocklet.Base.Text.{codes}
use rocklet.Protocol.{Method, method_response_token}
use rocklet.Local.Queues.{Queues, Call, id_key, register}
use rocklet.Local.Queues.Routing.{begin, end}
use rocklet.Local.AppCommand.{
  Event, take, received, get, other, no_callback, returned, app_call, app_command, run,
}
use rocklet.Local.AppCommand.Answered.{taken, answered, app_command-returns}

abbrev message : List ℕ → ℕ → Method
message name id = record { method = name; params = []; result = []; id = pos id; partner_id = [] }

abbrev token_call : Call
token_call = record {
  request = message (codes "_internal.request_dtoken") 0;
  response = method_response_token;
  channel = 1;
}

abbrev table : Queues
table = (codes "cloud", 9) ∷ []

abbrev app_start : Call
app_start = app_call (codes "app_start") [] 17 2

abbrev events : List Event
events =
    other (begin token_call)
    ∷ take
    ∷ received true (message method_response_token 0)
    ∷ received true (message (codes "ok") 17)
    ∷ other (end token_call)
    ∷ []

-- With 0 as the random number nothing is sent.
app_command-zero :
    (app_command table (app_call (codes "app_start") [] 0 2)).phase ≡ returned (some no_callback)
unfolding app_command register bytes_eq
app_command-zero = refl

app_command-returns_example :
    (run app_start (app_command table app_start) (events ++ get ∷ [])).phase ≡ returned none
app_command-returns_example =
    app_command-returns app_start table events refl (other_call, (tt, (tt, (tt, (other_call, tt)))))
      (unfold taken in refl) (unfold answered bytes_eq in refl)
  where
    other_call : (pos 0 ≢ pos 17) × (method_response_token ≢ id_key (pos 17))
    other_call =
        ((λ e. absurd (ground (arith, e))), unfold id_key itoa in λ e. absurd (ground (arith, e)))
