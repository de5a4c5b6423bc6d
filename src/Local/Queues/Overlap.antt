-- ===== src/Local/Queues/Overlap.antt =====
-- retrieve of pkg/rockrobo/rockrobo.go: two calls at once that wait for the same method, as
-- GetInternalInfo is called both by the status loop and by CloudOTCInfo.
use rocklet.Base.{[], ◌∷◌, none, some, true, false, ◌≡◌, ap, sym, ◌∙◌}
use rocklet.Base.Assoc.{lookup, string_eq}
use rocklet.Protocol.{Method}
use rocklet.Local.Queues.{Queues, Call, has_id, has_name, route}
use rocklet.Local.Queues.Routing.{begin, end, steps, step, lookup-begin, lookup-end, route_bare}

-- Of two calls at once that wait for the same method, the second one gets the message that the
-- first one asked for, and when the first one returns it takes the registration of the second one
-- away: the next message of that method, if it has no id, is dropped.
pub overlap_loses_answer :
    (q : Queues) (a b : Call) (m : Method)
    → has_name a.response ≡ true
    → b.response ≡ a.response
    → m.method ≡ a.response
    → has_id m ≡ false
    → (route (steps q (begin a ∷ begin b ∷ [])) m ≡ some b.channel)
      × (route (steps q (begin a ∷ begin b ∷ end a ∷ [])) m ≡ none)
unfolding steps
overlap_loses_answer q a b m named same answers bare = (
  route_bare (step (step q (begin a)) (begin b)) m bare
      ∙ (ap (λ k. lookup k (step (step q (begin a)) (begin b))) (answers ∙ sym same)
          ∙ lookup-begin (step q (begin a)) b (ap has_name same ∙ named)),
  route_bare (step (step (step q (begin a)) (begin b)) (end a)) m bare
      ∙ (ap (λ k. lookup k (step (step (step q (begin a)) (begin b)) (end a))) answers
          ∙ lookup-end (step (step q (begin a)) (begin b)) a named),
)
