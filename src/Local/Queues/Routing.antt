-- ===== src/Local/Queues/Routing.antt =====
-- retrieve of pkg/rockrobo/rockrobo.go: which call gets a message, with any other calls around it.
use rocklet.Base.{
  Option-cases, ℕ, List, [], ◌∷◌, Option, none, some, Bool, true, false, ◌||◌, ◌≡◌, ◌≢◌, bytes_eq,
  bytes_eq_ne, bytes_eq_self, if◌then◌else◌, refl, ap, arith, inl, inr, All, ◌∙◌,
}
use rocklet.Base.Assoc.{lookup, insert, delete, string_eq, lookup-insert, lookup-delete}
use rocklet.Base.Int.{ℤ}
use rocklet.Base.Decimal.{itoa-injective}
use rocklet.Protocol.{Method}
use rocklet.Local.Queues.{Queues, Call, id_key, has_id, has_name, register, unregister, route}

id_key-injective : (a b : ℤ) → id_key a ≡ id_key b → a ≡ b
unfolding id_key
id_key-injective a b e = itoa-injective a b (ap (λ l. after l) e)
  where
    after : List ℕ → List ℕ
    after (i ∷ d ∷ q ∷ rest) = rest
    after _ = []

-- Whether a call registers under a key.
unfoldable pub owns : Call → List ℕ → Bool
owns c key =
    (if has_name c.response then bytes_eq c.response key else false)
    || (if has_id c.request then bytes_eq (id_key c.request.id) key else false)

pub lookup-register :
    (q r : Queues) (c : Call) (key : List ℕ)
    → register q c ≡ some r
    → lookup key r ≡ (if owns c key then some c.channel else lookup key q)
unfolding register owns
lookup-register q r c key h = ground (
  arith,
  lookup-insert (id_key c.request.id) key c.channel q,
  lookup-insert c.response key c.channel q,
  lookup-insert c.response key c.channel (insert (id_key c.request.id) c.channel q),
)

lookup-unregister :
    (q : Queues) (c : Call) (key : List ℕ)
    → lookup key (unregister q c) ≡ (if owns c key then none else lookup key q)
unfolding unregister owns
lookup-unregister q c key = ground (
  arith,
  lookup-delete c.response key q,
  lookup-delete (id_key c.request.id) key q,
  lookup-delete (id_key c.request.id) key (delete c.response q),
)

-- A call that returns leaves no trace: its keys are gone, and the other keys are as they were
-- before it registered.
pub lookup-unregister-register :
    (q r : Queues) (c : Call) (key : List ℕ)
    → register q c ≡ some r
    → lookup key (unregister r c) ≡ (if owns c key then none else lookup key q)
lookup-unregister-register q r c key h =
    ground (arith, lookup-unregister r c key, lookup-register q r c key h)

-- What the other calls do to the table.
pub data Step : Type 0 where
  begin : Call → Step
  end : Call → Step

abbrev pub call_of : Step → Call
call_of (begin c) = c
call_of (end c) = c

or_same : Queues → Option Queues → Queues
or_same q none = q
or_same q (some r) = r

unfoldable pub step : Queues → Step → Queues
unfolding or_same
step q (begin c) = or_same q (register q c)
step q (end c) = unregister q c

unfoldable pub steps : Queues → List Step → Queues
steps q [] = q
steps q (e ∷ es) = steps (step q e) es

pub lookup-step :
    (q : Queues) (e : Step) (key : List ℕ)
    → owns (call_of e) key ≡ false
    → lookup key (step q e) ≡ lookup key q
unfolding step
lookup-step q (begin c) key h = elim (Option-cases (register q c)) [
  | inl e ↦ rw e
  | inr (r, e) ↦ rw e (lookup-register q r c key e ∙ rw h)
]
lookup-step q (end c) key h = lookup-unregister q c key ∙ rw h

lookup-steps :
    (es : List Step) (q : Queues) (key : List ℕ)
    → All (λ e. owns (call_of e) key ≡ false) es
    → lookup key (steps q es) ≡ lookup key q
unfolding steps
lookup-steps [] q key h = refl
lookup-steps (e ∷ es) q key h = lookup-steps es (step q e) key h.1 ∙ lookup-step q e key h.0

-- Calls with another id, whose response is no key of this id, do not own the key of the id.
pub owns_other_id :
    (c : Call) (id : ℤ) → c.request.id ≢ id → c.response ≢ id_key id → owns c (id_key id) ≡ false
unfolding owns
owns_other_id c id ne no_name =
    rw
      (
        bytes_eq_ne c.response (id_key id) no_name,
        bytes_eq_ne (id_key c.request.id) (id_key id) (λ e. ne (id_key-injective _ _ e)),
      )
      (ground arith)

All-owns_other_id :
    (id : ℤ) (es : List Step)
    → All (λ e. (call_of e).request.id ≢ id × ((call_of e).response ≢ id_key id)) es
    → All (λ e. owns (call_of e) (id_key id) ≡ false) es
All-owns_other_id id [] h = tt
All-owns_other_id id (e ∷ es) h =
    (owns_other_id (call_of e) id h.0.0 h.0.1, All-owns_other_id id es h.1)

pub owns_own_id : (c : Call) → has_id c.request ≡ true → owns c (id_key c.request.id) ≡ true
unfolding owns
owns_own_id c has = rw (has, bytes_eq_self (id_key c.request.id)) (ground arith)

-- A call that gives its request an id gets the message that answers with that id, whatever the
-- message's method is, and whichever calls begin and end in the meantime, if they have other ids
-- and do not name the text `id=…` of this id as their response.
pub answer_by_id :
    (q r : Queues) (c : Call) (m : Method) (es : List Step)
    → has_id c.request ≡ true
    → register q c ≡ some r
    → m.id ≡ c.request.id
    → All
        (λ e. (call_of e).request.id ≢ c.request.id × ((call_of e).response ≢ id_key c.request.id))
        es
    → route (steps r es) m ≡ some c.channel
unfolding route
answer_by_id q r c m es has reg same others = rw (same, has, found)
  where
    found : lookup (id_key c.request.id) (steps r es) ≡ some c.channel
    found =
        lookup-steps es r _ (All-owns_other_id c.request.id es others)
        ∙ (lookup-register q r c _ reg ∙ rw (owns_own_id c has))

-- A call that waits for a method gets the next message of that method without an id, as long as
-- the calls that begin and end in the meantime do not register under that method.
pub answer_by_name :
    (q r : Queues) (c : Call) (m : Method) (es : List Step)
    → has_name c.response ≡ true
    → register q c ≡ some r
    → m.method ≡ c.response
    → has_id m ≡ false
    → All (λ e. owns (call_of e) c.response ≡ false) es
    → route (steps r es) m ≡ some c.channel
unfolding route owns
answer_by_name q r c m es has reg same bare others = rw (bare, same, found)
  where
    found : lookup c.response (steps r es) ≡ some c.channel
    found =
        lookup-steps es r _ others
        ∙ (lookup-register q r c _ reg ∙ rw (has, bytes_eq_self c.response))

register_named :
    (q : Queues) (c : Call) → has_name c.response ≡ true → (r : Queues) × (register q c ≡ some r)
unfolding register
register_named q c has = (
  insert c.response c.channel
      (if has_id c.request then insert (id_key c.request.id) c.channel q else q),
  ground arith,
)

pub owns_own_name : (c : Call) → has_name c.response ≡ true → owns c c.response ≡ true
unfolding owns
owns_own_name c has = rw (has, bytes_eq_self c.response)

pub lookup-begin :
    (q : Queues) (c : Call)
    → has_name c.response ≡ true
    → lookup c.response (step q (begin c)) ≡ some c.channel
unfolding step
lookup-begin q c has =
    let (r, e) = register_named q c has in
    rw e (lookup-register q r c c.response e ∙ rw (owns_own_name c has))

pub lookup-end :
    (q : Queues) (c : Call) → has_name c.response ≡ true → lookup c.response (step q (end c)) ≡ none
unfolding step
lookup-end q c has = lookup-unregister q c c.response ∙ rw (owns_own_name c has)

-- A message without an id is routed by its method.
pub route_bare : (q : Queues) (m : Method) → has_id m ≡ false → route q m ≡ lookup m.method q
unfolding route
route_bare q m bare = rw bare
