-- ===== src/Cloud/KeepAlive/Attempts.antt =====
-- runCloudKeepAlive of pkg/rockrobo/cloud.go: when an endpoint is given up.
use rocklet.Base.{
  ◌+◌, ◌≤◌, ◌<◌, ◌≡◌, ◌≢◌, ◌⊎◌, inl, inr, List, [], ◌∷◌, ◌++◌, none, some, Bool, true, false, ◌||◌,
  le→ltb, lt→ltb, bytes_eq, bytes_eq→≡, bytes_eq_ne, refl, ap, ◌∙◌, arith, All, length, Bool-cases,
}
use rocklet.Cloud.KeepAlive.{
  Host, Session, State, Round, wrong_address, no_reply, delete_endpoint, session_pass,
  session_passes, max_failed_attempts, failed,
}

abbrev pub known : Host → List Host → Bool
known h [] = false
known h (g ∷ gs) = bytes_eq g h || known h gs

known-delete_self : (h : Host) (gs : List Host) → known h (delete_endpoint h gs) ≡ false
unfolding delete_endpoint
known-delete_self h [] = refl
known-delete_self h (g ∷ gs) = ground (arith, known-delete_self h gs)

known-delete_ne :
    (h k : Host) (gs : List Host) → h ≢ k → known k (delete_endpoint h gs) ≡ known k gs
unfolding delete_endpoint
known-delete_ne h k [] ne = refl
known-delete_ne h k (g ∷ gs) ne = elim (Bool-cases (bytes_eq g h)) [
  | inl same ↦
      let e : g ≡ h = bytes_eq→≡ g h same in
      let d : bytes_eq g k ≡ false = bytes_eq_ne g k (λ p. ne (cc (e, p))) in
      rw (same, d) (known-delete_ne h k gs ne)
  | inr differ ↦ rw (differ, known-delete_ne h k gs ne)
]

-- The hello packet is not built, not sent, or not answered.
abbrev pub IsUnanswered : Round → Type 0
IsUnanswered r = (r.hello_written ≡ false) ⊎ ((r.hello_sent ≡ false) ⊎ (r.reply ≡ no_reply))

-- The hello packet is sent, and answered from another address.
pub record IsMisanswered (r : Round) : Type 0 where
  pub written : r.hello_written ≡ true
  pub sent : r.hello_sent ≡ true
  pub elsewhere : r.reply ≡ wrong_address

module _ (s : State) (x : Session) (r : Round) (at : s.session ≡ some x) where
  session_pass_unanswered :
      x.failed_attempts ≤ max_failed_attempts → IsUnanswered r → session_pass s r ≡ failed s x
  unfolding session_pass
  session_pass_unanswered few u = rw at (ground arith)

  session_pass_given_up :
      max_failed_attempts < x.failed_attempts
      → session_pass s r
        ≡ record s { cloud_endpoints = delete_endpoint x.host s.cloud_endpoints; session = none }
  unfolding session_pass
  session_pass_given_up many = rw (at, lt→ltb _ _ many)

unchanged :
    (s : State) (x : Session) (r : Round)
    → s.session ≡ some x
    → x.failed_attempts ≤ max_failed_attempts
    → IsMisanswered r
    → session_pass s r ≡ s
unfolding session_pass
unchanged s x r at few h = rw (at, le→ltb _ _ few, h.written, h.sent, h.elsewhere)

-- Unanswered passes are counted, as long as the count is at most six.
session_passes_unanswered :
    (rs : List Round) (s : State) (x : Session)
    → s.session ≡ some x
    → All IsUnanswered rs
    → x.failed_attempts + length rs ≤ 6
    → (session_passes s rs).cloud_endpoints ≡ s.cloud_endpoints
      × ((session_passes s rs).session
          ≡ some (record x { failed_attempts = x.failed_attempts + length rs }))
unfolding session_passes
session_passes_unanswered [] s x at us small =
    (refl, at ∙ ap (λ n. some (record x { failed_attempts = n })) (omega arith))
session_passes_unanswered (r ∷ rs) s x at us small =
    let (hosts, next) =
      session_passes_unanswered rs (failed s x)
        (record x { failed_attempts = x.failed_attempts + 1 }) refl us.1 (omega arith) in
    rw (session_pass_unanswered s x r at (omega arith) us.0, session_passes)
      (hosts, next ∙ ap (λ n. some (record x { failed_attempts = n })) (omega arith))

session_passes-append :
    (rs : List Round) (s : State) (r : Round)
    → session_passes s (rs ++ r ∷ []) ≡ session_pass (session_passes s rs) r
unfolding session_passes
session_passes-append [] s r = refl
session_passes-append (q ∷ rs) s r = session_passes-append rs (session_pass s q) r

-- After six passes in a row without an answer to the hello packet, the next pass gives the
-- endpoint up, whatever it would bring: the session ends, the endpoint leaves the map, and any
-- other endpoint is known exactly if it was known before.
pub dead_endpoint_dropped :
    (s : State) (x : Session) (rs : List Round) (r : Round) (k : Host)
    → s.session ≡ some x
    → x.failed_attempts ≡ 0
    → length rs ≡ 6
    → All IsUnanswered rs
    → x.host ≢ k
    → ((session_passes s (rs ++ r ∷ [])).session ≡ none)
      × (known x.host (session_passes s (rs ++ r ∷ [])).cloud_endpoints ≡ false)
      × (known k (session_passes s (rs ++ r ∷ [])).cloud_endpoints ≡ known k s.cloud_endpoints)
dead_endpoint_dropped s x rs r k at fresh six us ne =
    let (hosts, next) = session_passes_unanswered rs s x at us (omega arith) in
    let gone =
      session_passes-append rs s r
      ∙ session_pass_given_up (session_passes s rs)
          (record x { failed_attempts = x.failed_attempts + length rs }) r next (omega arith) in
    rw gone (refl, known-delete_self x.host _, known-delete_ne x.host k _ ne ∙ ap (known k) hosts)

-- An endpoint that never answers is not given up while other addresses answer: passes whose hello
-- packet is answered from a wrong address change nothing, however many there are.
pub wrong_address_never_counts :
    (rs : List Round) (s : State) (x : Session)
    → s.session ≡ some x
    → x.failed_attempts ≤ max_failed_attempts
    → All IsMisanswered rs
    → session_passes s rs ≡ s
unfolding session_passes
wrong_address_never_counts [] s x at few h = refl
wrong_address_never_counts (r ∷ rs) s x at few h =
    rw (unchanged s x r at few h.0, session_passes) (wrong_address_never_counts rs s x at few h.1)
