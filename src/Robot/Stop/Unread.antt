-- ===== src/Robot/Stop/Unread.antt =====
-- The end of the program in pkg/rockrobo/rockrobo.go: a goroutine that has not read r.stopCh when
-- runSignalHandling has set it to nil, and the steps of the goroutines.
use mathlib.Core.Path.{subst}
use rocklet.Base.{
  ℕ, ◌-◌, ◌≡◌, ◌≢◌, ◌⊎◌, inl, inr, ==_ne, some, Bool, true, false, ◌==◌, if◌then◌else◌, get_elem?,
  refl, ap, arith,
}
use rocklet.Robot.Stop.{
  Task, Progress, running, holding, stuck, ended, Goroutine, State, counted, waits, set_progress,
  moved, finished, socket_gone, on_evaluate, on_receive, on_tick, next_pass, is_status_loop,
  on_socket_closed,
}
use rocklet.Robot.Stop.Goroutines.{get_elem?-set_progress, socket_gone-waits}

-- Not in a receive from the channel and not at its end.
abbrev pub waiting : Progress → Bool
waiting running = true
waiting stuck = true
waiting _ = false

-- The field is nil, and this goroutine has yet to read it, or has read nil.
pub record HasNotRead (i : ℕ) (t : Task) (s : State) : Type 0 where
  pub cleared : s.stop_ch ≡ false
  pub progress : Progress
  pub there : get_elem? s.goroutines i ≡ some (record { task = t; progress = progress })
  pub waits_still : waiting progress ≡ true

module _ (i : ℕ) (t : Task) (w : waits t ≡ true) where
  -- Another goroutine moves, or this one to a place where it still waits.
  moved-HasNotRead :
      (s : State) (j : ℕ) (q : Progress)
      → (waiting q ≡ true) ⊎ ((i == j) ≡ false)
      → HasNotRead i t s
      → HasNotRead i t (moved s j q)
  moved-HasNotRead s j q k h = record {
    cleared = h.cleared;
    progress = if i == j then q else h.progress;
    there =
        get_elem?-set_progress s.goroutines i j q (record { task = t; progress = h.progress })
          h.there;
    waits_still = pick (i == j) q h.progress k h.waits_still;
  }
    where
      pick :
          (b : Bool) (q p : Progress)
          → (waiting q ≡ true) ⊎ (b ≡ false)
          → waiting p ≡ true
          → waiting (if b then q else p) ≡ true
      pick true q p (inl k) h = k
      pick true q p (inr k) h = ground (arith, k)
      pick false q p k h = h

  pub if-HasNotRead :
      (b : Bool) (r s : State)
      → (b ≡ true → HasNotRead i t r)
      → (b ≡ false → HasNotRead i t s)
      → HasNotRead i t (if b then r else s)
  if-HasNotRead true r s h k = h refl
  if-HasNotRead false r s h k = k refl

  finished-HasNotRead :
      (s : State) (j : ℕ) (u : Task)
      → (i == j) ≡ false
      → HasNotRead i t s
      → HasNotRead i t (finished s j u)
  finished-HasNotRead s j u ne h =
      let other = moved-HasNotRead s j ended (inr ne) h in
      if-HasNotRead (counted u) _ (moved s j ended)
        (λ c.
          if-HasNotRead (s.wait_group == 0) (record s { panicked = true })
            (record s {
              goroutines = set_progress s.goroutines j ended;
              wait_group = s.wait_group - 1;
            })
            (λ z. record {
              cleared = h.cleared;
              progress = h.progress;
              there = h.there;
              waits_still = h.waits_still;
            })
            (λ z. record {
              cleared = h.cleared;
              progress = other.progress;
              there = other.there;
              waits_still = other.waits_still;
            }))
        (λ c. other)

  nil_read : (b : Bool) → b ≡ false → waiting (if b then holding else stuck) ≡ true
  nil_read true e = ground (arith, e)
  nil_read false e = refl

  pub evaluate-HasNotRead :
      (s : State) (j : ℕ) (u : Task) (p : Progress)
      → HasNotRead i t s
      → HasNotRead i t (on_evaluate s j u p)
  evaluate-HasNotRead s j u running h =
      if-HasNotRead (waits u) (moved s j (if s.stop_ch then holding else stuck)) s
        (λ e.
          moved-HasNotRead s j (if s.stop_ch then holding else stuck)
            (inl (nil_read s.stop_ch h.cleared)) h)
        (λ e. h)
  evaluate-HasNotRead s j u holding h = h
  evaluate-HasNotRead s j u stuck h = h
  evaluate-HasNotRead s j u ended h = h

  pass-HasNotRead :
      (s : State) (j : ℕ) (p : Progress) → HasNotRead i t s → HasNotRead i t (next_pass s j p)
  pass-HasNotRead s j holding h = moved-HasNotRead s j running (inl refl) h
  pass-HasNotRead s j stuck h = moved-HasNotRead s j running (inl refl) h
  pass-HasNotRead s j running h = h
  pass-HasNotRead s j ended h = h

  -- A goroutine that is at a place where this one is not, is another one.
  apart :
      (s : State) (j : ℕ) (g : Goroutine)
      → get_elem? s.goroutines j ≡ some g
      → (h : HasNotRead i t s) → record { task = t; progress = h.progress } ≢ g
      → (i == j) ≡ false
  apart s j g e h ne = ==_ne i j (λ same. let there = h.there in ne (cc (there, e, same)))

  pub receive-HasNotRead :
      (s : State) (j : ℕ) (u : Task) (p : Progress)
      → get_elem? s.goroutines j ≡ some (record { task = u; progress = p })
      → HasNotRead i t s
      → HasNotRead i t (on_receive s j u p)
  receive-HasNotRead s j u holding e h =
      let other =
        apart s j (record { task = u; progress = holding }) e h
          (λ d. ground (arith, h.waits_still, ap (λ g. waiting g.progress) d)) in
      if-HasNotRead s.closed (finished s j u) s (λ c. finished-HasNotRead s j u other h) (λ c. h)
  receive-HasNotRead s j u running e h = h
  receive-HasNotRead s j u stuck e h = h
  receive-HasNotRead s j u ended e h = h

  pub closed-HasNotRead :
      (s : State) (j : ℕ) (u : Task) (p : Progress)
      → get_elem? s.goroutines j ≡ some (record { task = u; progress = p })
      → HasNotRead i t s
      → HasNotRead i t (on_socket_closed s j u p)
  closed-HasNotRead s j u running e h =
      if-HasNotRead (socket_gone s.goroutines u) (finished s j u) s
        (λ gone.
          let none_gone = socket_gone-waits s.goroutines t w in
          let another : record { task = t; progress = h.progress }
              ≢ record { task = u; progress = running } =
            λ d.
              let gone_not : socket_gone s.goroutines u ≡ false =
                subst (λ v. socket_gone s.goroutines v ≡ false) (ap (λ g. g.task) d) none_gone in
              ground (arith, gone, gone_not) in
          finished-HasNotRead s j u
            (apart s j (record { task = u; progress = running }) e h another) h)
        (λ c. h)
  closed-HasNotRead s j u holding e h = h
  closed-HasNotRead s j u stuck e h = h
  closed-HasNotRead s j u ended e h = h

  pub tick-HasNotRead :
      (s : State) (j : ℕ) (u : Task) (p : Progress)
      → HasNotRead i t s
      → HasNotRead i t (on_tick s j u p)
  tick-HasNotRead s j u p h =
      if-HasNotRead (is_status_loop u) (next_pass s j p) s (λ l. pass-HasNotRead s j p h) (λ l. h)
