-- ===== src/Robot/Stop/Sound.antt =====
-- The end of the program in pkg/rockrobo/rockrobo.go: what each step of Run and of a signal keeps
-- of r.stopCh and r.waitGroup.
use rocklet.Base.{
  ℕ, ◌+◌, ◌-◌, ◌≡◌, [], ◌∷◌, some, Bool, true, false, ◌&&◌, ◌||◌, not, ◌==◌, ==_iff, if◌then◌else◌,
  get_elem?, refl, sym, ◌∙◌, arith,
}
use mathlib.Core.Path.{subst}
use rocklet.Robot.Stop.{
  Progress, running, ended, Goroutine, Main, starting, before_stop, in_stop, in_nil_stop, in_wait,
  returned, failed, State, counted, binds, start, set_progress, moved, finished, is_ended, on_main,
  on_bind_fails, on_signal, on_clear, close_channel,
}
use rocklet.Robot.Stop.Weights.{
  weight, live, live-append, live-set_progress, live-ended, counted_weight, free_weight,
}

-- The channel is closed exactly if the field is nil or is about to be set to nil; the wait group counts the goroutines with a
-- Done before them; nothing has panicked; Run waits for the group only after the channel is
-- closed, and returns only when the group is empty.
abbrev pub Passed : Bool → ℕ → Main → Type 0
Passed closed n in_wait = closed ≡ true
Passed closed n returned = (closed ≡ true) × (n ≡ 0)
Passed closed n _ = Unit

pub record Sound (s : State) : Type 0 where
  pub closed_iff : s.closed ≡ (not s.stop_ch || s.clearing)
  pub counts : s.wait_group ≡ live s.goroutines
  pub quiet : s.panicked ≡ false
  pub passed : Passed s.closed s.wait_group s.main

pub start-Sound : (kubernetes cloud : Bool) → Sound (start kubernetes cloud)
start-Sound kubernetes cloud = record {
  closed_iff = refl;
  counts = refl;
  quiet = refl;
  passed = tt;
}

pub if-Sound :
    (b : Bool) (s t : State)
    → (b ≡ true → Sound s)
    → (b ≡ false → Sound t)
    → Sound (if b then s else t)
if-Sound true s t h k = h refl
if-Sound false s t h k = k refl

Passed-later :
    (c d : Bool) (k n : ℕ) (m : Main)
    → (c ≡ true → d ≡ true)
    → (k ≡ 0 → n ≡ 0)
    → Passed c k m
    → Passed d n m
Passed-later c d k n in_wait f g h = f h
Passed-later c d k n returned f g h = (f h.0, g h.1)
Passed-later c d k n (starting ts) f g h = tt
Passed-later c d k n before_stop f g h = tt
Passed-later c d k n in_stop f g h = tt
Passed-later c d k n in_nil_stop f g h = tt
Passed-later c d k n failed f g h = tt

pub signal-Sound : (s : State) → Sound s → Sound (on_signal s)
signal-Sound s h =
    if-Sound s.clearing s _ (λ clearing. h)
      (λ idle.
        if-Sound s.stop_ch (close_channel s) s
          (λ set.
            if-Sound s.closed _ _ (λ shut. ground (arith, h.closed_iff, set, shut, idle))
              (λ open_yet. record {
                closed_iff = ground (arith, set);
                counts = h.counts;
                quiet = h.quiet;
                passed =
                    Passed-later s.closed true s.wait_group s.wait_group s.main (λ e. refl) (λ e. e)
                      h.passed;
              }))
          (λ nil. h))

pub clear-Sound : (s : State) → Sound s → Sound (on_clear s)
clear-Sound s h =
    if-Sound s.clearing _ s
      (λ clearing. record {
        closed_iff = ground (arith, h.closed_iff, clearing);
        counts = h.counts;
        quiet = h.quiet;
        passed = h.passed;
      })
      (λ idle. h)

add_one : (b : Bool) (w n : ℕ) → w ≡ n → (if b then w + 1 else w) ≡ n + (if b && true then 1 else 0)
add_one true w n e = omega (arith, e)
add_one false w n e = omega (arith, e)

pub main-Sound : (s : State) (m : Main) → s.main ≡ m → Sound s → Sound (on_main s m)
main-Sound s (starting []) e h = record {
  closed_iff = h.closed_iff;
  counts = h.counts;
  quiet = h.quiet;
  passed = tt;
}
main-Sound s (starting (t ∷ ts)) e h = record {
  closed_iff = h.closed_iff;
  counts =
      add_one (counted t) s.wait_group (live s.goroutines) h.counts
      ∙ sym (live-append s.goroutines (record { task = t; progress = running }));
  quiet = h.quiet;
  passed = tt;
}
main-Sound s before_stop e h = record {
  closed_iff = h.closed_iff;
  counts = h.counts;
  quiet = h.quiet;
  passed =
      elim s.stop_ch as (λ b. Passed s.closed s.wait_group (if b then in_stop else in_nil_stop)) [
        | true ↦ tt
        | false ↦ tt
      ];
}
main-Sound s in_stop e h =
    if-Sound s.closed _ s
      (λ shut. record {
        closed_iff = h.closed_iff;
        counts = h.counts;
        quiet = h.quiet;
        passed = shut;
      })
      (λ open_yet. h)
main-Sound s in_wait e h =
    if-Sound (s.wait_group == 0) _ s
      (λ empty. record {
        closed_iff = h.closed_iff;
        counts = h.counts;
        quiet = h.quiet;
        passed = (subst (Passed s.closed s.wait_group) e h.passed, (==_iff s.wait_group 0).0 empty);
      })
      (λ more. h)
main-Sound s in_nil_stop e h = h
main-Sound s returned e h = h
main-Sound s failed e h = h

pub bind_fails-Sound : (s : State) (m : Main) → Sound s → Sound (on_bind_fails s m)
bind_fails-Sound s (starting (t ∷ ts)) h =
    if-Sound (binds t) _ s
      (λ e. record { closed_iff = h.closed_iff; counts = h.counts; quiet = h.quiet; passed = tt })
      (λ e. h)
bind_fails-Sound s (starting []) h = h
bind_fails-Sound s before_stop h = h
bind_fails-Sound s in_stop h = h
bind_fails-Sound s in_nil_stop h = h
bind_fails-Sound s in_wait h = h
bind_fails-Sound s returned h = h
bind_fails-Sound s failed h = h

-- A goroutine that moves on and still has its Done before it, or has none.
pub moved-Sound :
    (s : State) (i : ℕ) (p : Progress) (g : Goroutine)
    → get_elem? s.goroutines i ≡ some g
    → weight (record g { progress = p }) ≡ weight g
    → Sound s
    → Sound (moved s i p)
moved-Sound s i p g e w h = record {
  closed_iff = h.closed_iff;
  counts = omega (arith, h.counts, live-set_progress s.goroutines i p g e, w);
  quiet = h.quiet;
  passed = h.passed;
}

pub finished-Sound :
    (s : State) (i : ℕ) (g : Goroutine)
    → get_elem? s.goroutines i ≡ some g
    → is_ended g.progress ≡ false
    → Sound s
    → Sound (finished s i g.task)
finished-Sound s i g e not_yet h =
    let rest = live-ended s.goroutines i g e in
    if-Sound (counted g.task) _ (moved s i ended)
      (λ c.
        let one = counted_weight g c not_yet in
        if-Sound (s.wait_group == 0) (record s { panicked = true })
          (record s {
            goroutines = set_progress s.goroutines i ended;
            wait_group = s.wait_group - 1;
          })
          (λ empty. absurd (omega (arith, (==_iff s.wait_group 0).0 empty, h.counts, rest, one)))
          (λ more. record {
            closed_iff = h.closed_iff;
            counts = omega (arith, h.counts, rest, one);
            quiet = h.quiet;
            passed =
                Passed-later s.closed s.closed s.wait_group (s.wait_group - 1) s.main (λ d. d)
                  (λ n. omega (arith, n)) h.passed;
          }))
      (λ free.
        moved-Sound s i ended g e (free_weight g ended free ∙ sym (free_weight g g.progress free))
          h)
