-- ===== src/NavMap/Slam/Log.antt =====
-- watchSlamLog and LatestPositionsMap of pkg/navmap/navmap.go: what the list of positions holds.
use rocklet.Base.{
  ℕ, ◌≡◌, ◌↔◌, inl, inr, List, [], ◌∷◌, ◌++◌, Option, none, some, Bool, true, false, bytes_eq,
  bytes_eq_self, if◌then◌else◌, Outcome, ok, err, panic, ◌>>=◌, refl, ap, arith, Bool-cases,
  Option-cases, map,
}
use mathlib.Core.Path.{subst}
use rocklet.NavMap.RobotDb.{Map, Position}
use rocklet.NavMap.Slam.{
  Floats, SlamLine, same_position, is_last, positions_append, position_of, handle_line,
  watch_slam_log, parse_slam_line, command_estimate, command_reset, shift, convert_positions,
  latest_positions_map,
}

module _ {F G : Type 0} (fl : Floats F G) where
  -- No position repeats the one before.
  abbrev pub Moves : List (Position G) → Type 0
  Moves [] = Unit
  Moves (p ∷ []) = Unit
  Moves (p ∷ q ∷ rest) = (same_position fl p q ≡ false) × Moves (q ∷ rest)

  Moves-snoc :
      (ps : List (Position G)) (p : Position G)
      → Moves ps
      → is_last fl ps p ≡ false
      → Moves (ps ++ p ∷ [])
  unfolding is_last
  Moves-snoc [] p h e = tt
  Moves-snoc (q ∷ []) p h e = (e, tt)
  Moves-snoc (q ∷ r ∷ rest) p h e = (h.0, Moves-snoc (r ∷ rest) p h.1 e)

  Moves-append :
      (ps : List (Position G)) (p : Position G) → Moves ps → Moves (positions_append fl ps p)
  unfolding positions_append
  Moves-append ps p h = elim (Bool-cases (is_last fl ps p)) [
    | inl same ↦ rw same h
    | inr other ↦ rw other (Moves-snoc ps p h other)
  ]

  Moves-if :
      (b : Bool) (ps qs : List (Position G)) → Moves ps → Moves qs → Moves (if b then ps else qs)
  Moves-if true ps qs h k = h
  Moves-if false ps qs h k = k

  -- What an Outcome returns, if it returns.
  abbrev Keeps : Outcome Unit (List (Position G)) → Type 0
  Keeps (ok ps) = Moves ps
  Keeps _ = Unit

  handle_line-Keeps :
      (ps : List (Position G)) (l : Option (SlamLine F)) → Moves ps → Keeps (handle_line fl ps l)
  unfolding handle_line
  handle_line-Keeps ps none h = tt
  handle_line-Keeps ps (some l) h =
      Moves-if (bytes_eq l.command command_reset) [] _ tt (
        Moves-if (bytes_eq l.command command_estimate) _ ps (Moves-append ps (position_of fl l) h)
          h)

  Keeps-bind :
      (r : Outcome Unit (List (Position G)))
      (f : List (Position G) → Outcome Unit (List (Position G)))
      → Keeps r
      → ((qs : List (Position G)) → Moves qs → Keeps (f qs))
      → Keeps (r >>= f)
  Keeps-bind (ok qs) f k h = h qs k
  Keeps-bind (err e) f k h = tt
  Keeps-bind panic f k h = tt

  watch-Keeps :
      (lines : List (List ℕ)) (ps : List (Position G))
      → Moves ps
      → Keeps (watch_slam_log fl ps lines)
  unfolding watch_slam_log
  watch-Keeps [] ps h = h
  watch-Keeps (line ∷ lines) ps h =
      Keeps-bind _ _ (handle_line-Keeps ps (parse_slam_line fl line) h)
        (λ qs k. watch-Keeps lines qs k)

  -- Whatever lines the log has, as long as the watcher does not crash it keeps a list in which no
  -- position repeats the one before.
  pub watch_slam_log-Moves :
      (lines : List (List ℕ)) (ps qs : List (Position G))
      → Moves ps
      → watch_slam_log fl ps lines ≡ ok qs
      → Moves qs
  watch_slam_log-Moves lines ps qs h e = subst Keeps e (watch-Keeps lines ps h)

  abbrev is_line : Option (SlamLine F) → Bool
  is_line none = false
  is_line (some l) = true

  -- Whether every line of a log is understood.
  abbrev pub understood : List (List ℕ) → Bool
  understood [] = true
  understood (line ∷ lines) = if is_line (parse_slam_line fl line) then understood lines else false

  -- The watcher panics exactly on the logs with a line that parseSlamLine refuses.
  pub watch_slam_log-panic :
      (lines : List (List ℕ)) (ps : List (Position G))
      → (watch_slam_log fl ps lines ≡ panic) ↔ (understood lines ≡ false)
  unfolding watch_slam_log handle_line
  watch_slam_log-panic [] ps = ground arith
  watch_slam_log-panic (line ∷ lines) ps = elim (Option-cases (parse_slam_line fl line)) [
    | inl refused ↦ rw refused (ground arith)
    | inr (l, read) ↦ rw read (watch_slam_log-panic lines _)
  ]

  -- What the log says before a reset is forgotten.
  pub watch_slam_log-reset :
      (before after : List (List ℕ)) (line : List ℕ) (l : SlamLine F) (ps : List (Position G))
      → understood before ≡ true
      → parse_slam_line fl line ≡ some l
      → l.command ≡ command_reset
      → watch_slam_log fl ps (before ++ line ∷ after) ≡ watch_slam_log fl [] after
  unfolding watch_slam_log handle_line
  watch_slam_log-reset [] after line l ps u read reset =
      rw (read, reset, bytes_eq_self command_reset) refl
  watch_slam_log-reset (b ∷ before) after line l ps u read reset =
      elim (Option-cases (parse_slam_line fl b)) [
        | inl refused ↦ absurd (ground (arith, refused))
        | inr (k, known) ↦
            rw known
              (watch_slam_log-reset before after line l _ (ground (arith, u, known)) read reset)
      ]

  abbrev pub first : List (Position G) → Option (Position G)
  first [] = none
  first (p ∷ ps) = some p

  convert_positions_lem :
      (m : Map) (ps : List (Position G)) (c : Option (Position G))
      → (convert_positions fl m c ps).1 ≡ map (shift fl m) ps
  unfolding convert_positions
  convert_positions_lem m [] c = refl
  convert_positions_lem m (p ∷ ps) c = ap (λ l. shift fl m p ∷ l) (convert_positions_lem m ps _)

  charger_kept :
      (m : Map) (c : Position G) (ps : List (Position G))
      → (convert_positions fl m (some c) ps).0 ≡ some c
  unfolding convert_positions
  charger_kept m c [] = refl
  charger_kept m c (p ∷ ps) = charger_kept m c ps

  -- LatestPositionsMap with a map shifts every position by the map's corner, and takes the first
  -- of the shifted positions for the charger, if there is one.
  pub latest_positions_map_lem :
      (m : Map) (ps : List (Position G))
      → latest_positions_map fl (some (some m)) ps
        ≡ ok (map (shift fl m) ps, m, first (map (shift fl m) ps))
  unfolding latest_positions_map convert_positions
  latest_positions_map_lem m [] = refl
  latest_positions_map_lem m (p ∷ ps) = rw (convert_positions_lem m ps _, charger_kept m _ ps) refl
