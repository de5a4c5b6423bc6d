-- ===== src/NavMap/Slam.antt =====
-- pkg/navmap/navmap.go: the position log, parseSlamLine and watchSlamLog with positionsAppend and
-- positionsEmpty, and LatestPositionsMap. `Floats` is strconv, and Go's float64 (`F`) and float32
-- (`G`) arithmetic; a line is the list of its bytes.
pub mod Log
pub mod Lines
pub mod Tests
use rocklet.Base.{
  ℕ, ◌+◌, List, [], ◌∷◌, ◌++◌, Option, none, some, Bool, true, false, ◌||◌, ◌==◌, bytes_eq,
  if◌then◌else◌, Outcome, ok, err, panic, ◌>>=◌, map,
}
use rocklet.Base.Int.{ℤ, pos}
use rocklet.Base.Text.{codes}
use rocklet.NavMap.RobotDb.{Map, Position}

pub record Floats (F G : Type 0) : Type 0 where
  pub parse_float : List ℕ → Option F
  pub parse_int : List ℕ → Option ℤ
  pub zero : F
  pub twenty : F
  pub times : F → F → F
  pub to_float32 : F → G
  pub of_uint32 : ℕ → G
  pub plus : G → G → G
  pub minus : G → G → G
  pub equal : G → G → Bool

pub record SlamLine (F : Type 0) : Type 0 where
  pub command : List ℕ
  pub x : F
  pub y : F
  pub angle : F
  pub int : ℤ
  pub timestamp : F

-- strings.TrimRight with a cutset of one byte.
unfoldable pub trim_right : ℕ → List ℕ → List ℕ
trim_right b [] = []
trim_right b (x ∷ xs) = elim (trim_right b xs) [
  | [] ↦ if x == b then [] else x ∷ []
  | y ∷ ys ↦ x ∷ y ∷ ys
]

abbrev pub add_first : ℕ → List (List ℕ) → List (List ℕ)
add_first x [] = (x ∷ []) ∷ []
add_first x (p ∷ ps) = (x ∷ p) ∷ ps

-- strings.Split at one byte.
unfoldable pub split : ℕ → List ℕ → List (List ℕ)
split sep [] = [] ∷ []
split sep (x ∷ xs) = let rest = split sep xs in if x == sep then [] ∷ rest else add_first x rest

abbrev pub command_estimate : List ℕ
command_estimate = codes "estimate"

abbrev pub command_set_pose : List ℕ
command_set_pose = codes "set_pose"

abbrev pub command_load : List ℕ
command_load = codes "load"

abbrev pub command_reset : List ℕ
command_reset = codes "reset"

abbrev pub and_then : {A B : Type 0} → Option A → (A → Option B) → Option B
and_then none f = none
and_then (some a) f = f a

abbrev pub or_else : {A : Type 0} → Option A → A → A
or_else none d = d
or_else (some a) d = a

module _ {F G : Type 0} (fl : Floats F G) where
  -- The three numbers of a pose, if there are as many parts.
  unfoldable pub read_pose : SlamLine F → List (List ℕ) → Option (SlamLine F)
  read_pose l (x ∷ y ∷ angle ∷ rest) = and_then (fl.parse_float x) λ x'.
      and_then (fl.parse_float y)
        λ y'. and_then (fl.parse_float angle) λ a. some (record l { x = x'; y = y'; angle = a })
  read_pose l args = some l

  unfoldable pub read_load : SlamLine F → List (List ℕ) → Option (SlamLine F)
  read_load l (n ∷ rest) = and_then (fl.parse_int n) λ i. some (record l { int = i })
  read_load l [] = some l

  unfoldable pub line_of_parts : List (List ℕ) → Option (SlamLine F)
  unfolding read_pose read_load
  line_of_parts (time ∷ command ∷ args) =
      let l : SlamLine F = record {
        command = command;
        x = fl.zero;
        y = fl.zero;
        angle = fl.zero;
        int = pos 0;
        timestamp = or_else (fl.parse_float time) fl.zero;
      } in
      and_then
        (if bytes_eq command command_estimate || bytes_eq command command_set_pose
          then read_pose l args
          else some l)
        (λ m. if bytes_eq command command_load then read_load m args else some m)
  line_of_parts parts = none

  -- parseSlamLine; `none` is nil.
  unfoldable pub parse_slam_line : List ℕ → Option (SlamLine F)
  unfolding split trim_right line_of_parts
  parse_slam_line input = line_of_parts (split 32 (trim_right 10 input))

  -- reflect.DeepEqual on two positions.
  abbrev pub same_position : Position G → Position G → Bool
  same_position p q = if fl.equal p.x q.x then fl.equal p.y q.y else false

  unfoldable pub is_last : List (Position G) → Position G → Bool
  is_last [] p = false
  is_last (q ∷ []) p = same_position q p
  is_last (q ∷ r ∷ rest) p = is_last (r ∷ rest) p

  unfoldable pub positions_append : List (Position G) → Position G → List (Position G)
  unfolding is_last
  positions_append ps p = if is_last ps p then ps else ps ++ p ∷ []

  abbrev pub position_of : SlamLine F → Position G
  position_of l = record {
    x = fl.plus (fl.to_float32 (fl.times l.x fl.twenty)) (fl.of_uint32 512);
    y =
        fl.minus (fl.of_uint32 1024)
          (fl.plus (fl.to_float32 (fl.times l.y fl.twenty)) (fl.of_uint32 512));
  }

  -- The body of the loop of watchSlamLog, on what parseSlamLine returns: a nil pointer is
  -- dereferenced.
  unfoldable pub handle_line :
      List (Position G) → Option (SlamLine F) → Outcome Unit (List (Position G))
  unfolding positions_append
  handle_line ps none = panic
  handle_line ps (some l) =
      let moved =
        if bytes_eq l.command command_estimate then positions_append ps (position_of l) else ps in
      ok (if bytes_eq l.command command_reset then [] else moved)

  unfoldable pub watch_slam_log :
      List (Position G) → List (List ℕ) → Outcome Unit (List (Position G))
  unfolding handle_line parse_slam_line
  watch_slam_log ps [] = ok ps
  watch_slam_log ps (line ∷ lines) =
      handle_line ps (parse_slam_line line) >>= λ qs. watch_slam_log qs lines

  abbrev pub shift : Map → Position G → Position G
  shift m p = record {
    x = fl.minus p.x (fl.of_uint32 m.left);
    y = fl.minus p.y (fl.of_uint32 m.top);
  }

  -- The loop over the positions, with the charger found so far.
  unfoldable pub convert_positions :
      Map → Option (Position G) → List (Position G) → Option (Position G) × List (Position G)
  convert_positions m charger [] = (charger, [])
  convert_positions m charger (p ∷ ps) =
      let (c, rest) = convert_positions m (some (or_else charger (shift m p))) ps in
      (c, shift m p ∷ rest)

-- What LatestPositionsMap reports.
pub data MapError : Type 0 where
  no_image : MapError
  no_kubernetes_map : MapError

module _ {F G : Type 0} (fl : Floats F G) where
  -- LatestPositionsMap; the first argument is the latest map with its kubernetesMap.
  unfoldable pub latest_positions_map :
      Option (Option Map)
      → List (Position G)
      → Outcome MapError (List (Position G) × Map × Option (Position G))
  unfolding convert_positions
  latest_positions_map none ps = err no_image
  latest_positions_map (some none) ps = err no_kubernetes_map
  latest_positions_map (some (some m)) ps =
      let (charger, shifted) = convert_positions fl m none ps in ok (shifted, m, charger)
