-- ===== src/NavMap/Slam/Lines.antt =====
-- parseSlamLine of pkg/navmap/navmap.go on the lines that the robot writes: words with a space
-- between two of them and a newline at the end.
use mathlib.Core.List.{append-nil}
use rocklet.Base.{
  ℕ, ◌≡◌, ◌≢◌, List, [], ◌∷◌, ◌++◌, true, false, ◌⊎◌, ==_ne, refl, ap, arith, All, ◌∙◌,
}
use rocklet.NavMap.RobotDb.{Position}
use rocklet.NavMap.Slam.{Floats, trim_right, split, line_of_parts, parse_slam_line}

-- A word has no space and no newline.
abbrev pub IsWord : List ℕ → Type 0
IsWord = All (λ b. (b ≢ 32) × (b ≢ 10))

-- The words of a line, a space before each, after the first.
abbrev pub spaced : List (List ℕ) → List ℕ
spaced [] = []
spaced (w ∷ ws) = 32 ∷ (w ++ spaced ws)

-- A line of the log.
abbrev pub render : List ℕ → List (List ℕ) → List ℕ
render w ws = (w ++ spaced ws) ++ 10 ∷ []

split-word : (w rest : List ℕ) → IsWord w → split 32 (w ++ 32 ∷ rest) ≡ w ∷ split 32 rest
unfolding split
split-word [] rest h = refl
split-word (x ∷ w) rest h = rw (==_ne x 32 h.0.0, split-word w rest h.1) refl

split-last : (w : List ℕ) → IsWord w → split 32 w ≡ w ∷ []
unfolding split
split-last [] h = refl
split-last (x ∷ w) h = rw (==_ne x 32 h.0.0, split-last w h.1) refl

split-spaced :
    (w : List ℕ) (ws : List (List ℕ))
    → IsWord w
    → All IsWord ws
    → split 32 (w ++ spaced ws) ≡ w ∷ ws
split-spaced w [] h hs = ap (split 32) (append-nil w) ∙ split-last w h
split-spaced w (v ∷ ws) h hs =
    split-word w (v ++ spaced ws) h ∙ ap (λ l. w ∷ l) (split-spaced v ws hs.0 hs.1)

trim-newline : (xs : List ℕ) → All (λ b. b ≢ 10) xs → trim_right 10 (xs ++ 10 ∷ []) ≡ xs
unfolding trim_right
trim-newline [] h = refl
trim-newline (x ∷ []) h = rw (==_ne x 10 h.0) refl
trim-newline (x ∷ y ∷ xs) h = rw (trim-newline (y ∷ xs) h.1) refl

All-word : (w rest : List ℕ) → IsWord w → All (λ b. b ≢ 10) rest → All (λ b. b ≢ 10) (w ++ rest)
All-word [] rest h k = k
All-word (x ∷ w) rest h k = (h.0.1, All-word w rest h.1 k)

All-spaced : (ws : List (List ℕ)) → All IsWord ws → All (λ b. b ≢ 10) (spaced ws)
All-spaced [] h = tt
All-spaced (w ∷ ws) h =
    ((λ e. absurd (ground (arith, e))), All-word w (spaced ws) h.0 (All-spaced ws h.1))

module _ {F G : Type 0} (fl : Floats F G) where
  -- A line is taken apart into its words.
  pub parse_slam_line-render :
      (w : List ℕ) (ws : List (List ℕ))
      → IsWord w
      → All IsWord ws
      → parse_slam_line fl (render w ws) ≡ line_of_parts fl (w ∷ ws)
  unfolding parse_slam_line
  parse_slam_line-render w ws h hs =
      rw
        (
          trim-newline (w ++ spaced ws) (All-word w (spaced ws) h (All-spaced ws hs)),
          split-spaced w ws h hs,
        )
        refl

  -- The position of an estimate: its numbers in units of 1/20, moved by 512, and y turned over.
  abbrev pub estimated : F → F → Position G
  estimated x y = record {
    x = fl.plus (fl.to_float32 (fl.times x fl.twenty)) (fl.of_uint32 512);
    y =
        fl.minus (fl.of_uint32 1024)
          (fl.plus (fl.to_float32 (fl.times y fl.twenty)) (fl.of_uint32 512));
  }

  -- The last position has these coordinates.
  abbrev pub EndsWith : List (Position G) → Position G → Type 0
  EndsWith [] p = ⊥
  EndsWith (q ∷ []) p = (fl.equal q.x p.x ≡ true) × (fl.equal q.y p.y ≡ true)
  EndsWith (q ∷ r ∷ rest) p = EndsWith (r ∷ rest) p

  -- There is no last position, or it has other coordinates.
  abbrev pub EndsElsewhere : List (Position G) → Position G → Type 0
  EndsElsewhere [] p = Unit
  EndsElsewhere (q ∷ []) p = (fl.equal q.x p.x ≡ false) ⊎ (fl.equal q.y p.y ≡ false)
  EndsElsewhere (q ∷ r ∷ rest) p = EndsElsewhere (r ∷ rest) p
