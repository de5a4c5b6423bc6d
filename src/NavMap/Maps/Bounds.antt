-- ===== src/NavMap/Maps/Bounds.antt =====
-- NewMap of pkg/navmap/navmap.go: the rectangle that is cut out of the image.
use mathlib.Core.Path.{subst}
use rocklet.Base.{
  ℕ, zero, suc, ◌+◌, ◌-◌, ◌≤◌, ◌<◌, ◌≡◌, ◌⊎◌, inl, inr, Bool, false, ◌&&◌, leb, ltb, sym, arith,
  Bool-cases,
}
use rocklet.NavMap.RobotDb.{Rgba}
use rocklet.NavMap.Maps.{
  Box, update_min_max, same_color, gray, visit, scan_row, scan, Picture, Image, used_area,
}

-- A point lies in a box, its edges included.
pub record Inside (b : Box) (x y : ℕ) : Type 0 where
  pub right_of : b.min_x ≤ x
  pub left_of : x ≤ b.max_x
  pub below : b.min_y ≤ y
  pub above : y ≤ b.max_y

module _ (at : ℕ → ℕ → Rgba) where
  abbrev pub IsUsed : ℕ → ℕ → Type 0
  IsUsed x y = same_color (at x y) gray ≡ false

  update-keeps : (b : Box) (x y u v : ℕ) → Inside b u v → Inside (update_min_max b x y) u v
  unfolding update_min_max
  update-keeps b x y u v h = ground arith

  update-Inside : (b : Box) (x y : ℕ) → Inside (update_min_max b x y) x y
  unfolding update_min_max
  update-Inside b x y = ground arith

  visit-keeps : (b : Box) (x y u v : ℕ) → Inside b u v → Inside (visit at b x y) u v
  unfolding visit
  visit-keeps b x y u v h = elim (Bool-cases (same_color (at x y) gray)) [
    | inl blank ↦ rw blank h
    | inr used ↦ rw used (update-keeps b x y u v h)
  ]

  visit-Inside : (b : Box) (x y : ℕ) → IsUsed x y → Inside (visit at b x y) x y
  unfolding visit
  visit-Inside b x y used = rw used (update-Inside b x y)

  row-keeps : (n : ℕ) (b : Box) (y x u v : ℕ) → Inside b u v → Inside (scan_row at b y x n) u v
  unfolding scan_row
  row-keeps zero b y x u v h = h
  row-keeps (suc n) b y x u v h = row-keeps n _ y (x + 1) u v (visit-keeps b x y u v h)

  row-Inside :
      (n : ℕ) (b : Box) (y x u : ℕ)
      → x ≤ u
      → u < x + n
      → IsUsed u y
      → Inside (scan_row at b y x n) u y
  unfolding scan_row
  row-Inside zero b y x u p q used = absurd (omega arith)
  row-Inside (suc n) b y x u p q used = elim (cases x u p) [
    | inl same ↦
        row-keeps n _ y (x + 1) u y
          (subst (λ z. Inside (visit at b z y) u y) (sym same) (visit-Inside b u y used))
    | inr past ↦ row-Inside n _ y (x + 1) u past (omega arith) used
  ]
    where
      cases : (a c : ℕ) → a ≤ c → (a ≡ c) ⊎ (a + 1 ≤ c)
      cases a c p = omega arith

  scan-keeps : (n : ℕ) (b : Box) (x w y u v : ℕ) → Inside b u v → Inside (scan at b x w y n) u v
  unfolding scan
  scan-keeps zero b x w y u v h = h
  scan-keeps (suc n) b x w y u v h = scan-keeps n _ x w (y + 1) u v (row-keeps w b y x u v h)

  scan-Inside :
      (n : ℕ) (b : Box) (x w y u v : ℕ)
      → x ≤ u
      → u < x + w
      → y ≤ v
      → v < y + n
      → IsUsed u v
      → Inside (scan at b x w y n) u v
  unfolding scan
  scan-Inside zero b x w y u v p q r t used = absurd (omega arith)
  scan-Inside (suc n) b x w y u v p q r t used = elim (cases y v r) [
    | inl same ↦
        scan-keeps n _ x w (y + 1) u v
          (subst (λ z. Inside (scan_row at b z x w) u v) (sym same) (row-Inside w b v x u p q used))
    | inr past ↦ scan-Inside n _ x w (y + 1) u v p q past (omega arith) used
  ]
    where
      cases : (a c : ℕ) → a ≤ c → (a ≡ c) ⊎ (a + 1 ≤ c)
      cases a c p = omega arith

  -- The right edge of a box is where the scan began, or the column of a pixel that is in use.
  Reached : ℕ → Box → Type 0
  Reached x0 b = (b.max_x ≡ x0) ⊎ ((u : ℕ) × (v : ℕ) × IsUsed u v × (u ≡ b.max_x))

-- Every pixel of the image that is not gray lies in the used area, its edges included.
pub used_area-Inside :
    (p : Picture) (u v : ℕ)
    → p.x0 ≤ u
    → u < p.x1
    → p.y0 ≤ v
    → v < p.y1
    → IsUsed p.at u v
    → Inside (used_area p) u v
unfolding used_area
used_area-Inside p u v h1 h2 h3 h4 used =
    scan-Inside p.at (p.y1 - p.y0) _ p.x0 (p.x1 - p.x0) p.y0 u v h1 (omega arith) h3 (omega arith)
      used

-- Whether a pixel is in the sub-image that NewMap keeps: the Max of an image.Rectangle is
-- exclusive.
abbrev pub in_sub_image : Image → ℕ → ℕ → Bool
in_sub_image i x y =
    (leb i.box.min_x x && ltb x i.box.max_x) && (leb i.box.min_y y && ltb y i.box.max_y)
