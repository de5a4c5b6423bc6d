-- ===== src/NavMap/Cleanings/Index.antt =====
-- ListCleanings of pkg/navmap/robotdb.go: the index by the begin of a cleaning.
use mathlib.Core.List.{append-nil, append_assoc}
use rocklet.Base.{
  ℕ, zero, suc, ◌+◌, ◌≡◌, sym, ◌∙◌, map, ◌⊎◌, List, [], ◌∷◌, ◌++◌, Option, none, some, Bool,
  Bool-cases, inl, inr, ◌<◌, true, false, if◌then◌else◌, refl, ap, arith, length, Outcome, ok, err,
  get_elem?,
}
use rocklet.Base.Assoc.{Assoc, lookup, insert, lookup-insert}
use rocklet.Base.Int.{ℤ, int_eq, int_equality}
use rocklet.NavMap.RobotDb.{Arith, Images}
use rocklet.NavMap.Cleanings.{
  Record, Cleaning, Error, scan_failed, new_cleaning, scan_records, set_elem,
}

abbrev or_at : Option ℕ → Bool → ℕ → Option ℕ
or_at (some j) b i = some j
or_at none b i = if b then some i else none

-- The position, counted from `i`, of the last cleaning with this begin.
abbrev pub last_index : {F : Type 0} → List (Cleaning F) → ℕ → ℤ → Option ℕ
last_index [] i begin = none
last_index (c ∷ cs) i begin = or_at (last_index cs (suc i) begin) (int_eq c.begin_time begin) i

last_index-append :
    {F : Type 0} (cs : List (Cleaning F)) (c : Cleaning F) (i : ℕ) (begin : ℤ)
    → last_index (cs ++ c ∷ []) i begin
      ≡ (if int_eq c.begin_time begin then some (i + length cs) else last_index cs i begin)
last_index-append [] c i begin = ground arith
last_index-append (d ∷ cs) c i begin = elim (Bool-cases (int_eq c.begin_time begin)) [
  | inl same ↦ rw (last_index-append cs c (suc i) begin, same) (ap some (omega arith))
  | inr other ↦ rw (last_index-append cs c (suc i) begin, other) refl
]

-- A store that keeps the begin.
pub last_index-set_elem :
    {F : Type 0} (cs : List (Cleaning F)) (n : ℕ) (c d : Cleaning F) (i : ℕ) (begin : ℤ)
    → get_elem? cs n ≡ some c
    → d.begin_time ≡ c.begin_time
    → last_index (set_elem cs n d) i begin ≡ last_index cs i begin
unfolding set_elem
last_index-set_elem [] n c d i begin g e = refl
last_index-set_elem (x ∷ cs) zero c d i begin g e =
    let first : x ≡ c = cc g in
    let same : d.begin_time ≡ x.begin_time = e ∙ ap (λ y. y.begin_time) (sym first) in rw same refl
last_index-set_elem (x ∷ cs) (suc n) c d i begin g e =
    rw (last_index-set_elem cs n c d (suc i) begin g e) refl

or_at-lt :
    (o : Option ℕ) (b : Bool) (i j n : ℕ)
    → ((k : ℕ) → o ≡ some k → k < suc i + n)
    → or_at o b i ≡ some j
    → j < i + suc n
or_at-lt none true i j n h e = ground arith
or_at-lt none false i j n h e = ground arith
or_at-lt (some k) b i j n h e = ground (arith, h k refl)

pub last_index-lt :
    {F : Type 0} (cs : List (Cleaning F)) (i j : ℕ) (begin : ℤ)
    → last_index cs i begin ≡ some j
    → j < i + length cs
last_index-lt [] i j begin e = ground arith
last_index-lt (c ∷ cs) i j begin e =
    or_at-lt (last_index cs (suc i) begin) (int_eq c.begin_time begin) i j (length cs)
      (λ k there. last_index-lt cs (suc i) k begin there) e

-- The index knows the last cleaning with a begin.
abbrev pub Agrees : {F : Type 0} → List (Cleaning F) → Assoc ℤ ℕ → Type 0
Agrees cs index = (begin : ℤ) → lookup begin index ≡ last_index cs 0 begin

Agrees-append :
    {F : Type 0} (cs : List (Cleaning F)) (c : Cleaning F) (index : Assoc ℤ ℕ)
    → Agrees cs index
    → Agrees (cs ++ c ∷ []) (insert c.begin_time (length cs) index)
Agrees-append cs c index h begin =
    let from_zero : 0 + length cs ≡ length cs = omega arith in
    rw
      (
        lookup-insert c.begin_time begin (length cs) index,
        last_index-append cs c 0 begin,
        h begin,
        from_zero,
      )
      refl

-- The rows, where Scan fails on none of them.
abbrev pub all_rows : {A : Type 0} → List (Option A) → Option (List A)
all_rows [] = some []
all_rows (none ∷ rows) = none
all_rows (some r ∷ rows) = elim (all_rows rows) [ none ↦ none | some rs ↦ some (r ∷ rs) ]

module _ {F : Type 0} (ar : Arith F) (images : Images) (gunzip : List ℕ → Option (List ℕ))
    (seconds : ℤ → List ℕ) (node_name : List ℕ) where
  abbrev pub fresh : Record → Cleaning F
  fresh = new_cleaning ar images gunzip seconds node_name

  abbrev pub scanned :
      List (Option Record)
      → List (Cleaning F)
      → Assoc ℤ ℕ
      → Outcome Error (List (Cleaning F) × Assoc ℤ ℕ)
  scanned = scan_records ar images gunzip seconds node_name

  -- The loop over the records ends with a cleaning for each row and an index that agrees with
  -- them.
  pub scan_records_cases :
      (rows : List (Option Record)) (cs : List (Cleaning F)) (index : Assoc ℤ ℕ)
      → Agrees cs index
      → ((all_rows rows ≡ none) × (scanned rows cs index ≡ err scan_failed))
        ⊎ ((rs : List Record) × (ix : Assoc ℤ ℕ) × (all_rows rows ≡ some rs)
            × (scanned rows cs index ≡ ok (cs ++ map fresh rs, ix))
            × Agrees (cs ++ map fresh rs) ix)
  unfolding scan_records
  scan_records_cases [] cs index h =
      inr ([], index, refl, rw (append-nil cs) refl, rw (append-nil cs) h)
  scan_records_cases (none ∷ rows) cs index h = inl (refl, refl)
  scan_records_cases (some r ∷ rows) cs index h =
      let assoc : (rs : List Record)
          → (cs ++ fresh r ∷ []) ++ map fresh rs ≡ cs ++ map fresh (r ∷ rs) =
        λ rs. append_assoc cs (fresh r ∷ []) (map fresh rs) in
      elim (scan_records_cases rows (cs ++ fresh r ∷ []) (insert r.begin (length cs) index)
        (Agrees-append cs (fresh r) index h)) [
          | inl (bad, e) ↦ inl (rw bad refl, e)
          | inr (rs, ix, good, e, agrees) ↦
              inr (r ∷ rs, ix, rw good refl, rw (assoc rs) at e, rw (assoc rs) at agrees)
        ]
