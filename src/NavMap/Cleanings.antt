-- ===== src/NavMap/Cleanings.antt =====
-- pkg/navmap/robotdb.go, ListCleanings: the cleaning records of the vacuum's database with their
-- maps. The pointers of `cleanings` and `indexByBegin` are positions in the slice. The rows are
-- what database/sql yields until Next is false, none where Scan fails; `gunzip` is gzip.NewReader
-- with what can be read from it up to the end of the stream; a stream that is damaged after its
-- header is left out; `seconds` the text of a time.Duration of this many seconds.
pub mod Index
pub mod Calls
pub mod Listed
mod Tests
use rocklet.Base.{
  ℕ, zero, suc, List, [], ◌∷◌, ◌++◌, Option, none, some, Bool, if◌then◌else◌, Outcome, ok, err,
  panic, ◌>>=◌, length, get_elem?,
}
use rocklet.Base.Assoc.{Assoc, lookup, insert}
use rocklet.Base.Decimal.{itoa}
use rocklet.Base.Int.{ℤ, pos, int_eq, int_equality}
use rocklet.NavMap.Reader as Reader
use rocklet.NavMap.RobotDb.{Arith, Images, Map, Position, Converted, convert_map}

-- A row of the table cleanrecords.
pub record Record : Type 0 where
  pub begin : ℤ
  pub daybegin : ℤ
  pub end : ℤ
  pub code : ℤ
  pub duration : ℤ
  pub area : ℤ
  pub errcode : ℤ
  pub complete : ℤ

-- A row of the table cleanmaps.
pub record MapRow : Type 0 where
  pub begin : ℤ
  pub daybegin : ℤ
  pub map_data : List ℕ

-- v1alpha1.Cleaning; times are Unix seconds, and a charger of none is the zero position.
pub record Cleaning (F : Type 0) : Type 0 where
  pub name : List ℕ
  pub node_name : List ℕ
  pub begin_time : ℤ
  pub end_time : ℤ
  pub day_begin_time : ℤ
  pub code : ℤ
  pub error_code : ℤ
  pub area : ℤ
  pub duration : List ℕ
  pub complete : Bool
  pub map : Option Map
  pub path : List (Position F)
  pub charger : Option (Position F)

-- What the calls of database/sql answer.
pub record Database : Type 0 where
  pub opens : Bool
  pub cleanrecords : Option (List (Option Record))
  pub cleanmaps : Option (List (Option MapRow))

pub data Error : Type 0 where
  open_failed : Error
  query_failed : Error
  scan_failed : Error
  gzip_failed : Error
  convert_failed : Reader.Error → Error

abbrev pub or_error : {A : Type 0} → Option A → Error → Outcome Error A
or_error none e = err e
or_error (some a) e = ok a

-- What the call of ConvertMap makes of its cleaning. The fuel of convert_map does not run out.
unfoldable pub update :
    {F : Type 0}
    → Cleaning F
    → Option (Outcome Reader.Error (Converted F))
    → Outcome Error (Cleaning F)
update c none = panic
update c (some (ok v)) = ok (record c {
  map = some v.image;
  path = elim v.path [ none ↦ c.path | some p ↦ p ];
  charger = elim v.charger [ none ↦ c.charger | some p ↦ some p ];
})
update c (some (err e)) = err (convert_failed e)
update c (some panic) = panic

-- A store through a pointer.
unfoldable pub set_elem : {A : Type 0} → List A → ℕ → A → List A
set_elem [] i a = []
set_elem (x ∷ xs) zero a = a ∷ xs
set_elem (x ∷ xs) (suc i) a = x ∷ set_elem xs i a

module _ {F : Type 0} (ar : Arith F) (images : Images) (gunzip : List ℕ → Option (List ℕ))
    (seconds : ℤ → List ℕ) (node_name : List ℕ) where
  abbrev pub new_cleaning : Record → Cleaning F
  new_cleaning r = record {
    name = node_name ++ (b'-' ∷ itoa r.begin);
    node_name = node_name;
    begin_time = r.begin;
    end_time = r.end;
    day_begin_time = r.daybegin;
    code = r.code;
    error_code = r.errcode;
    area = r.area;
    duration = seconds r.duration;
    complete = int_eq r.complete (pos 1);
    map = none;
    path = [];
    charger = none;
  }

  -- The loop over the records.
  unfoldable pub scan_records :
      List (Option Record)
      → List (Cleaning F)
      → Assoc ℤ ℕ
      → Outcome Error (List (Cleaning F) × Assoc ℤ ℕ)
  scan_records [] cleanings index_by_begin = ok (cleanings, index_by_begin)
  scan_records (none ∷ rows) cleanings index_by_begin = err scan_failed
  scan_records (some r ∷ rows) cleanings index_by_begin =
      scan_records rows (cleanings ++ new_cleaning r ∷ [])
        (insert r.begin (length cleanings) index_by_begin)

  -- The cleaning at `i` is converted; a position in the index is in range.
  unfoldable pub convert_found :
      List (Cleaning F) → List ℕ → ℕ → Option (Cleaning F) → Outcome Error (List (Cleaning F))
  unfolding update set_elem
  convert_found cleanings reader i none = panic
  convert_found cleanings reader i (some c) =
      update c (convert_map ar images c.map reader) >>= λ d. ok (set_elem cleanings i d)

  unfoldable pub convert_at :
      List (Cleaning F) → List ℕ → Option ℕ → Outcome Error (List (Cleaning F))
  unfolding convert_found
  convert_at cleanings reader none = ok cleanings
  convert_at cleanings reader (some i) = convert_found cleanings reader i (get_elem? cleanings i)

  -- The loop over the maps; `find` is the look up of the cleaning.
  unfoldable pub scan_maps :
      (List (Cleaning F) → ℤ → Option ℕ)
      → List (Option MapRow)
      → List (Cleaning F)
      → Outcome Error (List (Cleaning F))
  unfolding convert_at
  scan_maps find [] cleanings = ok cleanings
  scan_maps find (none ∷ rows) cleanings = err scan_failed
  scan_maps find (some m ∷ rows) cleanings = or_error (gunzip m.map_data) gzip_failed >>= λ reader.
      convert_at cleanings reader (find cleanings m.begin) >>= λ next. scan_maps find rows next

  unfoldable pub list_cleanings : Database → Outcome Error (List (Cleaning F))
  unfolding scan_records scan_maps
  list_cleanings db =
      if db.opens
      then (or_error db.cleanrecords query_failed >>= λ records. scan_records records [] [] >>= λ p.
          or_error db.cleanmaps query_failed >>= λ maps.
          scan_maps (λ cleanings begin. lookup begin p.1) maps p.0)
      else err open_failed
