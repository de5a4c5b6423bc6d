-- ===== src/NavMap/Cleanings/Listed.antt =====
-- ListCleanings of pkg/navmap/robotdb.go: what it lists, on any database.
use rocklet.Base.{
  ℕ, ◌≡◌, sym, ◌∙◌, map, ◌⊎◌, List, [], ◌∷◌, Option, none, some, Bool-cases, inl, inr,
  if◌then◌else◌, refl, ap, arith, Outcome, ok, err, ◌>>=◌, get_elem?,
}
use rocklet.Base.Assoc.{Assoc, lookup}
use rocklet.Base.Int.{ℤ, int_equality}
use rocklet.NavMap.RobotDb.{Arith, Images, convert_map}
use rocklet.NavMap.Cleanings.{
  Record, MapRow, Cleaning, Database, Error, open_failed, query_failed, scan_failed, gzip_failed,
  or_error, scan_maps, convert_found, convert_at, list_cleanings, set_elem, update,
}
use rocklet.NavMap.Cleanings.Calls.{bind_ext, bind_ok, base, update-base, map-set_elem, or_error-ok}
use rocklet.NavMap.Cleanings.Index.{
  last_index, last_index-set_elem, Agrees, all_rows, fresh, scan_records_cases,
}

module _ {F : Type 0} (ar : Arith F) (images : Images) (gunzip : List ℕ → Option (List ℕ))
    (seconds : ℤ → List ℕ) (node_name : List ℕ) where
  abbrev converted : List (Cleaning F) → List ℕ → Option ℕ → Outcome Error (List (Cleaning F))
  converted = convert_at ar images gunzip seconds node_name

  abbrev attached :
      (List (Cleaning F) → ℤ → Option ℕ)
      → List (Option MapRow)
      → List (Cleaning F)
      → Outcome Error (List (Cleaning F))
  attached = scan_maps ar images gunzip seconds node_name

  convert_at_ok :
      (cs next : List (Cleaning F)) (reader : List ℕ) (o : Option ℕ)
      → converted cs reader o ≡ ok next
      → (next ≡ cs)
        ⊎ ((i : ℕ) × (c : Cleaning F) × (d : Cleaning F) × (get_elem? cs i ≡ some c)
            × (base d ≡ base c)
            × (next ≡ set_elem cs i d))
  unfolding convert_at convert_found
  convert_at_ok cs next reader none e = inl (cc e)
  convert_at_ok cs next reader (some i) e = inr (found (get_elem? cs i) refl e)
    where
      found :
          (o : Option (Cleaning F))
          → get_elem? cs i ≡ o
          → convert_found ar images gunzip seconds node_name cs reader i o ≡ ok next
          → (i : ℕ) × (c : Cleaning F) × (d : Cleaning F) × (get_elem? cs i ≡ some c)
            × (base d ≡ base c)
            × (next ≡ set_elem cs i d)
      found none g h = ground (arith, h)
      found (some c) g h =
          let (d, updated, stored) =
            bind_ok (update c (convert_map ar images c.map reader)) _ next h in
          (i, c, d, g, update-base c d _ updated, cc stored)

  -- One map changes the map, the path and the charger of one cleaning.
  convert_at-base :
      (cs next : List (Cleaning F)) (reader : List ℕ) (o : Option ℕ)
      → converted cs reader o ≡ ok next
      → map base next ≡ map base cs
  convert_at-base cs next reader o e = elim (convert_at_ok cs next reader o e) [
    | inl same ↦ rw same refl
    | inr (i, c, d, g, b, stored) ↦ rw stored (map-set_elem cs i c d g b)
  ]

  convert_at-last_index :
      (cs next : List (Cleaning F)) (reader : List ℕ) (o : Option ℕ) (begin : ℤ)
      → converted cs reader o ≡ ok next
      → last_index next 0 begin ≡ last_index cs 0 begin
  convert_at-last_index cs next reader o begin e = elim (convert_at_ok cs next reader o e) [
    | inl same ↦ rw same refl
    | inr (i, c, d, g, b, stored) ↦
        rw stored (last_index-set_elem cs i c d 0 begin g (ap (λ y. y.begin_time) b))
  ]

  scan_maps-base :
      (find : List (Cleaning F) → ℤ → Option ℕ) (rows : List (Option MapRow))
      (cs next : List (Cleaning F))
      → attached find rows cs ≡ ok next
      → map base next ≡ map base cs
  unfolding scan_maps
  scan_maps-base find [] cs next e = ap (map base) (cc e)
  scan_maps-base find (none ∷ rows) cs next e = ground (arith, e)
  scan_maps-base find (some m ∷ rows) cs next e =
      let (reader, opened, rest) = bind_ok (or_error (gunzip m.map_data) gzip_failed) _ next e in
      let (middle, first, more) = bind_ok (converted cs reader (find cs m.begin)) _ next rest in
      scan_maps-base find rows middle next more
      ∙ convert_at-base cs middle reader (find cs m.begin) first

  -- The index may be replaced by the search for the last cleaning.
  scan_maps-last_index :
      (index : Assoc ℤ ℕ) (rows : List (Option MapRow)) (cs : List (Cleaning F))
      → Agrees cs index
      → attached (λ c begin. lookup begin index) rows cs
        ≡ attached (λ c begin. last_index c 0 begin) rows cs
  unfolding scan_maps
  scan_maps-last_index index [] cs h = refl
  scan_maps-last_index index (none ∷ rows) cs h = refl
  scan_maps-last_index index (some m ∷ rows) cs h = rw (h m.begin) (
      bind_ext (or_error (gunzip m.map_data) gzip_failed) _ _ (λ reader opened.
        bind_ext (converted cs reader (last_index cs 0 m.begin)) _ _ (λ next e.
          scan_maps-last_index index rows next (λ begin.
            h begin
            ∙ sym (convert_at-last_index cs next reader (last_index cs 0 m.begin) begin e)))))

  -- ListCleanings without its index: a cleaning for each record, and then each map in turn
  -- converted into the last cleaning that has its begin, if there is one.
  abbrev pub listed : Database → Outcome Error (List (Cleaning F))
  listed db =
      if db.opens
      then (or_error db.cleanrecords query_failed >>= λ records.
          or_error (all_rows records) scan_failed >>= λ rs.
          or_error db.cleanmaps query_failed >>= λ maps.
          attached (λ cs begin. last_index cs 0 begin) maps
            (map (fresh ar images gunzip seconds node_name) rs))
      else err open_failed

  list_cleanings_lem :
      (db : Database) → list_cleanings ar images gunzip seconds node_name db ≡ listed db
  unfolding list_cleanings lookup
  list_cleanings_lem db = elim (Bool-cases db.opens) [
    | inl opened ↦ rw opened (
        bind_ext (or_error db.cleanrecords query_failed) _ _ (λ records e.
          elim (scan_records_cases ar images gunzip seconds node_name records [] []
            (λ begin. refl)) [
              | inl (bad, failed) ↦ rw (failed, bad) refl
              | inr (rs, ix, good, done, agrees) ↦
                  rw (done, good)
                    (bind_ext (or_error db.cleanmaps query_failed) _ _ (λ maps f.
                      scan_maps-last_index ix maps
                        (map (fresh ar images gunzip seconds node_name) rs) agrees))
            ]))
    | inr closed ↦ rw closed refl
  ]

  fresh-base :
      (rs : List Record)
      → map base (map (fresh ar images gunzip seconds node_name) rs)
        ≡ map (fresh ar images gunzip seconds node_name) rs
  fresh-base [] = refl
  fresh-base (r ∷ rs) = ap (λ cs. fresh ar images gunzip seconds node_name r ∷ cs) (fresh-base rs)

  -- What ListCleanings returns without an error is a cleaning for each record, in their order,
  -- with the record's name, times and numbers; only the maps, paths and chargers are of the second
  -- table.
  pub list_cleanings-base :
      (db : Database) (cs : List (Cleaning F))
      → list_cleanings ar images gunzip seconds node_name db ≡ ok cs
      → (rows : List (Option Record)) × (rs : List Record) × (db.cleanrecords ≡ some rows)
        × (all_rows rows ≡ some rs)
        × (map base cs ≡ map (fresh ar images gunzip seconds node_name) rs)
  list_cleanings-base db cs e = elim (Bool-cases db.opens) [
    | inl opened ↦
        let e' : listed db ≡ ok cs = sym (list_cleanings_lem db) ∙ e in
        let (rows, queried, after_query) =
          bind_ok (or_error db.cleanrecords query_failed) _ cs (rw opened at e') in
        let (rs, every, after_scan) =
          bind_ok (or_error (all_rows rows) scan_failed) _ cs after_query in
        let (maps, queried_too, after_maps) =
          bind_ok (or_error db.cleanmaps query_failed) _ cs after_scan in
        (
          rows,
          rs,
          or_error-ok db.cleanrecords query_failed rows queried,
          or_error-ok (all_rows rows) scan_failed rs every,
          scan_maps-base _ maps _ cs after_maps ∙ fresh-base rs,
        )
    | inr closed ↦ ground (arith, closed, sym (list_cleanings_lem db) ∙ e)
  ]
