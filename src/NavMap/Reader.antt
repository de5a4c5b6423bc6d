-- ===== src/NavMap/Reader.antt =====
-- encoding/binary.Read and io.CopyN on a reader that holds the bytes that are left.
use rocklet.Base.{
  length-take, length-drop, ℕ, suc, ◌+◌, ◌≡◌, List, [], ◌∷◌, ◌++◌, Outcome, ok, err, ltb, le→ltb,
  length, take, drop, if◌then◌else◌, arith, length-append, take-append_eq, drop-append_eq,
}

pub data Error : Type 0 where
  eof : Error  -- io.EOF
  unexpected_eof : Error  -- io.ErrUnexpectedEOF
  encode_failed : Error  -- unable to encode image to png
  no_map : Error  -- no map found
  bad_gzip : Error  -- gzip.NewReader fails

-- The bytes of a value of `n` bytes, and what is left: io.EOF if nothing is left at all.
unfoldable pub read_full : ℕ → List ℕ → Outcome Error (List ℕ × List ℕ)
read_full n [] = if ltb 0 n then err eof else ok ([], [])
read_full n (b ∷ bs) =
    if ltb (length (b ∷ bs)) n then err unexpected_eof else ok (take n (b ∷ bs), drop n (b ∷ bs))

-- A value of `n` bytes that stands in front is read.
pub read_full-append :
    (n : ℕ) (xs rest : List ℕ) → length xs ≡ suc n → read_full (suc n) (xs ++ rest) ≡ ok (xs, rest)
unfolding read_full
read_full-append n [] rest h = absurd (omega arith)
read_full-append n (x ∷ xs) rest h = rw (
  le→ltb (length (x ∷ (xs ++ rest))) (suc n) (omega (arith, length-append xs rest)),
  take-append_eq n xs rest (omega arith),
  drop-append_eq n xs rest (omega arith),
)

-- What was read and what is left make up the input.
pub length-read_full :
    (n : ℕ) (bs xs rest : List ℕ)
    → read_full (suc n) bs ≡ ok (xs, rest)
    → (length xs ≡ suc n) × (length rest + suc n ≡ length bs)
unfolding read_full
length-read_full n [] xs rest h = ground arith
length-read_full n (b ∷ bs) xs rest h =
    ground (arith, length-take (suc n) (b ∷ bs), length-drop (suc n) (b ∷ bs))
