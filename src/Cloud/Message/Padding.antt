-- ===== src/Cloud/Message/Padding.antt =====
-- pad and unpad of pkg/rockrobo/cloud.go.
use rocklet.Base.{
  ℕ, zero, suc, ◌+◌, ◌-◌, ◌%◌, ◌≤◌, ◌<◌, ◌≡◌, ◌⊎◌, inl, inr, List, [], ◌∷◌, ◌++◌, some, refl, ap,
  ◌∙◌, arith, length, take, replicate, get_elem?, Outcome, ok, err, panic, All, length-append,
  length-replicate, take-append_eq, get_elem?-append, get_elem?-replicate, get_elem?_of_lt, ltb,
  if◌then◌else◌, le→ltb,
}
use rocklet.Base.Bytes.{IsByte}
use rocklet.Cloud.Message.{block_size, pad, unpad, bad_padding, Error}

-- The padded text has whole blocks, and between 1 and 16 bytes more than the text.
pub pad_length :
    (src : List ℕ)
    → (length (pad src) % block_size ≡ 0)
      × (length src < length (pad src))
      × (length (pad src) ≤ length src + block_size)
unfolding pad
pad_length src = omega (
  arith,
  length-append src (replicate (16 - length src % 16) ((16 - length src % 16) % 256)),
  length-replicate (16 - length src % 16) ((16 - length src % 16) % 256),
)

All-append {ℓ κ} :
    {A : Type ℓ} (P : A → Type κ) (xs ys : List A) → All P xs → All P ys → All P (xs ++ ys)
All-append P [] ys hx hy = hy
All-append P (x ∷ xs) ys hx hy = (hx.0, All-append P xs ys hx.1 hy)

All-replicate {ℓ κ} : {A : Type ℓ} (P : A → Type κ) (n : ℕ) (a : A) → P a → All P (replicate n a)
All-replicate P zero a h = tt
All-replicate P (suc n) a h = (h, All-replicate P n a h)

pub pad-IsByte : (src : List ℕ) → All IsByte src → All IsByte (pad src)
unfolding pad
pad-IsByte src h =
    All-append IsByte src _ h (All-replicate IsByte (16 - length src % 16) _ (omega arith))

-- The last byte of a text that ends in k + 1 copies of b.
last-replicate :
    (src : List ℕ) (k b : ℕ)
    → get_elem? (src ++ replicate (suc k) b) (length (src ++ replicate (suc k) b) - 1) ≡ some b
last-replicate src k b =
    get_elem?-append src (replicate (suc k) b) _ k
      (omega (arith, length-append src (replicate (suc k) b), length-replicate (suc k) b))
    ∙ get_elem?-replicate (suc k) k b (omega arith)

unpad_at :
    (src : List ℕ) (u : ℕ)
    → get_elem? src (length src - 1) ≡ some u
    → unpad src ≡ (if ltb (length src) u then err bad_padding else ok (take (length src - u) src))
unfolding unpad
unpad_at src u h = rw (h, unpad)

-- Any text that ends in as many copies of a byte as the byte says is unpadded to what stands
-- before.
unpad-append : (src : List ℕ) (k : ℕ) → unpad (src ++ replicate (suc k) (suc k)) ≡ ok src
unpad-append src k =
    rw (unpad_at _ _ (last-replicate src k (suc k)), le→ltb _ _ bound)
      (ap ok (take-append_eq _ src (replicate (suc k) (suc k)) (omega (arith, total))))
  where
    total : length (src ++ replicate (suc k) (suc k)) ≡ length src + suc k
    total =
        omega
          (arith, length-append src (replicate (suc k) (suc k)), length-replicate (suc k) (suc k))

    bound : suc k ≤ length (src ++ replicate (suc k) (suc k))
    bound = omega (arith, total)

-- Unpadding undoes padding.
pub unpad-pad : (src : List ℕ) → unpad (pad src) ≡ ok src
unfolding pad
unpad-pad src =
    let e : 16 - length src % 16 ≡ suc (15 - length src % 16) = omega arith in
    let d : (16 - length src % 16) % 256 ≡ suc (15 - length src % 16) = omega arith in
    rw (d, e) (unpad-append src (15 - length src % 16))

-- `unpad` panics on the empty slice alone; else it refuses a last byte that is larger than the
-- length, and else it returns a prefix that is shorter by the last byte.
pub unpad_cases :
    (src : List ℕ)
    → ((src ≡ []) × (unpad src ≡ panic))
      ⊎ ((u : ℕ) × (get_elem? src (length src - 1) ≡ some u)
          × (((length src < u) × (unpad src ≡ err bad_padding))
              ⊎ ((u ≤ length src) × (unpad src ≡ ok (take (length src - u) src)))))
unfolding unpad
unpad_cases [] = inl (refl, refl)
unpad_cases (x ∷ xs) =
    let (u, at) = get_elem?_of_lt (x ∷ xs) (length (x ∷ xs) - 1) (omega arith) in
    inr (u, at, branches (length (x ∷ xs)) u (unpad (x ∷ xs)) (unpad_at (x ∷ xs) _ at))
  where
    branches :
        (n u : ℕ) (r : Outcome Error (List ℕ))
        → r ≡ (if ltb n u then err bad_padding else ok (take (n - u) (x ∷ xs)))
        → ((n < u) × (r ≡ err bad_padding)) ⊎ ((u ≤ n) × (r ≡ ok (take (n - u) (x ∷ xs))))
    branches n u r e = ground arith
