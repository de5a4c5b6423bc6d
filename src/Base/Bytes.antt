-- ===== src/Base/Bytes.antt =====
-- Go's encoding/binary on unsigned integers: big-endian and little-endian byte strings.
use rocklet.Base.Lists.{length}
use Prim.Native.Nat.{ℕ, ◌+◌, ◌*◌, ◌/◌, ◌%◌, ◌<◌}
use mathlib.Core.Path.{◌≡◌, refl}
use mathlib.Core.List.{List, [], ◌∷◌}
use native.Mathlib.Omega.{arith}

abbrev pub IsByte : ℕ → Type 0
IsByte b = b < 256

abbrev pub IsU16 : ℕ → Type 0
IsU16 n = n < 65536

abbrev pub IsU32 : ℕ → Type 0
IsU32 n = n < 4294967296

abbrev pub u16 : ℕ → ℕ
u16 n = n % 65536

abbrev pub u32 : ℕ → ℕ
u32 n = n % 4294967296

unfoldable pub be16 : ℕ → List ℕ
be16 n = (n / 256 % 256) ∷ (n % 256) ∷ []

unfoldable pub be32 : ℕ → List ℕ
be32 n = (n / 16777216 % 256) ∷ (n / 65536 % 256) ∷ (n / 256 % 256) ∷ (n % 256) ∷ []

-- The number that a big-endian byte string stands for.
unfoldable pub be_value : ℕ → List ℕ → ℕ
be_value acc [] = acc
be_value acc (b ∷ bs) = be_value (acc * 256 + b) bs

unfoldable pub le16 : ℕ → List ℕ
le16 n = (n % 256) ∷ (n / 256 % 256) ∷ []

unfoldable pub le32 : ℕ → List ℕ
le32 n = (n % 256) ∷ (n / 256 % 256) ∷ (n / 65536 % 256) ∷ (n / 16777216 % 256) ∷ []

-- The number that a little-endian byte string stands for.
unfoldable pub le_value : List ℕ → ℕ
le_value [] = 0
le_value (b ∷ bs) = b + 256 * le_value bs

pub length-be16 : (n : ℕ) → length (be16 n) ≡ 2
unfolding be16
length-be16 n = refl

pub length-be32 : (n : ℕ) → length (be32 n) ≡ 4
unfolding be32
length-be32 n = refl

pub length-le16 : (n : ℕ) → length (le16 n) ≡ 2
unfolding le16
length-le16 n = refl

pub length-le32 : (n : ℕ) → length (le32 n) ≡ 4
unfolding le32
length-le32 n = refl

pub be_value-be16 : (n : ℕ) → IsU16 n → be_value 0 (be16 n) ≡ n
unfolding be_value be16
be_value-be16 n h = omega arith

pub be_value-be32 : (n : ℕ) → IsU32 n → be_value 0 (be32 n) ≡ n
unfolding be_value be32
be_value-be32 n h = omega arith

pub le_value-le16 : (n : ℕ) → IsU16 n → le_value (le16 n) ≡ n
unfolding le_value le16
le_value-le16 n h = omega arith

pub le_value-le32 : (n : ℕ) → IsU32 n → le_value (le32 n) ≡ n
unfolding le_value le32
le_value-le32 n h = omega arith
