-- ===== src/Prelude/Bytes.antt =====
-- Bytes on a wire: fixed-width numbers in both orders, and reading a count of bytes.
use Prim.Native.Nat.{ℕ, zero, suc, ◌+◌, ◌*◌, ◌/◌, ◌%◌, ◌<◌}
use mathlib.Core.Path.{◌≡◌, refl, ap}
use mathlib.Core.Bool.{true}
use mathlib.Core.Logic.{inl, inr}
use mathlib.Core.Option.{Option, none, some}
use mathlib.Core.List.{List, [], ◌∷◌, ◌++◌}
use native.Mathlib.Omega.{arith}
use dbbat.Prelude.Tests.{leb, if◌then◌else◌, Bool-cases}
use dbbat.Prelude.Lists.{
  length, take, drop, All, length-append, length-take, take-append, drop-append, take-append-drop,
}

abbrev pub IsByte : ℕ → Type 0
IsByte b = b < 256

-- How many values `k` bytes have.
abbrev pub range_of : ℕ → ℕ
range_of zero = 1
range_of (suc k) = 256 * range_of k

-- `binary.BigEndian.PutUint…` into `k` bytes
unfoldable pub put_be : ℕ → ℕ → List ℕ
put_be zero n = []
put_be (suc k) n = put_be k (n / 256) ++ (n % 256) ∷ []

-- `binary.BigEndian.Uint…` of all bytes of the list
unfoldable pub get_be_from : ℕ → List ℕ → ℕ
get_be_from acc [] = acc
get_be_from acc (b ∷ bytes) = get_be_from (acc * 256 + b) bytes

abbrev pub get_be : List ℕ → ℕ
get_be bytes = get_be_from 0 bytes

-- `binary.LittleEndian`
unfoldable pub put_le : ℕ → ℕ → List ℕ
put_le zero n = []
put_le (suc k) n = (n % 256) ∷ put_le k (n / 256)

unfoldable pub get_le : List ℕ → ℕ
get_le [] = 0
get_le (b ∷ bytes) = b + 256 * get_le bytes

pub length-put_be : (k n : ℕ) → length (put_be k n) ≡ k
unfolding put_be
length-put_be zero n = refl
length-put_be (suc k) n =
    omega (arith, length-append (put_be k (n / 256)) ((n % 256) ∷ []), length-put_be k (n / 256))

pub length-put_le : (k n : ℕ) → length (put_le k n) ≡ k
unfolding put_le
length-put_le zero n = refl
length-put_le (suc k) n = ap suc (length-put_le k (n / 256))

get_be_from-snoc :
    (acc : ℕ) (bytes : List ℕ) (b : ℕ)
    → get_be_from acc (bytes ++ b ∷ []) ≡ get_be_from acc bytes * 256 + b
unfolding get_be_from
get_be_from-snoc acc [] b = refl
get_be_from-snoc acc (x ∷ bytes) b = get_be_from-snoc (acc * 256 + x) bytes b

pub get_be-put_be : (k n : ℕ) → n < range_of k → get_be (put_be k n) ≡ n
unfolding put_be
get_be-put_be zero n h = unfold get_be_from in omega arith
get_be-put_be (suc k) n h = omega (
  arith,
  get_be_from-snoc 0 (put_be k (n / 256)) (n % 256),
  get_be-put_be k (n / 256) (omega arith),
)

pub get_le-put_le : (k n : ℕ) → n < range_of k → get_le (put_le k n) ≡ n
unfolding put_le get_le
get_le-put_le zero n h = omega arith
get_le-put_le (suc k) n h = omega (arith, get_le-put_le k (n / 256) (omega arith))

get_be_from-lt :
    (acc m : ℕ) (bytes : List ℕ)
    → acc < m
    → All IsByte bytes
    → get_be_from acc bytes < m * range_of (length bytes)
unfolding get_be_from
get_be_from-lt acc m [] h a = omega arith
get_be_from-lt acc m (b ∷ bytes) h (lt, a) =
    grind (arith, get_be_from-lt (acc * 256 + b) (m * 256) bytes (omega arith) a)

pub get_be-lt : (bytes : List ℕ) → All IsByte bytes → get_be bytes < range_of (length bytes)
get_be-lt bytes a = omega (arith, get_be_from-lt 0 1 bytes (omega arith) a)

pub get_le-lt : (bytes : List ℕ) → All IsByte bytes → get_le bytes < range_of (length bytes)
unfolding get_le
get_le-lt [] a = omega arith
get_le-lt (b ∷ bytes) (lt, a) = omega (arith, get_le-lt bytes a)

-- `io.ReadFull` of `n` bytes; `none` is its error.
unfoldable pub read_full : ℕ → List ℕ → Option (List ℕ × List ℕ)
read_full n stream = if leb n (length stream) then some (take n stream, drop n stream) else none

pub read_full-append :
    (n : ℕ) (bytes rest : List ℕ)
    → length bytes ≡ n
    → read_full n (bytes ++ rest) ≡ some (bytes, rest)
unfolding read_full
read_full-append n bytes rest h =
    let enough : leb n (length (bytes ++ rest)) ≡ true = ground (arith, length-append bytes rest) in
    rw (enough, ← h, take-append bytes rest, drop-append bytes rest) refl

-- What is read is the start of the stream, and is as long as asked.
pub read_full_lem :
    (n : ℕ) (stream : List ℕ) (r : List ℕ × List ℕ)
    → read_full n stream ≡ some r
    → (stream ≡ r.0 ++ r.1) × (length r.0 ≡ n)
unfolding read_full
read_full_lem n stream r h = elim (Bool-cases (leb n (length stream))) [
  | inr short ↦ absurd (ground (arith, short))
  | inl enough ↦ ground (arith, enough, take-append-drop n stream, length-take n stream)
]
