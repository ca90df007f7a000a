-- ===== src/Base/Bits.antt =====
-- Masks and disjoint fields: what `&` and `|` do to numbers, for every width.
use Prim.Native.Nat.{
  ℕ, zero, suc, ◌+◌, ◌-◌, ◌*◌, ◌/◌, ◌%◌, ◌^◌, ◌≤◌, ◌<◌, bit_and, bit_or, min, max, digits,
  bit_and-bitwise, bit_or-bitwise,
}
use mathlib.Core.Path.{◌≡◌, refl, ap, ap₂, sym, ◌∙◌}
use native.Mathlib.Nat.{pow-suc, one-le-pow}
use mathlib.Core.Bool.{Bool, true, ◌&&◌}
use native.Mathlib.Omega.{arith}

-- The digit recursion behind the two operations: fuel past the first operand changes nothing.
module _ (last : ℕ → ℕ) (join : ℕ → ℕ → ℕ) where
  digits_at_zero : (n b : ℕ) → digits last join n 0 b ≡ last b
  digits_at_zero zero b = refl
  digits_at_zero (suc n) b = refl

  spare_fuel : (extra n a b : ℕ) → a ≤ n → digits last join (n + extra) a b ≡ digits last join n a b
  spare_fuel extra n zero b enough = digits_at_zero (n + extra) b ∙ sym (digits_at_zero n b)
  spare_fuel extra zero (suc a) b enough = absurd (omega arith)
  spare_fuel extra (suc n) (suc a) b enough =
      let shifted : suc n + extra ≡ suc (n + extra) = omega arith in
      let halved = spare_fuel extra n (suc a / 2) (b / 2) (omega arith) in
      ap (λ (t : ℕ). digits last join t (suc a) b) shifted
      ∙ ap (λ (t : ℕ). t * 2 + join (suc a % 2) (b % 2)) halved

  -- The fuel that the digits above the lowest get, against the fuel they would get on their own.
  upper_fuel :
      (a b : ℕ)
      → digits last join a (suc a / 2) (b / 2) ≡ digits last join (suc a / 2) (suc a / 2) (b / 2)
  upper_fuel a b =
      let own = suc a / 2 in
      let split : a ≡ own + (a - own) = omega arith in
      ap (λ (t : ℕ). digits last join t own (b / 2)) split
      ∙ spare_fuel (a - own) own own (b / 2) (omega arith)

module _ (b : ℕ) where
  bit_or_halves : (a : ℕ) → bit_or a b ≡ bit_or (a / 2) (b / 2) * 2 + max (a % 2) (b % 2)
  bit_or_halves zero =
      let whole = bit_or-bitwise 0 b in
      let upper = bit_or-bitwise 0 (b / 2) in omega (arith, whole, upper)
  bit_or_halves (suc a) =
      let whole = bit_or-bitwise (suc a) b in
      let upper = bit_or-bitwise (suc a / 2) (b / 2) in
      omega (arith, upper_fuel (λ y. y) max a b, whole, upper)

  bit_and_halves : (a : ℕ) → bit_and a b ≡ bit_and (a / 2) (b / 2) * 2 + min (a % 2) (b % 2)
  bit_and_halves zero =
      let whole = bit_and-bitwise 0 b in
      let upper = bit_and-bitwise 0 (b / 2) in omega (arith, whole, upper)
  bit_and_halves (suc a) =
      let whole = bit_and-bitwise (suc a) b in
      let upper = bit_and-bitwise (suc a / 2) (b / 2) in
      omega (arith, upper_fuel (λ y. 0) min a b, whole, upper)

zero_right_fuel : (n a : ℕ) → a ≤ n → (bit_or a 0 ≡ a) × (bit_and a 0 ≡ 0)
zero_right_fuel n zero h = (refl, refl)
zero_right_fuel zero (suc a) h = absurd (omega arith)
zero_right_fuel (suc n) (suc a) h = (
  omega (arith, bit_or_halves 0 (suc a), zero_right_fuel n (suc a / 2) (omega arith)),
  omega (arith, bit_and_halves 0 (suc a), zero_right_fuel n (suc a / 2) (omega arith)),
)

pub bit_and-zero : (a : ℕ) → bit_and a 0 ≡ 0
bit_and-zero a = (zero_right_fuel a a (omega arith)).1

pub bit_or-zero : (a : ℕ) → bit_or a 0 ≡ a
bit_or-zero a = (zero_right_fuel a a (omega arith)).0

scaled : (q k : ℕ) → q * 2 ^ suc k ≡ 2 * (q * 2 ^ k)
scaled q k = omega (arith, ap (λ (t : ℕ). q * t) (pow-suc 2 k))

-- A field below bit `k` is joined to one above it by addition.
pub bit_or_disjoint : (k q r : ℕ) → r < 2 ^ k → bit_or (q * 2 ^ k) r ≡ q * 2 ^ k + r
bit_or_disjoint zero q r h =
    let e : r ≡ 0 = omega arith in omega (arith, bit_or-zero (q * 1), ap (bit_or (q * 1)) e)
bit_or_disjoint (suc k) q r h = omega (
  arith,
  bit_or_halves r (q * 2 ^ suc k),
  scaled q k,
  pow-suc 2 k,
  ap (λ (t : ℕ). bit_or t (r / 2)) (half q k),
  bit_or_disjoint k q (r / 2) (omega (arith, pow-suc 2 k)),
)
  where
    half : (q k : ℕ) → q * 2 ^ suc k / 2 ≡ q * 2 ^ k
    half q k = omega (arith, scaled q k)

-- A mask of `k` ones keeps the low field.
bit_and_masked : (k q r : ℕ) → r < 2 ^ k → bit_and (q * 2 ^ k + r) (2 ^ k - 1) ≡ r
bit_and_masked zero q r h = omega (arith, bit_and-zero (q * 1 + r))
bit_and_masked (suc k) q r h = omega (
  arith,
  bit_and_halves (2 ^ suc k - 1) (q * 2 ^ suc k + r),
  scaled q k,
  pow-suc 2 k,
  one-le-pow k 2,
  ap₂ bit_and (upper q r k) (lower k),
  bit_and_masked k q (r / 2) (omega (arith, pow-suc 2 k)),
)
  where
    upper : (q r k : ℕ) → (q * 2 ^ suc k + r) / 2 ≡ q * 2 ^ k + r / 2
    upper q r k = omega (arith, scaled q k)

    lower : (k : ℕ) → (2 ^ suc k - 1) / 2 ≡ 2 ^ k - 1
    lower k = omega (arith, pow-suc 2 k, one-le-pow k 2)

-- A mask of the `k` low bits is the remainder by `2 ^ k`.
pub bit_and_low : (k a : ℕ) → bit_and a (2 ^ k - 1) ≡ a % 2 ^ k
bit_and_low k a = ground (arith, one-le-pow k 2, bit_and_masked k (a / 2 ^ k) (a % 2 ^ k))

-- A mask with `k` zeros below `m` clears the `k` low bits.
bit_and_shifted :
    (k q r m : ℕ) → r < 2 ^ k → bit_and (q * 2 ^ k + r) (m * 2 ^ k) ≡ bit_and q m * 2 ^ k
bit_and_shifted zero q r m h =
    let e : q * 2 ^ 0 + r ≡ q = omega arith in
    let d : m * 2 ^ 0 ≡ m = omega arith in omega (arith, ap₂ bit_and e d)
bit_and_shifted (suc k) q r m h = omega (
  arith,
  bit_and_halves (m * 2 ^ suc k) (q * 2 ^ suc k + r),
  scaled q k,
  scaled m k,
  scaled (bit_and q m) k,
  ap₂ bit_and (upper q r k) (half m k),
  bit_and_shifted k q (r / 2) m (omega (arith, pow-suc 2 k)),
)
  where
    upper : (q r k : ℕ) → (q * 2 ^ suc k + r) / 2 ≡ q * 2 ^ k + r / 2
    upper q r k = omega (arith, scaled q k)

    half : (q k : ℕ) → q * 2 ^ suc k / 2 ≡ q * 2 ^ k
    half q k = omega (arith, scaled q k)

-- The page of an address: `a & 0xfffff000`.
pub bit_and_page : (a : ℕ) → a < 2 ^ 32 → bit_and a 0xfffff000 ≡ a - a % 4096
bit_and_page a h = omega (
  arith,
  ap (λ (t : ℕ). bit_and t 0xfffff000) split,
  bit_and_shifted 12 (a / 4096) (a % 4096) 0xfffff (omega arith),
  bit_and_low 20 (a / 4096),
)
  where
    split : a ≡ a / 4096 * 2 ^ 12 + a % 4096
    split = omega arith

-- A test of every number below a bound, run by evaluation.
unfoldable pub passes_below : (ℕ → Bool) → ℕ → Bool
passes_below test zero = true
passes_below test (suc bound) = passes_below test bound && test bound

pub passes_below-at :
    (test : ℕ → Bool) (bound i : ℕ) → i < bound → passes_below test bound ≡ true → test i ≡ true
unfolding passes_below
passes_below-at test zero i inside passed = absurd (omega arith)
passes_below-at test (suc bound) i inside passed = ground (arith, passes_below-at test bound i)
