-- ===== src/Prelude/Bits.antt =====
-- `^` and `&` with one bit, at every width.
use Prim.Native.Nat.{
  ℕ, zero, suc, ◌+◌, ◌*◌, ◌/◌, ◌%◌, ◌^◌, ◌≤◌, ◌<◌, min, bit_and, bit_xor, digits, bitwise,
  bit_and-bitwise, bit_xor-bitwise, differ,
}
use mathlib.Core.Path.{◌≡◌, refl, sym, ap, ◌∙◌}
use native.Mathlib.Omega.{arith}
use native.Mathlib.Nat.{pow-suc, le_refl}
use my_posts.Prelude.Tests.{◌==◌, if◌then◌else◌}

-- The fuel of the recursion on binary digits does not matter once it is enough.
module _ (z : ℕ → ℕ) (f : ℕ → ℕ → ℕ) where
  enough : (n m a b : ℕ) → a ≤ n → a ≤ m → digits z f n a b ≡ digits z f m a b
  enough zero zero a b p q = refl
  enough zero (suc m) zero b p q = refl
  enough zero (suc m) (suc a) b p q = absurd (omega arith)
  enough (suc n) zero zero b p q = refl
  enough (suc n) zero (suc a) b p q = absurd (omega arith)
  enough (suc n) (suc m) zero b p q = refl
  enough (suc n) (suc m) (suc a) b p q =
      rw (enough n m (suc a / 2) (b / 2) (omega arith) (omega arith))

  lowest :
      (a b : ℕ)
      → bitwise z f (suc a) b ≡ bitwise z f (suc a / 2) (b / 2) * 2 + f (suc a % 2) (b % 2)
  lowest a b = omega (arith, enough a (suc a / 2) (suc a / 2) (b / 2) (omega arith) (le_refl _))

-- Two binary digits that differ.
abbrev digit_xor : ℕ → ℕ → ℕ
digit_xor a b = if a == b then 0 else 1

differ_digits : (a b : ℕ) → a < 2 → b < 2 → differ a b ≡ digit_xor a b
differ_digits zero b p q = ground arith
differ_digits (suc zero) zero p q = refl
differ_digits (suc zero) (suc zero) p q = refl
differ_digits (suc zero) (suc (suc b)) p q = absurd (omega arith)
differ_digits (suc (suc a)) b p q = absurd (omega arith)

bit_xor-lowest : (a b : ℕ) → bit_xor a b ≡ bit_xor (a / 2) (b / 2) * 2 + digit_xor (a % 2) (b % 2)
bit_xor-lowest zero b = ground (arith, bit_xor-bitwise 0 b, bit_xor-bitwise 0 (b / 2))
bit_xor-lowest (suc a) b = omega (
  arith,
  bit_xor-bitwise (suc a) b,
  bit_xor-bitwise (suc a / 2) (b / 2),
  lowest (λ y. y) differ a b,
  differ_digits (suc a % 2) (b % 2) (omega arith) (omega arith),
)

bit_and-lowest : (a b : ℕ) → bit_and a b ≡ bit_and (a / 2) (b / 2) * 2 + min (a % 2) (b % 2)
bit_and-lowest zero b = omega (arith, bit_and-bitwise 0 b, bit_and-bitwise 0 (b / 2))
bit_and-lowest (suc a) b =
    omega (
      arith,
      bit_and-bitwise (suc a) b,
      bit_and-bitwise (suc a / 2) (b / 2),
      lowest (λ y. 0) min a b,
    )

bit_xor-zero_below : (n a : ℕ) → a ≤ n → bit_xor a 0 ≡ a
bit_xor-zero_below n zero h = bit_xor-bitwise 0 0
bit_xor-zero_below zero (suc a) h = absurd (omega arith)
bit_xor-zero_below (suc n) (suc a) h =
    ground (arith, bit_xor-lowest (suc a) 0, bit_xor-zero_below n (suc a / 2) (omega arith))

bit_and-self_below : (n a : ℕ) → a ≤ n → bit_and a a ≡ a
bit_and-self_below n zero h = bit_and-bitwise 0 0
bit_and-self_below zero (suc a) h = absurd (omega arith)
bit_and-self_below (suc n) (suc a) h =
    ground (arith, bit_and-lowest (suc a) (suc a), bit_and-self_below n (suc a / 2) (omega arith))

double_pow : (q k : ℕ) → q * 2 ^ suc k ≡ 2 * (q * 2 ^ k)
double_pow q k = omega (arith, ap (λ (t : ℕ). q * t) (pow-suc 2 k))

-- A digit 0 more at the end.
bit_xor-double :
    {x y : ℕ} (a b c : ℕ) → x ≡ 2 * a → y ≡ 2 * b → bit_xor a b ≡ c → bit_xor x y ≡ 2 * c
bit_xor-double a b c p q e =
    rw (p, q)
      (let l : 2 * a / 2 ≡ a = omega arith in
        let m : 2 * b / 2 ≡ b = omega arith in
        ground (
          arith,
          bit_xor-lowest (2 * a) (2 * b),
          ap (λ t. bit_xor t (2 * b / 2)) l,
          ap (bit_xor a) m,
          e,
        ))

bit_and-double :
    {x y : ℕ} (a b c : ℕ) → x ≡ 2 * a → y ≡ 2 * b → bit_and a b ≡ c → bit_and x y ≡ 2 * c
bit_and-double a b c p q e =
    rw (p, q)
      (let l : 2 * a / 2 ≡ a = omega arith in
        let m : 2 * b / 2 ≡ b = omega arith in
        ground (
          arith,
          bit_and-lowest (2 * a) (2 * b),
          ap (λ t. bit_and t (2 * b / 2)) l,
          ap (bit_and a) m,
          e,
        ))

pub two_pow-suc : (k : ℕ) → 2 ^ suc k ≡ 2 * 2 ^ k
two_pow-suc k = omega (arith, pow-suc 2 k)

pub two_pow-pos : (k : ℕ) → 1 ≤ 2 ^ k
two_pow-pos zero = omega arith
two_pow-pos (suc k) = omega (arith, two_pow-suc k, two_pow-pos k)

-- A bit that is clear is set, and one that is set is cleared.
pub bit_xor-clear : (q k : ℕ) → bit_xor (q * 2 ^ suc k) (2 ^ k) ≡ q * 2 ^ suc k + 2 ^ k
bit_xor-clear q zero =
    ground
      (arith, bit_xor-lowest (q * 2) 1, bit_xor-zero_below (q * 2 / 2) (q * 2 / 2) (omega arith))
bit_xor-clear q (suc k) =
    bit_xor-double (q * 2 ^ suc k) (2 ^ k) (q * 2 ^ suc k + 2 ^ k) (double_pow q (suc k))
      (two_pow-suc k) (bit_xor-clear q k)
    ∙ omega (arith, double_pow q (suc k), two_pow-suc k)

pub bit_xor-set : (q k : ℕ) → bit_xor (q * 2 ^ suc k + 2 ^ k) (2 ^ k) ≡ q * 2 ^ suc k
bit_xor-set q zero = ground (
  arith,
  bit_xor-lowest (q * 2 + 1) 1,
  bit_xor-zero_below ((q * 2 + 1) / 2) ((q * 2 + 1) / 2) (omega arith),
)
bit_xor-set q (suc k) =
    bit_xor-double (q * 2 ^ suc k + 2 ^ k) (2 ^ k) (q * 2 ^ suc k)
      (omega (arith, double_pow q (suc k), two_pow-suc k)) (two_pow-suc k) (bit_xor-set q k)
    ∙ sym (double_pow q (suc k))

pub bit_and-set : (q k : ℕ) → bit_and (q * 2 ^ suc k + 2 ^ k) (q * 2 ^ suc k) ≡ q * 2 ^ suc k
bit_and-set q zero = ground (
  arith,
  bit_and-lowest (q * 2 + 1) (q * 2),
  bit_and-self_below q q (omega arith),
  ap (λ t. bit_and t (q * 2 / 2)) (let l : (q * 2 + 1) / 2 ≡ q = omega arith in l),
  ap (bit_and q) (let l : q * 2 / 2 ≡ q = omega arith in l),
)
bit_and-set q (suc k) =
    bit_and-double (q * 2 ^ suc k + 2 ^ k) (q * 2 ^ suc k) (q * 2 ^ suc k)
      (omega (arith, double_pow q (suc k), two_pow-suc k)) (double_pow q (suc k)) (bit_and-set q k)
    ∙ sym (double_pow q (suc k))

pub bit_and-clear : (q k : ℕ) → bit_and (q * 2 ^ suc k) (q * 2 ^ suc k + 2 ^ k) ≡ q * 2 ^ suc k
bit_and-clear q zero = ground (
  arith,
  bit_and-lowest (q * 2) (q * 2 + 1),
  bit_and-self_below q q (omega arith),
  ap (λ t. bit_and t ((q * 2 + 1) / 2)) (let l : q * 2 / 2 ≡ q = omega arith in l),
  ap (bit_and q) (let l : (q * 2 + 1) / 2 ≡ q = omega arith in l),
)
bit_and-clear q (suc k) =
    bit_and-double (q * 2 ^ suc k) (q * 2 ^ suc k + 2 ^ k) (q * 2 ^ suc k) (double_pow q (suc k))
      (omega (arith, double_pow q (suc k), two_pow-suc k)) (bit_and-clear q k)
    ∙ sym (double_pow q (suc k))
