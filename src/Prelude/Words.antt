-- ===== src/Prelude/Words.antt =====
-- The bits of a machine word: what `w | m` does to the bit that `w & (1 << b)` tests.
use Prim.Native.Nat.{
  ℕ, zero, suc, ◌+◌, ◌*◌, ◌/◌, ◌%◌, ◌^◌, ◌≤◌, min, max, bit_and, bit_or, bitwise, digits,
  bit_and-bitwise, bit_or-bitwise,
}
use mathlib.Core.Path.{◌≡◌, refl}
use mathlib.Core.Logic.{◌≢◌}
use native.Mathlib.Nat.{pow-suc}
use native.Mathlib.Omega.{arith}

-- The digit recursion takes any fuel from the first operand on.
module _ (last_digits : ℕ → ℕ) (op : ℕ → ℕ → ℕ) where
  same_digits :
      (a b : ℕ) (f g : ℕ)
      → a ≤ f
      → a ≤ g
      → digits last_digits op f a b ≡ digits last_digits op g a b
  same_digits zero b zero zero p q = refl
  same_digits zero b zero (suc g) p q = refl
  same_digits zero b (suc f) zero p q = refl
  same_digits zero b (suc f) (suc g) p q = refl
  same_digits (suc a) b zero g p q = absurd (omega arith)
  same_digits (suc a) b (suc f) zero p q = absurd (omega arith)
  same_digits (suc a) b (suc f) (suc g) p q =
      rw (same_digits (suc a / 2) (b / 2) f g (omega arith) (omega arith))

  next_digit :
      (a b : ℕ)
      → bitwise last_digits op (suc a) b
        ≡ bitwise last_digits op (suc a / 2) (b / 2) * 2 + op (suc a % 2) (b % 2)
  next_digit a b =
      omega (arith, same_digits (suc a / 2) (b / 2) a (suc a / 2) (omega arith) (omega arith))

and_digit : (a b : ℕ) → bit_and a b ≡ bit_and (a / 2) (b / 2) * 2 + min (a % 2) (b % 2)
and_digit zero b = simp bit_and-bitwise (omega arith)
and_digit (suc a) b = simp bit_and-bitwise (next_digit (λ z. 0) min a b)

or_digit : (a b : ℕ) → bit_or a b ≡ bit_or (a / 2) (b / 2) * 2 + max (a % 2) (b % 2)
or_digit zero b = simp bit_or-bitwise (omega arith)
or_digit (suc a) b = simp bit_or-bitwise (next_digit (λ z. z) max a b)

-- The bits above and below the one that a mask of one bit selects.
and_higher : (w b : ℕ) → bit_and w (2 ^ suc b) ≡ bit_and (w / 2) (2 ^ b) * 2
and_higher w b =
    let half : 2 ^ suc b / 2 ≡ 2 ^ b = omega (arith, pow-suc 2 b) in
    rw (and_digit w (2 ^ suc b), half) (omega (arith, pow-suc 2 b))

or_half : (w m : ℕ) → bit_or w m / 2 ≡ bit_or (w / 2) (m / 2)
or_half w m = omega (arith, or_digit w m)

and_none : (bound w : ℕ) → w ≤ bound → bit_and w 0 ≡ 0
and_none bound zero h = refl
and_none zero (suc w) h = absurd (omega arith)
and_none (suc bound) (suc w) h =
    omega (arith, and_digit (suc w) 0, and_none bound (suc w / 2) (omega arith))

and_lowest : (w : ℕ) → bit_and w 1 ≡ w % 2
and_lowest w = omega (arith, and_digit w 1, and_none (w / 2) (w / 2) (omega arith))

-- The bit that was set is set.
pub or_sets : (b w : ℕ) → bit_and (bit_or w (2 ^ b)) (2 ^ b) ≢ 0
or_sets zero w e = omega (arith, and_lowest (bit_or w 1), or_digit w 1)
or_sets (suc b) w e =
    let half : 2 ^ suc b / 2 ≡ 2 ^ b = omega (arith, pow-suc 2 b) in
    let higher = rw (and_higher, or_half, half) at e in or_sets b (w / 2) (omega arith)

-- Setting bits clears none.
pub or_keeps : (b w m : ℕ) → bit_and w (2 ^ b) ≢ 0 → bit_and (bit_or w m) (2 ^ b) ≢ 0
or_keeps zero w m h e = h (omega (arith, and_lowest (bit_or w m), and_lowest w, or_digit w m))
or_keeps (suc b) w m h e =
    let higher = rw (and_higher, or_half) at e in
    or_keeps b (w / 2) (m / 2) (λ q. h (rw and_higher (omega arith))) (omega arith)
