-- ===== src/Bloom.antt =====
-- internal/storage/bloom/bloom.go: the Bloom filter of a table.
-- The sizes are computed with floats there; `Sizing` stands for math.Log, math.Ceil and math.Round as
-- `optimalM` and `optimalK` use them.
pub mod Member
use on_cloud_kv.Prelude.{
  ℕ, zero, suc, ◌+◌, ◌*◌, ◌/◌, ◌%◌, ◌^◌, ◌<◌, ◌≡◌, Bool, true, false, List, [], ◌∷◌, bit_and,
  bit_or, bit_xor, ltb, ◌==◌, get_or, set, replicate, length, if◌then◌else◌,
}
use on_cloud_kv.Bytes.{Bytes}

pub record Filter : Type 0 where
  pub bits : List ℕ
  pub k : ℕ
  pub m : ℕ

pub record Sizing : Type 1 where
  pub Rate : Type 0
  -- uint(math.Ceil(-float64(n) * math.Log(p) / (math.Log(2) * math.Log(2))))
  pub optimal_m : ℕ → Rate → ℕ
  -- uint(math.Round(float64(m) / float64(n) * math.Log(2)))
  pub round_k : ℕ → ℕ → ℕ
  -- the rate of `buildBloom`, 0.01
  pub one_percent : Rate
  -- at that rate a filter for some items has some bits
  pub optimal_m_pos : (n : ℕ) → 0 < n → 0 < optimal_m n one_percent

-- `optimalK`
unfoldable pub optimal_k : Sizing → ℕ → ℕ → ℕ
optimal_k z m n = let k = z.round_k m n in if ltb k 1 then 1 else k

-- `New`, with every word of the bit array zero
unfoldable pub new : (z : Sizing) → ℕ → z.Rate → Filter
new z n p =
    let m = z.optimal_m n p in
    record { bits = replicate ((m + 63) / 64) 0; k = optimal_k z m n; m = m }

abbrev pub u64_mod : ℕ
u64_mod = 2 ^ 64

-- `h ^= uint64(b); h *= prime64`, over the bytes
unfoldable pub hash_loop : ℕ → Bytes → ℕ
hash_loop h [] = h
hash_loop h (b ∷ data_) = hash_loop (bit_xor h b * 1099511628211 % u64_mod) data_

-- `hash`
unfoldable pub hash : Bytes → ℕ × ℕ
unfolding hash_loop
hash data_ =
    let h = hash_loop 14695981039346656037 data_ in
    let h2 = bit_xor h (h / 2 ^ 33) * 0xff51afd7ed558ccd % u64_mod in (h, bit_xor h2 (h2 / 2 ^ 33))

-- `(h1 + uint64(i)*h2) % uint64(f.m)`, the sum and the product wrapping
unfoldable pub position : Filter → ℕ × ℕ → ℕ → ℕ
position f (h1, h2) i = (h1 + i * h2 % u64_mod) % u64_mod % f.m

-- `f.bits[pos/64] |= 1 << (pos % 64)`
unfoldable pub set_bit : List ℕ → ℕ → List ℕ
set_bit bits pos = set bits (pos / 64) (bit_or (get_or bits (pos / 64) 0) (2 ^ (pos % 64)))

-- The loop of `Add` from i on, by the rounds left.
unfoldable pub add_loop : ℕ → ℕ → ℕ × ℕ → Filter → Filter
add_loop zero i h f = f
add_loop (suc rounds) i h f =
    add_loop rounds (suc i) h (record f { bits = set_bit f.bits (position f h i) })

-- `Add`
unfoldable pub add : Filter → Bytes → Filter
add f key = add_loop f.k 0 (hash key) f

-- `f.bits[pos/64]&(1<<(pos%64)) == 0`
unfoldable pub bit_clear : List ℕ → ℕ → Bool
bit_clear bits pos = bit_and (get_or bits (pos / 64) 0) (2 ^ (pos % 64)) == 0

unfoldable pub contains_loop : ℕ → ℕ → ℕ × ℕ → Filter → Bool
contains_loop zero i h f = true
contains_loop (suc rounds) i h f = elim (bit_clear f.bits (position f h i)) [
  | true ↦ false
  | false ↦ contains_loop rounds (suc i) h f
]

-- `Contains`
unfoldable pub contains : Filter → Bytes → Bool
contains f key = contains_loop f.k 0 (hash key) f
