-- ===== src/Scheduler/Hash.antt =====
-- src/TaskScheduler.cpp, Hash32: a variant of xxHash on one 32-bit word.
use Prim.Native.Nat.{bit_xor}
use enki_ts.Base.{ℕ, ◌+◌, ◌*◌, ◌/◌, ◌%◌, ◌^◌, ◌≡◌, refl}

abbrev pub prime32_2 : ℕ
prime32_2 = 2246822519

abbrev pub prime32_3 : ℕ
prime32_3 = 3266489917

abbrev pub prime32_5 : ℕ
prime32_5 = 374761393

-- `acc ^ ( acc >> k )`
abbrev pub xor_shift : ℕ → ℕ → ℕ
xor_shift acc k = bit_xor acc (acc / 2 ^ k)

-- The seed is 0. Sums and products are those of uint32_t.
unfoldable pub hash32 : ℕ → ℕ
hash32 x =
    let acc = (0 + prime32_5) % 2 ^ 32 in
    let acc = (acc + x) % 2 ^ 32 in
    let acc = xor_shift acc 15 in
    let acc = acc * prime32_2 % 2 ^ 32 in
    let acc = xor_shift acc 13 in let acc = acc * prime32_3 % 2 ^ 32 in xor_shift acc 16

hash32-zero : hash32 0 ≡ 46947589
unfolding hash32
hash32-zero = refl
