-- ===== src/Pkg/Xorshift.antt =====
-- pkg/xorshift/prng.go: pseudorandom numbers over 64-bit words.
use Prim.Native.Nat.{bit_xor}
use mochi.Base.{ℕ, ◌+◌, ◌*◌, ◌/◌, ◌%◌, ◌^◌}

abbrev shift_left : ℕ → ℕ → ℕ
shift_left x k = x * 2 ^ k % 2 ^ 64

abbrev shift_right : ℕ → ℕ → ℕ
shift_right x k = x / 2 ^ k

-- `(x << k) | (x >> (64 - k))`; the two parts have no bit in common
unfoldable pub rotate_left : ℕ → ℕ → ℕ → ℕ
rotate_left x k rest = shift_left x k + shift_right x rest

unfoldable pub xo_ro_shi_ro_128_ss : ℕ → ℕ → ℕ × ℕ × ℕ
xo_ro_shi_ro_128_ss s0 s1 =
    let r = rotate_left (s0 * 5 % 2 ^ 64) 7 57 * 9 % 2 ^ 64 in
    let x = bit_xor s1 s0 in
    (r, bit_xor (bit_xor (rotate_left s0 24 40) x) (shift_left x 16), rotate_left x 37 27)

unfoldable pub xor_shift_64_s : ℕ → ℕ × ℕ
xor_shift_64_s s =
    let a = bit_xor s (shift_right s 12) in
    let b = bit_xor a (shift_left a 25) in
    let c = bit_xor b (shift_right b 27) in (c * 0x2545F4914F6CDD1D % 2 ^ 64, c)
