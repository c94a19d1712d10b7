-- ===== src/Ssh/Bits.antt =====
-- The 32-bit operations of the CIDR test in workers/worker-node/src/sshExecutor.js.
pub mod Laws
use shore_sentinel_app.Base.{ℕ, zero, suc, ◌+◌, ◌*◌, ◌-◌, ◌/◌, ◌%◌, ◌^◌, ◌==◌, if◌then◌else◌}

-- `a & b` of two numbers of `w` bits. The source's `&` returns a signed number; it compares such
-- numbers only with each other, which is to compare their bits.
abbrev pub bit_and : ℕ → ℕ → ℕ → ℕ
bit_and zero a b = 0
bit_and (suc w) a b = (a % 2) * (b % 2) + 2 * bit_and w (a / 2) (b / 2)

-- `(a << n) >>> 0`, for `n` below 32.
abbrev pub shift_left : ℕ → ℕ → ℕ
shift_left a n = (a * 2 ^ n) % 2 ^ 32

-- `prefix === 0 ? 0 : (0xffffffff << (32 - prefix)) >>> 0`.
abbrev pub mask_of : ℕ → ℕ
mask_of prefix = if prefix == 0 then 0 else shift_left 4294967295 (32 - prefix)
