-- ===== src/Util.antt =====
-- The arithmetic helpers of vaigAI/src/common/util.c and util.h.
pub mod Pow2
use ai_pattarai.Common.{
  ℕ, ◌+◌, ◌-◌, ◌*◌, ◌/◌, ◌%◌, ◌^◌, Bool, ◌&&◌, not, ◌==◌, leb, if◌then◌else◌, u64, sub64, bit_or,
  bit_and, bit_xor,
}

-- `v |= v >> s`
abbrev pub smear : ℕ → ℕ → ℕ
smear s v = bit_or v (v / 2 ^ s)

unfoldable pub next_pow2_u64 : ℕ → ℕ
next_pow2_u64 v =
    let w = smear 32 (smear 16 (smear 8 (smear 4 (smear 2 (smear 1 (sub64 v 1)))))) in
    if v == 0 then 1 else u64 (w + 1)

unfoldable pub is_pow2 : ℕ → Bool
is_pow2 v = not (v == 0) && bit_and v (sub64 v 1) == 0

-- `tgen_tsc_to_us`; `tsc_hz` is the calibrated `g_tsc_hz`.
unfoldable pub tsc_to_us : ℕ → ℕ → ℕ
tsc_to_us tsc_hz delta = u64 (delta * 1000000) / (if tsc_hz == 0 then 1000000000 else tsc_hz)

-- The state of the generator after `tgen_prng_seed`.
unfoldable pub prng_seed : ℕ → ℕ
prng_seed seed = if seed == 0 then 1 else seed

-- `tgen_rand64`: the value returned, which is also the next state.
unfoldable pub rand64 : ℕ → ℕ
rand64 state =
    let x1 = bit_xor state (u64 (state * 2 ^ 13)) in
    let x2 = bit_xor x1 (x1 / 2 ^ 7) in bit_xor x2 (u64 (x2 * 2 ^ 17))

-- `tgen_rand_range`: the value and the next state.
unfoldable pub rand_range : ℕ → ℕ → ℕ → ℕ × ℕ
unfolding rand64
rand_range state lo hi =
    if leb hi lo
    then (lo, state)
    else (u64 (lo + rand64 state % u64 (sub64 hi lo + 1)), rand64 state)
