-- ===== src/Util/Pow2.antt =====
-- `tgen_next_pow2_u64` returns the least power of two that is not below its argument. The smearing
-- steps keep a number of n digits and turn its leading run of ones, m digits long, into one of m + s.
use ai_pattarai.Common.{
  ℕ, zero, suc, ◌+◌, ◌-◌, ◌*◌, ◌/◌, ◌%◌, ◌^◌, ◌≤◌, ◌<◌, ◌≡◌, refl, sym, ap, ◌∙◌, subst, arith,
  bit_or, bit_or-half, bit_or-last, bit_or-lt, pow_pos, sub64, false, ◌==◌, mod_double,
}
use native.Mathlib.Nat.{
  pow-suc, pow-zero, div-add-mod, pow-le-pow_right, div-div-eq-div-mul, mul_comm, div-le_self,
  add-zero, add-suc, mul-le-mul_left, mod-lt, mod-eq_of_lt,
}
use native.Mathlib.Decide.{dec_lt, dec_le}
use ai_pattarai.Util.{smear, next_pow2_u64}

le-bit_or_left : (n a b : ℕ) → a ≤ n → a ≤ bit_or a b
le-bit_or_left n zero b h = omega arith
le-bit_or_left zero (suc a) b h = absurd (omega arith)
le-bit_or_left (suc n) (suc a) b h = omega (
  arith,
  bit_or-half (suc a) b,
  bit_or-last (suc a) b,
  le-bit_or_left n (suc a / 2) (b / 2) (omega arith),
)

div_double : (m a : ℕ) → a / (m * 2) ≡ a / 2 / m
div_double m a = sym (div-div-eq-div-mul a 2 m ∙ ap (λ t. a / t) (mul_comm 2 m))

-- The digits of `a` from j on and those of `b` below j are all in `a | b`.
le-bit_or : (j a b : ℕ) → (a / 2 ^ j) * 2 ^ j + b % 2 ^ j ≤ bit_or a b
le-bit_or zero a b = omega (arith, le-bit_or_left a a b (omega arith))
le-bit_or (suc j) a b =
    rw (pow-suc 2 j, div_double (2 ^ j) a)
      (omega (
        arith,
        le-bit_or j (a / 2) (b / 2),
        bit_or-half a b,
        bit_or-last a b,
        mod_double (2 ^ j) b (pow_pos j),
      ))

pow_add : (k s : ℕ) → 2 ^ (k + s) ≡ 2 ^ k * 2 ^ s
pow_add k zero = rw (add-zero, pow-zero) (omega arith)
pow_add k (suc s) = rw (add-suc, pow-suc 2 (k + s), pow-suc 2 s, pow_add k s) (omega arith)

-- Three facts on quotients, for J * P above x by at most J, and the like.
high : (j p x : ℕ) → 0 < j → j * p ≤ x + j → j * p ≤ x / j * j + j
high j p x h u = elim (dec_le p (x / j + 1)) [
  | yes l ↦ omega (arith, mul-le-mul_left {m = p} {n = x / j + 1} j l)
  | no g ↦
      omega (
        arith,
        mul-le-mul_left {m = x / j + 2} {n = p} j (omega arith),
        div-add-mod x j,
        mod-lt x h,
      )
]

shift-lt : (s m x : ℕ) → x < s * m → x / s < m
shift-lt s m x u = elim (dec_lt (x / s) m) [
  | yes l ↦ l
  | no g ↦
      absurd (omega (arith, mul-le-mul_left {m = m} {n = x / s} s (omega arith), div-add-mod x s))
]

shift-ge : (s m k x : ℕ) → 0 < s → s * m ≤ x + s * k → m ≤ x / s + k
shift-ge s m k x h u = elim (dec_le m (x / s + k)) [
  | yes l ↦ l
  | no g ↦ absurd (
      omega (
        arith,
        mul-le-mul_left {m = x / s + k + 1} {n = m} s (omega arith),
        div-add-mod x s,
        mod-lt x h,
      ))
]

-- `x` has n digits, of which those from j on are ones.
abbrev Ones : ℕ → ℕ → ℕ → Type 0
Ones n j x = (x < 2 ^ n) × (2 ^ n ≤ x + 2 ^ j)

-- Smearing by s takes s more digits into the run of ones, if it has s already.
smear-Ones_short : (n s x : ℕ) → s < n → Ones n (n - s) x → Ones n (n - 2 * s) (smear s x)
smear-Ones_short n s x h (small, ones) =
    let j : ℕ = n - s in
    let k : ℕ = n - 2 * s in
    let split : 2 ^ n ≡ 2 ^ j * 2 ^ s = ap (λ t. 2 ^ t) (omega arith) ∙ pow_add j s in
    let cover : 2 ^ j ≤ 2 ^ s * 2 ^ k =
      subst (λ t. 2 ^ j ≤ t) (pow_add s k) (pow-le-pow_right (omega arith) (omega arith)) in
    let z : ℕ = x / 2 ^ s in
    let z_small : z < 2 ^ j = shift-lt (2 ^ s) (2 ^ j) x (omega (arith, split)) in
    let z_rest : z % 2 ^ j ≡ z = mod-eq_of_lt z_small in
    let z_large : 2 ^ j ≤ z + 2 ^ k =
      shift-ge (2 ^ s) (2 ^ j) (2 ^ k) x (pow_pos s) (omega (arith, split, cover, ones)) in
    let x_high : 2 ^ j * 2 ^ s ≤ x / 2 ^ j * 2 ^ j + 2 ^ j =
      high (2 ^ j) (2 ^ s) x (pow_pos j) (omega (arith, split, ones)) in
    (
      bit_or-lt n x z small (
          omega
            (arith, z_small, pow-le-pow_right {n = 2} (omega arith) {i = j} {j = n} (omega arith))),
      omega (arith, split, le-bit_or j x z, z_rest, z_large, x_high),
    )

smear-Ones : (n s x : ℕ) → Ones n (n - s) x → Ones n (n - 2 * s) (smear s x)
smear-Ones n s x (small, ones) = elim (dec_lt s n) [
  | yes h ↦ smear-Ones_short n s x h (small, ones)
  | no g ↦
      let no_j : n - s ≡ 0 = omega arith in
      let no_k : n - 2 * s ≡ 0 = omega arith in
      (
        bit_or-lt n x (x / 2 ^ s) small (omega (arith, div-le_self x (2 ^ s))),
        rw no_k (
            omega (
              arith,
              subst (λ t. 2 ^ n ≤ x + 2 ^ t) no_j ones,
              le-bit_or_left x x (x / 2 ^ s) (omega arith),
            )),
      )
]

-- Every number has a count of digits.
digits_of : (w x : ℕ) → 0 < x → x < 2 ^ w → (k : ℕ) × (k < w) × (2 ^ k ≤ x) × (x < 2 ^ suc k)
digits_of zero x h u = absurd (omega arith)
digits_of (suc w) x h u = elim (dec_lt x (2 ^ w)) [
  | yes l ↦ let (k, p, q, r) = digits_of w x h l in (k, omega arith, q, r)
  | no g ↦ (w, omega arith, omega arith, u)
]

-- The six steps leave a run of ones over all digits.
smears-Ones :
    (n x : ℕ)
    → n ≤ 64
    → Ones n (n - 1) x
    → smear 32 (smear 16 (smear 8 (smear 4 (smear 2 (smear 1 x))))) + 1 ≡ 2 ^ n
smears-Ones n x h o0 =
    let o1 = smear-Ones n 1 x o0 in
    let o2 = smear-Ones n 2 (smear 1 x) o1 in
    let o3 = smear-Ones n 4 (smear 2 (smear 1 x)) o2 in
    let o4 = smear-Ones n 8 (smear 4 (smear 2 (smear 1 x))) o3 in
    let o5 = smear-Ones n 16 (smear 8 (smear 4 (smear 2 (smear 1 x)))) o4 in
    let o6 = smear-Ones n 32 (smear 16 (smear 8 (smear 4 (smear 2 (smear 1 x))))) o5 in
    let none_left : n - 64 ≡ 0 = omega arith in
    omega (
      arith,
      o6.0,
      subst (λ t. 2 ^ n ≤ smear 32 (smear 16 (smear 8 (smear 4 (smear 2 (smear 1 x))))) + 2 ^ t)
          none_left o6.1,
    )

sub64_one : (v : ℕ) → 0 < v → v ≤ 2 ^ 63 → sub64 v 1 ≡ v - 1
sub64_one v h u = omega arith

next_pow2_u64_one : next_pow2_u64 1 ≡ 1
unfolding next_pow2_u64
next_pow2_u64_one = refl

-- An argument above 1 whose predecessor has k + 1 digits is taken to 2^(k+1).
next_pow2_u64_large :
    (v k : ℕ)
    → 1 < v
    → v ≤ 2 ^ 63
    → k < 63
    → 2 ^ k ≤ v - 1
    → v - 1 < 2 ^ suc k
    → next_pow2_u64 v ≡ 2 ^ suc k
unfolding next_pow2_u64
next_pow2_u64_large v k h u b low up =
    let nonzero : (v == 0) ≡ false = ground arith in
    let back : suc k - 1 ≡ k = omega arith in
    let run =
      smears-Ones (suc k) (v - 1) (omega arith) (up, rw back (omega (arith, pow-suc 2 k, low))) in
    let bound : 2 ^ suc k < 2 ^ 64 =
      omega (arith, pow-le-pow_right {n = 2} (omega arith) {i = suc k} {j = 63} b) in
    rw (nonzero, sub64_one v (omega arith) u, run) (mod-eq_of_lt bound)

-- For 0 < v ≤ 2^63, `next_pow2_u64` returns a power of two, at least v and less than 2 v.
pub next_pow2_u64_lem :
    (v : ℕ)
    → 0 < v
    → v ≤ 2 ^ 63
    → ((k : ℕ) × (next_pow2_u64 v ≡ 2 ^ k)) × (v ≤ next_pow2_u64 v) × (next_pow2_u64 v < 2 * v)
next_pow2_u64_lem v h u = elim (dec_lt 1 v) [
  | yes l ↦
      let (k, b, low, up) = digits_of 63 (v - 1) (omega arith) (omega arith) in
      let e = next_pow2_u64_large v k l u b low up in
      ((suc k, e), omega (arith, e), omega (arith, e, pow-suc 2 k))
  | no g ↦
      let one : v ≡ 1 = omega arith in
      rw one
        ((0, next_pow2_u64_one), omega (arith, next_pow2_u64_one), omega (arith, next_pow2_u64_one))
]
