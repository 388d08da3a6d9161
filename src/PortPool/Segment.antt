-- ===== src/PortPool/Segment.antt =====
-- The first set digit of a function on a segment of the numbers: the specification of a scan, and how
-- two scans of neighbouring segments make one.
use ai_pattarai.Common.{ℕ, ◌≤◌, ◌<◌, ◌≡◌, arith, Option, none, some}
use native.Mathlib.Decide.{dec_lt}
use ai_pattarai.PortPool.{ephem_cnt, or_else}

-- `r` is the first number from lo on, below hi and the count of ports, whose digit is 1.
abbrev pub First : (ℕ → ℕ) → ℕ → ℕ → Option ℕ → Type 0
First f lo hi none = (q : ℕ) → lo ≤ q → q < hi → q < ephem_cnt → f q ≡ 0
First f lo hi (some p) =
    (lo ≤ p) × (p < hi) × (p < ephem_cnt) × (f p ≡ 1) × ((q : ℕ) → lo ≤ q → q < p → f q ≡ 0)

pub or_else-First :
    (f : ℕ → ℕ) (lo mid hi : ℕ) (r r' : Option ℕ)
    → lo ≤ mid
    → mid ≤ hi
    → First f lo mid r
    → First f mid hi r'
    → First f lo hi (or_else r r')
or_else-First f lo mid hi none none h h' one two =
    λ q l u c. elim (dec_lt q mid) [ yes b ↦ one q l b c | no a ↦ two q (omega arith) u c ]
or_else-First f lo mid hi none (some p) h h' one (l, u, c, at, before) = (
  omega arith,
  u,
  c,
  at,
  λ q b a. elim (dec_lt q mid) [
    | yes y ↦ one q b y (omega arith)
    | no n ↦ before q (omega arith) a
  ],
)
or_else-First f lo mid hi (some p) r' h h' (l, u, c, at, before) two =
    (l, omega arith, c, at, before)

-- A scan of `g` is one of `f` when the digits agree in the segment.
pub First-agree :
    (f g : ℕ → ℕ) (lo hi : ℕ) (r : Option ℕ)
    → ((q : ℕ) → lo ≤ q → q < hi → f q ≡ g q)
    → First g lo hi r
    → First f lo hi r
First-agree f g lo hi none same scan = λ q l u c. omega (arith, same q l u, scan q l u c)
First-agree f g lo hi (some p) same (l, u, c, at, before) = (
  l,
  u,
  c,
  omega (arith, same p l u),
  λ q a b. omega (arith, same q a (omega arith), before q a b),
)

-- A part at the start without digits can be left out, and one at the end too.
pub First-start :
    (f : ℕ → ℕ) (lo mid hi : ℕ) (r : Option ℕ)
    → lo ≤ mid
    → ((q : ℕ) → lo ≤ q → q < mid → f q ≡ 0)
    → First f lo hi r
    → First f mid hi r
First-start f lo mid hi none h empty scan = λ q l u c. scan q (omega arith) u c
First-start f lo mid hi (some p) h empty (l, u, c, at, before) = (
  elim (dec_lt p mid) [ yes b ↦ absurd (omega (arith, empty p l b)) | no a ↦ omega arith ],
  u,
  c,
  at,
  λ q a b. before q (omega arith) b,
)

pub First-end :
    (f : ℕ → ℕ) (lo mid hi : ℕ) (r : Option ℕ)
    → mid ≤ hi
    → ((q : ℕ) → mid ≤ q → q < hi → f q ≡ 0)
    → First f lo hi r
    → First f lo mid r
First-end f lo mid hi none h empty scan = λ q l u c. scan q l (omega arith) c
First-end f lo mid hi (some p) h empty (l, u, c, at, before) = (
  l,
  elim (dec_lt p mid) [ yes b ↦ b | no a ↦ absurd (omega (arith, empty p (omega arith) u)) ],
  c,
  at,
  before,
)
