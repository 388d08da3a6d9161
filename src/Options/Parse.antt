-- ===== src/Options/Parse.antt =====
-- The parser on any bytes: it ends, and stays within the array of four SACK blocks.
use ai_pattarai.Common.{
  ℕ, zero, suc, ◌-◌, ◌*◌, ◌/◌, ◌%◌, ◌^◌, ◌≤◌, ◌≡◌, refl, arith, Bool, true, false, ltb, ltb→lt,
  ◌==◌, Bool-cases, inl, inr, if◌then◌else◌, Option, none, some, List, [], ◌∷◌, ◌++◌, length,
  length-append, length-drop, get_or, drop, take,
}
use ai_pattarai.Options.{
  ParsedOpts, SackBlock, be32, no_opts, parse, parse_loop, option_fits, after_option, take_option,
  sack_loop, opt_eol, opt_nop,
}

-- As many rounds as there are bytes are enough: more make no difference.
pub parse_loop_enough :
    (m n : ℕ) (bs : List ℕ) (out : ParsedOpts)
    → length bs ≤ m
    → length bs ≤ n
    → parse_loop m bs out ≡ parse_loop n bs out
unfolding parse_loop
parse_loop_enough zero zero bs out h u = refl
parse_loop_enough zero (suc n) [] out h u = refl
parse_loop_enough zero (suc n) (x ∷ bs) out h u = absurd (omega arith)
parse_loop_enough (suc m) zero [] out h u = refl
parse_loop_enough (suc m) zero (x ∷ bs) out h u = absurd (omega arith)
parse_loop_enough (suc m) (suc n) [] out h u = refl
parse_loop_enough (suc m) (suc n) (kind ∷ bs) out h u =
    let next = take_option kind (get_or bs 0 0) (drop 1 bs) out in
    rw
      (
        parse_loop_enough m n bs out (omega arith) (omega arith),
        parse_loop_enough m n (after_option bs) next
            (omega (arith, length-drop (get_or bs 0 0 - 1) bs))
            (omega (arith, length-drop (get_or bs 0 0 - 1) bs)),
      )
      refl

abbrev pub Bounded : ParsedOpts → Type 0
Bounded out = (length out.sack ≤ 4) × (out.wscale ≤ 14)

sack_loop-le :
    (rounds : ℕ) (v : List ℕ) (sack : List SackBlock)
    → length sack ≤ 4
    → length (sack_loop rounds v sack) ≤ 4
sack_loop-le zero v sack h = h
sack_loop-le (suc rounds) v sack h =
    let b : SackBlock = record { left = be32 v 0; right = be32 v 4 } in
    elim (Bool-cases (ltb (length sack) 4)) [
      | inl room ↦ rw room (
          sack_loop-le rounds (drop 8 v) (sack ++ (b ∷ []))
            (omega (arith, length-append sack (b ∷ []), ltb→lt (length sack) 4 room)))
      | inr no_room ↦ rw no_room h
    ]

take_option-Bounded :
    (kind len : ℕ) (v : List ℕ) (out : ParsedOpts)
    → Bounded out
    → Bounded (take_option kind len v out)
take_option-Bounded kind len v out (h, u) =
    ground (arith, sack_loop-le ((len - 2) / 8) v out.sack h)

if-Bounded : (b : Bool) (x y : ParsedOpts) → Bounded x → Bounded y → Bounded (if b then x else y)
if-Bounded true x y h u = h
if-Bounded false x y h u = u

parse_loop-Bounded :
    (fuel : ℕ) (bs : List ℕ) (out : ParsedOpts) → Bounded out → Bounded (parse_loop fuel bs out)
unfolding parse_loop
parse_loop-Bounded zero bs out h = h
parse_loop-Bounded (suc fuel) [] out h = h
parse_loop-Bounded (suc fuel) (kind ∷ bs) out h =
    let read = take_option kind (get_or bs 0 0) (drop 1 bs) out in
    let skip = parse_loop fuel bs out in
    let next = parse_loop fuel (after_option bs) read in
    if-Bounded (kind == opt_eol) out
      (if kind == opt_nop then skip else if option_fits bs then next else out) h
      (if-Bounded (kind == opt_nop) skip (if option_fits bs then next else out)
        (parse_loop-Bounded fuel bs out h)
        (if-Bounded (option_fits bs) next out
          (parse_loop-Bounded fuel (after_option bs) read
            (take_option-Bounded kind (get_or bs 0 0) (drop 1 bs) out h))
          h))

abbrev pub ParsedSafely : Option ParsedOpts → Type 0
ParsedSafely none = 0 ≤ 0
ParsedSafely (some out) = Bounded out

-- Whatever the data offset and the bytes that follow the header, a successful `tcp_options_parse`
-- stores at most the four SACK blocks that its array has room for, and a window scale of at most 14.
pub parse-ParsedSafely : (data_off : ℕ) (bytes : List ℕ) → ParsedSafely (parse data_off bytes)
unfolding parse
parse-ParsedSafely data_off bytes =
    let opts = take ((data_off / 2 ^ 4 % 2 ^ 4 - 5) * 4) bytes in
    elim (Bool-cases (ltb (data_off / 2 ^ 4 % 2 ^ 4) 5)) [
      | inl short ↦ rw short (omega arith)
      | inr long ↦
          rw long (parse_loop-Bounded (length opts) opts no_opts (omega arith, omega arith))
    ]
