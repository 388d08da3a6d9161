-- ===== src/Options.antt =====
-- TCP options, vaigAI/src/net/tcp_options.c: the parser of a segment's options, and what writes those
-- of a SYN and of a data segment. `<<` and `|` of bytes that do not overlap are written with * and +.
pub mod Parse
pub mod RoundTrip
use ai_pattarai.Common.{
  ℕ, zero, suc, ◌+◌, ◌-◌, ◌*◌, ◌/◌, ◌%◌, ◌^◌, Bool, true, false, ◌&&◌, ◌||◌, not, ltb, leb, ◌==◌,
  if◌then◌else◌, Option, none, some, List, [], ◌∷◌, ◌++◌, length, get_or, take, drop, u8,
}

abbrev pub opt_eol : ℕ
opt_eol = 0

abbrev pub opt_nop : ℕ
opt_nop = 1

abbrev pub opt_mss : ℕ
opt_mss = 2

abbrev pub opt_window_scale : ℕ
opt_window_scale = 3

abbrev pub opt_sack_perm : ℕ
opt_sack_perm = 4

abbrev pub opt_sack : ℕ
opt_sack = 5

abbrev pub opt_timestamp : ℕ
opt_timestamp = 8

pub record SackBlock : Type 0 where
  pub left : ℕ
  pub right : ℕ

-- `sack_count` is the length of `sack`.
pub record ParsedOpts : Type 0 where
  pub mss : ℕ
  pub wscale : ℕ
  pub has_mss : Bool
  pub has_wscale : Bool
  pub has_sack_perm : Bool
  pub has_timestamps : Bool
  pub ts_val : ℕ
  pub ts_ecr : ℕ
  pub sack : List SackBlock

abbrev pub no_opts : ParsedOpts
no_opts = record {
  mss = 0;
  wscale = 0;
  has_mss = false;
  has_wscale = false;
  has_sack_perm = false;
  has_timestamps = false;
  ts_val = 0;
  ts_ecr = 0;
  sack = [];
}

abbrev pub be16 : List ℕ → ℕ → ℕ
be16 v i = get_or v i 0 * 2 ^ 8 + get_or v (i + 1) 0

abbrev pub be32 : List ℕ → ℕ → ℕ
be32 v i = be16 v i * 2 ^ 16 + be16 v (i + 2)

-- The loop over the blocks of a SACK option, with the rounds left and the blocks from `v` on.
abbrev pub sack_loop : ℕ → List ℕ → List SackBlock → List SackBlock
sack_loop zero v sack = sack
sack_loop (suc rounds) v sack =
    let rest =
      sack_loop rounds (drop 8 v) (sack ++ (record { left = be32 v 0; right = be32 v 4 } ∷ [])) in
    if ltb (length sack) 4 then rest else sack

-- The `switch` on an option of kind `kind` and length `len`, with its value at `v`.
abbrev pub take_option : ℕ → ℕ → List ℕ → ParsedOpts → ParsedOpts
take_option kind len v out =
    if kind == opt_mss
    then (if len == 4 then record out { mss = be16 v 0; has_mss = true } else out)
    else if kind == opt_window_scale
    then (if len == 3
        then record out {
          wscale = (if ltb 14 (get_or v 0 0) then 14 else get_or v 0 0);
          has_wscale = true;
        }
        else out)
    else if kind == opt_sack_perm
    then record out { has_sack_perm = true }
    else if kind == opt_timestamp
    then (if len == 10
        then record out { ts_val = be32 v 0; ts_ecr = be32 v 4; has_timestamps = true }
        else out)
    else if kind == opt_sack
    then (if leb 10 len && ltb (length out.sack) 4
        then record out { sack = sack_loop ((len - 2) / 8) v out.sack }
        else out)
    else out

-- The rest of an option after its kind: its length is missing, wrong, or right.
abbrev pub option_fits : List ℕ → Bool
option_fits [] = false
option_fits (len ∷ v) = not (ltb len 2 || ltb (length v) (len - 2))

abbrev pub after_option : List ℕ → List ℕ
after_option bs = drop (get_or bs 0 0 - 1) bs

-- The loop on the bytes from `p` to `end`, on fuel; it takes at least one byte a round.
unfoldable pub parse_loop : ℕ → List ℕ → ParsedOpts → ParsedOpts
parse_loop zero bs out = out
parse_loop (suc fuel) [] out = out
parse_loop (suc fuel) (kind ∷ bs) out =
    let skip = parse_loop fuel bs out in
    let next =
      parse_loop fuel (after_option bs) (take_option kind (get_or bs 0 0) (drop 1 bs) out) in
    if kind == opt_eol
    then out
    else if kind == opt_nop
    then skip
    else if option_fits bs
    then next
    else out

-- `data_off` is the header's byte, `bytes` what follows the header; nothing for -1.
unfoldable pub parse : ℕ → List ℕ → Option ParsedOpts
unfolding parse_loop
parse data_off bytes =
    let doff = data_off / 2 ^ 4 % 2 ^ 4 in
    let opts = take ((doff - 5) * 4) bytes in
    if ltb doff 5 then none else some (parse_loop (length opts) opts no_opts)

-- What has been written to `buf`, the bytes that remain, and whether `goto done` was taken.
pub record Writer : Type 0 where
  pub written : List ℕ
  pub remaining : ℕ
  pub done : Bool

-- `if (wanted) { NEED(n); p[0] = ...; p += n; }`, with the n bytes.
abbrev pub emit : Bool → List ℕ → Writer → Writer
emit wanted bs w =
    if w.done || not wanted
    then w
    else if ltb w.remaining (length bs)
    then record w { done = true }
    else record w { written = w.written ++ bs; remaining = w.remaining - length bs }

-- The loop at `done`; four rounds are enough.
abbrev pub pad : ℕ → Writer → List ℕ
pad zero w = w.written
pad (suc fuel) w =
    let rest =
      pad fuel (record w { written = w.written ++ (opt_nop ∷ []); remaining = w.remaining - 1 }) in
    if length w.written % 4 == 0 || w.remaining == 0 then w.written else rest

abbrev pub put16 : ℕ → List ℕ
put16 x = u8 (x / 2 ^ 8) ∷ u8 x ∷ []

abbrev pub put32 : ℕ → List ℕ
put32 x = u8 (x / 2 ^ 24) ∷ u8 (x / 2 ^ 16) ∷ u8 (x / 2 ^ 8) ∷ u8 x ∷ []

-- The bytes written to `buf`; the C function returns their number.
unfoldable pub write_syn : ℕ → ℕ → ℕ → Bool → Bool → ℕ → ℕ → List ℕ
write_syn bufsz mss wscale sack_perm timestamps ts_val ts_ecr =
    let w0 : Writer = record { written = []; remaining = bufsz; done = false } in
    let w1 = emit true (opt_mss ∷ 4 ∷ put16 mss) w0 in
    let w2 = emit sack_perm (opt_sack_perm ∷ 2 ∷ []) w1 in
    let w3 = emit timestamps (opt_timestamp ∷ 10 ∷ put32 ts_val ++ put32 ts_ecr) w2 in
    let w4 = emit true (opt_nop ∷ opt_window_scale ∷ 3 ∷ wscale ∷ []) w3 in pad 4 w4

abbrev pub put_blocks : ℕ → List SackBlock → List ℕ
put_blocks zero bs = []
put_blocks (suc n) [] = []
put_blocks (suc n) (b ∷ bs) = put32 b.left ++ put32 b.right ++ put_blocks n bs

-- `sack` is the array, of `sack_count` blocks; a null pointer is the empty list.
unfoldable pub write_data : ℕ → Bool → ℕ → ℕ → List SackBlock → List ℕ
write_data bufsz timestamps ts_val ts_ecr sack =
    let w0 : Writer = record { written = []; remaining = bufsz; done = false } in
    let w1 =
      emit timestamps (opt_nop ∷ opt_nop ∷ opt_timestamp ∷ 10 ∷ put32 ts_val ++ put32 ts_ecr) w0 in
    let n = if ltb 4 (length sack) then 4 else length sack in
    let w2 =
      emit (ltb 0 (length sack)) (opt_nop ∷ opt_nop ∷ opt_sack ∷ u8 (2 + n * 8) ∷ put_blocks n sack)
        w1 in
    pad 4 w2
