-- ===== src/Options/RoundTrip.antt =====
-- The parser reads back what is written.
use ai_pattarai.Common.{
  ℕ, ◌+◌, ◌*◌, ◌/◌, ◌^◌, ◌≤◌, ◌<◌, ◌≡◌, refl, arith, Bool, true, false, ltb, if◌then◌else◌, some,
  List, [], ◌∷◌, length, u8,
}
use ai_pattarai.Options.{ParsedOpts, SackBlock, no_opts, parse, write_syn, write_data}

be16-put16 : (x : ℕ) → x < 2 ^ 16 → u8 (x / 2 ^ 8) * 2 ^ 8 + u8 x ≡ x
be16-put16 x h = omega arith

be32-put32 :
    (x : ℕ)
    → x < 2 ^ 32
    → (u8 (x / 2 ^ 24) * 2 ^ 8 + u8 (x / 2 ^ 16)) * 2 ^ 16 + (u8 (x / 2 ^ 8) * 2 ^ 8 + u8 x) ≡ x
be32-put32 x h = omega arith

-- The data offset byte of a segment with these options.
abbrev pub data_off_of : List ℕ → ℕ
data_off_of opts = (5 + length opts / 4) * 2 ^ 4

abbrev pub syn_opts : ℕ → ℕ → Bool → Bool → ℕ → ℕ → ParsedOpts
syn_opts mss wscale sack_perm timestamps ts_val ts_ecr = record {
  mss = mss;
  wscale = (if ltb 14 wscale then 14 else wscale);
  has_mss = true;
  has_wscale = true;
  has_sack_perm = sack_perm;
  has_timestamps = timestamps;
  ts_val = (if timestamps then ts_val else 0);
  ts_ecr = (if timestamps then ts_ecr else 0);
  sack = [];
}

module _ (mss ts_val ts_ecr : ℕ) (a : mss < 2 ^ 16) (b : ts_val < 2 ^ 32)
    (c : ts_ecr < 2 ^ 32) where
  -- What `tcp_options_write_syn` writes into the 40 bytes that its caller has, `tcp_options_parse`
  -- reads back, for every choice of options: the MSS, both timestamps, and the window scale up to 14.
  pub parse-write_syn :
      (wscale : ℕ) (sack_perm timestamps : Bool)
      → let opts = write_syn 40 mss wscale sack_perm timestamps ts_val ts_ecr in
        parse (data_off_of opts) opts
        ≡ some (syn_opts mss wscale sack_perm timestamps ts_val ts_ecr)
  unfolding parse write_syn
  parse-write_syn wscale true true =
      rw (be16-put16 mss a, be32-put32 ts_val b, be32-put32 ts_ecr c) refl
  parse-write_syn wscale true false = rw (be16-put16 mss a) refl
  parse-write_syn wscale false true =
      rw (be16-put16 mss a, be32-put32 ts_val b, be32-put32 ts_ecr c) refl
  parse-write_syn wscale false false = rw (be16-put16 mss a) refl

abbrev pub data_opts : Bool → ℕ → ℕ → List SackBlock → ParsedOpts
data_opts timestamps ts_val ts_ecr sack = record no_opts {
  has_timestamps = timestamps;
  ts_val = (if timestamps then ts_val else 0);
  ts_ecr = (if timestamps then ts_ecr else 0);
  sack = sack;
}

-- The edges of every block are 32-bit numbers.
abbrev pub Blocks : List SackBlock → Type 0
Blocks [] = Unit {0}
Blocks (x ∷ xs) = (x.left < 2 ^ 32) × (x.right < 2 ^ 32) × Blocks xs

module _ (ts_val ts_ecr : ℕ) (b : ts_val < 2 ^ 32) (c : ts_ecr < 2 ^ 32) where
  -- What `tcp_options_write_data` writes into the 40 bytes that its caller has, for up to three SACK
  -- blocks and with or without timestamps, `tcp_options_parse` reads back.
  pub parse-write_data :
      (timestamps : Bool) (sack : List SackBlock)
      → Blocks sack
      → length sack ≤ 3
      → let opts = write_data 40 timestamps ts_val ts_ecr sack in
        parse (data_off_of opts) opts ≡ some (data_opts timestamps ts_val ts_ecr sack)
  unfolding parse write_data
  parse-write_data true [] h l = rw (be32-put32 ts_val b, be32-put32 ts_ecr c) refl
  parse-write_data false [] h l = refl
  parse-write_data true (x ∷ []) (p, q, h) l =
      rw (be32-put32 ts_val b, be32-put32 ts_ecr c, be32-put32 x.left p, be32-put32 x.right q) refl
  parse-write_data false (x ∷ []) (p, q, h) l = rw (be32-put32 x.left p, be32-put32 x.right q) refl
  parse-write_data true (x ∷ y ∷ []) (p, q, (r, s, h)) l =
      rw
        (
          be32-put32 ts_val b,
          be32-put32 ts_ecr c,
          be32-put32 x.left p,
          be32-put32 x.right q,
          be32-put32 y.left r,
          be32-put32 y.right s,
        )
        refl
  parse-write_data false (x ∷ y ∷ []) (p, q, (r, s, h)) l =
      rw (be32-put32 x.left p, be32-put32 x.right q, be32-put32 y.left r, be32-put32 y.right s) refl
  parse-write_data true (x ∷ y ∷ z ∷ []) (p, q, (r, s, (t, u, h))) l =
      rw
        (
          be32-put32 ts_val b,
          be32-put32 ts_ecr c,
          be32-put32 x.left p,
          be32-put32 x.right q,
          be32-put32 y.left r,
          be32-put32 y.right s,
          be32-put32 z.left t,
          be32-put32 z.right u,
        )
        refl
  parse-write_data false (x ∷ y ∷ z ∷ []) (p, q, (r, s, (t, u, h))) l =
      rw
        (
          be32-put32 x.left p,
          be32-put32 x.right q,
          be32-put32 y.left r,
          be32-put32 y.right s,
          be32-put32 z.left t,
          be32-put32 z.right u,
        )
        refl
  parse-write_data timestamps (x ∷ y ∷ z ∷ w ∷ ws) h l = absurd (omega arith)
