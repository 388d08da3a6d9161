-- ===== src/SendBuffer.antt =====
-- The TCP send buffer of vaigAI/src/net/tcp_snd_buf.h and tcp_snd_buf.c: a linear array whose first
-- `len` bytes are the bytes from snd_una on.
pub mod Queue
use ai_pattarai.Common.{
  ℕ, ◌+◌, ◌-◌, Bool, List, [], ◌++◌, Option, none, some, length, take, drop, replicate, ltb, leb,
  ◌==◌, if◌then◌else◌, u32, sub32,
}

pub record SndBuf : Type 0 where
  pub bytes : List ℕ
  pub cap : ℕ
  pub len : ℕ
  pub base_seq : ℕ

abbrev pub default_cap : ℕ
default_cap = 65536

-- `memcpy(dst + off, src, length src)` inside the array `dst`.
abbrev pub blit : List ℕ → ℕ → List ℕ → List ℕ
blit dst off src = take off dst ++ (src ++ drop (off + length src) dst)

-- The two allocations either both succeed or the call returns NULL; `fits` is whether they do.
-- The contents of fresh memory are `garbage`, a list of `cap` bytes.
unfoldable pub alloc : (ℕ → Option (List ℕ)) → ℕ → Option SndBuf
alloc rte_malloc cap =
    let n = if cap == 0 then default_cap else cap in
    elim (rte_malloc n) [
      | none ↦ none
      | some mem ↦ some (record { bytes = mem; cap = n; len = 0; base_seq = 0 })
    ]

-- Returns the number of bytes appended and the buffer.
unfoldable pub append : SndBuf → List ℕ → ℕ → ℕ × SndBuf
append sb src len =
    let space = sub32 sb.cap sb.len in
    let n = if ltb space len then space else len in
    if n == 0
    then (0, sb)
    else (n, record sb { bytes = blit sb.bytes sb.len (take n src); len = u32 (sb.len + n) })

unfoldable pub ack : SndBuf → ℕ → SndBuf
ack sb acked =
    if leb sb.len acked
    then record sb { base_seq = u32 (sb.base_seq + sb.len); len = 0 }
    else record sb {
      bytes = blit sb.bytes 0 (take (sb.len - acked) (drop acked sb.bytes));
      base_seq = u32 (sb.base_seq + acked);
      len = sub32 sb.len acked;
    }

unfoldable pub unsent_len : SndBuf → ℕ → ℕ
unsent_len sb in_flight = if ltb in_flight sb.len then sub32 sb.len in_flight else 0
