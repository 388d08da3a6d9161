-- ===== src/PortPool/Ring.antt =====
-- The TIME_WAIT ring is a queue: `tcp_port_free` puts an entry at its end, and `tcp_port_pool_tick`
-- takes the expired ones off its front.
pub mod Tick
use ai_pattarai.Common.{
  ℕ, zero, suc, ◌+◌, ◌-◌, ◌%◌, ◌^◌, ◌≤◌, ◌<◌, ◌≡◌, ◌≢◌, refl, sym, ap, ◌∙◌, subst, arith, Bool,
  true, false, not, ◌&&◌, ◌||◌, ltb, ltb→lt, ltb-ge, ◌==◌, ==_iff, ==_false, ==_self, ne→==_false,
  if◌then◌else◌, Bool-cases, inl, inr, List, [], ◌∷◌, ◌++◌, length, get_or, set, length-set,
  get_or-set_self, get_or-set_ne, u64, bit_and, bit_and_mask,
}
use ai_pattarai.PortPool.{
  ephem_lo, ephem_hi, ephem_cnt, tw_ring_size, tw_ring_mask, n_ip_slots, IpPool, TwEntry,
  WorkerPool, PoolRef, in_table, in_shared, no_pool, no_entry, deref, assign, ip_slot, find_pool,
  ip_pool_get, release, free, tick, tick_loop, outside, bm_set,
}
use ai_pattarai.PortPool.Pools.{IsValid, ip_pool_get-Got, available}
use ai_pattarai.PortPool.Alloc.{release_lem}
use ai_pattarai.PortPool.Rest.{with_pools, available_rest, release_rest}

-- n entries of the ring from i on, around its end
abbrev pub entries : List TwEntry → ℕ → ℕ → List TwEntry
entries ring i zero = []
entries ring i (suc n) = get_or ring i no_entry ∷ entries ring ((i + 1) % tw_ring_size) n

abbrev pub count : WorkerPool → ℕ
count wp = (wp.tw_tail + tw_ring_size - wp.tw_head) % tw_ring_size

-- The ports in TIME_WAIT, oldest first.
abbrev pub pending : WorkerPool → List TwEntry
pending wp = entries wp.tw_ring wp.tw_head (count wp)

abbrev pub Ports : List TwEntry → Type 0
Ports [] = Unit {0}
Ports (e ∷ es) = (ephem_lo ≤ e.port) × (e.port < ephem_hi) × Ports es

pub record IsRing (wp : WorkerPool) : Type 0 where
  pub ring_len : length wp.tw_ring ≡ tw_ring_size
  pub head_in : wp.tw_head < tw_ring_size
  pub tail_in : wp.tw_tail < tw_ring_size
  pub ports : Ports (pending wp)

entries-end :
    (ring : List TwEntry) (i n : ℕ)
    → i < tw_ring_size
    → entries ring i (suc n)
      ≡ entries ring i n ++ (get_or ring ((i + n) % tw_ring_size) no_entry ∷ [])
entries-end ring i zero h = ap (λ (k : ℕ). get_or ring k no_entry ∷ []) (omega arith)
entries-end ring i (suc n) h =
    ap (λ (es : List TwEntry). get_or ring i no_entry ∷ es)
      (entries-end ring ((i + 1) % tw_ring_size) n (omega arith)
        ∙ ap (λ (k : ℕ). entries ring ((i + 1) % tw_ring_size) n ++ (get_or ring k no_entry ∷ []))
            (omega arith))

entries-set :
    (ring : List TwEntry) (i n p : ℕ) (e : TwEntry)
    → ((k : ℕ) → k < n → (i + k) % tw_ring_size ≢ p)
    → i < tw_ring_size
    → entries (set ring p e) i n ≡ entries ring i n
entries-set ring i zero p e h l = refl
entries-set ring i (suc n) p e h l =
    ap (λ (x : TwEntry). x ∷ entries (set ring p e) ((i + 1) % tw_ring_size) n)
      (get_or-set_ne ring p i e no_entry (λ q. h 0 (omega arith) (omega arith)))
    ∙ ap (λ (es : List TwEntry). get_or ring i no_entry ∷ es)
        (entries-set ring ((i + 1) % tw_ring_size) n p e
          (λ k u q. h (k + 1) (omega arith) (omega arith)) (omega arith))

Ports-end :
    (es : List TwEntry) (e : TwEntry)
    → Ports es
    → ephem_lo ≤ e.port
    → e.port < ephem_hi
    → Ports (es ++ (e ∷ []))
Ports-end [] e h l u = (l, u, tt)
Ports-end (x ∷ es) e (a, b, h) l u = (a, b, Ports-end es e h l u)

-- What a release leaves as it is.
module _ (wp : WorkerPool) (ip port : ℕ) (v : IsValid wp) where
  assign_keeps :
      (w : WorkerPool) (ref : PoolRef) (p : IpPool) → assign w ref p ≡ with_pools w (assign w ref p)
  assign_keeps w (in_table s) p = refl
  assign_keeps w in_shared p = refl

  pub release_keeps : release wp ip port ≡ with_pools wp (release wp ip port)
  release_keeps =
      let (ref, wp1) = ip_pool_get wp ip in
      let p = record (deref wp1 ref) { map = bm_set (deref wp1 ref).map (port - ephem_lo) } in
      assign_keeps wp1 ref p
      ∙ ap (λ (w : WorkerPool). with_pools w (assign wp1 ref p)) (ip_pool_get-Got wp ip v).3

  pub release_ring :
      ((release wp ip port).tw_ring ≡ wp.tw_ring)
      × ((release wp ip port).tw_head ≡ wp.tw_head)
      × ((release wp ip port).tw_tail ≡ wp.tw_tail)
  release_ring = (
    ap (λ (w : WorkerPool). w.tw_ring) release_keeps,
    ap (λ (w : WorkerPool). w.tw_head) release_keeps,
    ap (λ (w : WorkerPool). w.tw_tail) release_keeps,
  )

-- The next position, as the code computes it.
pub next_pos : (i : ℕ) → bit_and (i + 1) tw_ring_mask ≡ (i + 1) % tw_ring_size
next_pos i = bit_and_mask 16 (i + 1)

abbrev pub hold_entry : WorkerPool → ℕ → ℕ → ℕ → TwEntry
hold_entry wp now ip port = record {
  src_ip = ip;
  port = port;
  release_tsc = u64 (now + wp.tw_hold_tsc);
}

module _ (wp : WorkerPool) (now ip port : ℕ) (v : IsValid wp) (r : IsRing wp) where
  abbrev full : Bool
  full = count wp == tw_ring_size - 1

  pushed :
      outside port ≡ false
      → full ≡ false
      → free wp now ip port ≡ record wp {
        tw_ring = set wp.tw_ring wp.tw_tail (hold_entry wp now ip port);
        tw_tail = (wp.tw_tail + 1) % tw_ring_size;
      }
  unfolding free
  pushed inside room =
      let open_ : ((wp.tw_tail + 1) % tw_ring_size == wp.tw_head) ≡ false =
        ne→==_false ((wp.tw_tail + 1) % tw_ring_size) wp.tw_head
          (omega (arith, r.head_in, r.tail_in, ==_false (count wp) (tw_ring_size - 1) room)) in
      rw (inside, next_pos wp.tw_tail, open_) refl

  released : outside port ≡ false → full ≡ true → free wp now ip port ≡ release wp ip port
  unfolding free
  released inside no_room =
      let closed : ((wp.tw_tail + 1) % tw_ring_size == wp.tw_head) ≡ true =
        (==_iff ((wp.tw_tail + 1) % tw_ring_size) wp.tw_head).1
          (omega (arith, r.head_in, r.tail_in, (==_iff (count wp) (tw_ring_size - 1)).0 no_room)) in
      rw (inside, next_pos wp.tw_tail, closed) refl

  ignored : outside port ≡ true → free wp now ip port ≡ wp
  unfolding free
  ignored out = rw out refl

  -- A push keeps the entries and adds one.
  pushed-pending :
      full ≡ false
      → entries (set wp.tw_ring wp.tw_tail (hold_entry wp now ip port)) wp.tw_head (suc (count wp))
        ≡ pending wp ++ (hold_entry wp now ip port ∷ [])
  pushed-pending room =
      let e = hold_entry wp now ip port in
      let ring' = set wp.tw_ring wp.tw_tail e in
      let end : (wp.tw_head + count wp) % tw_ring_size ≡ wp.tw_tail =
        omega (arith, r.head_in, r.tail_in) in
      let at : get_or ring' ((wp.tw_head + count wp) % tw_ring_size) no_entry ≡ e =
        rw end (
          get_or-set_self wp.tw_ring wp.tw_tail e no_entry
            (omega (arith, r.ring_len, r.tail_in))) in
      entries-end ring' wp.tw_head (count wp) r.head_in
      ∙ ap (λ (x : TwEntry). entries ring' wp.tw_head (count wp) ++ (x ∷ [])) at
      ∙ ap (λ (es : List TwEntry). es ++ (e ∷ []))
          (entries-set wp.tw_ring wp.tw_head (count wp) wp.tw_tail e
            (λ k u q. absurd (omega (arith, r.head_in, r.tail_in))) r.head_in)

  pushed-count :
      full ≡ false
      → ((wp.tw_tail + 1) % tw_ring_size + tw_ring_size - wp.tw_head) % tw_ring_size
        ≡ suc (count wp)
  pushed-count room =
      omega (arith, r.head_in, r.tail_in, ==_false (count wp) (tw_ring_size - 1) room)

  release_same_ring : IsRing (release wp ip port) × (pending (release wp ip port) ≡ pending wp)
  release_same_ring =
      let (a, b, c) = release_ring wp ip port v in
      let same : pending (release wp ip port) ≡ pending wp = rw (a, b, c) refl in
      (
        record {
          ring_len = ap (λ (l : List TwEntry). length l) a ∙ r.ring_len;
          head_in = omega (arith, b, r.head_in);
          tail_in = omega (arith, c, r.tail_in);
          ports = subst Ports (sym same) r.ports;
        },
        same,
      )

  -- The specification of `tcp_port_free`: what is in TIME_WAIT, and what is available, afterwards.
  abbrev pub Freed : WorkerPool → Type 0
  Freed wp' =
      IsValid wp'
      × IsRing wp'
      × (pending wp' ≡ (
          if outside port || full
          then pending wp
          else pending wp ++ (hold_entry wp now ip port ∷ [])))
      × ((q : ℕ)
          → available wp' ip q
            ≡ (if not (outside port) && full && port - ephem_lo == q then 1 else available wp ip q))

  inside-range : outside port ≡ false → (ephem_lo ≤ port) × (port < ephem_hi)
  inside-range e = ground arith

  pushed-Freed : outside port ≡ false → full ≡ false → Freed (free wp now ip port)
  pushed-Freed inside room =
      let (lo, hi) = inside-range inside in
      let wp' = record wp {
        tw_ring = set wp.tw_ring wp.tw_tail (hold_entry wp now ip port);
        tw_tail = (wp.tw_tail + 1) % tw_ring_size;
      } in
      let more : pending wp' ≡ pending wp ++ (hold_entry wp now ip port ∷ []) =
        ap (λ (n : ℕ). entries (set wp.tw_ring wp.tw_tail (hold_entry wp now ip port)) wp.tw_head n)
          (pushed-count room)
        ∙ pushed-pending room in
      rw (pushed inside room, inside, room)
        (
          record { table_len = v.table_len; table = v.table; shared_pool = v.shared_pool },
          record {
            ring_len = length-set wp.tw_ring wp.tw_tail (hold_entry wp now ip port) ∙ r.ring_len;
            head_in = r.head_in;
            tail_in = omega arith;
            ports =
                subst Ports (sym more)
                  (Ports-end (pending wp) (hold_entry wp now ip port) r.ports lo hi);
          },
          more,
          λ q. available_rest wp' wp ip q,
        )

  -- `tcp_port_free` ignores a port outside the range. Otherwise it puts the port behind those in
  -- TIME_WAIT, due `tw_hold_tsc` later, and makes nothing available; when the ring is full, it makes
  -- that port available at once instead. The pool and the ring stay valid.
  pub free-Freed : Freed (free wp now ip port)
  free-Freed = elim (Bool-cases (outside port)) [
    | inl out ↦ rw (ignored out, out) (v, r, refl, λ q. refl)
    | inr inside ↦ elim (Bool-cases full) [
      | inr room ↦ pushed-Freed inside room
      | inl no_room ↦
          let (lo, hi) = inside-range inside in
          let (valid, bits) = release_lem wp ip v port lo hi in
          let (ring, same) = release_same_ring in
          rw (released inside no_room, inside, no_room) (valid, ring, same, bits)
    ]
  ]

pub take_while {ℓ} : {A : Type ℓ} → (A → Bool) → List A → List A
take_while p [] = []
take_while p (x ∷ xs) = let rest = take_while p xs in if p x then x ∷ rest else []

pub drop_while {ℓ} : {A : Type ℓ} → (A → Bool) → List A → List A
drop_while p [] = []
drop_while p (x ∷ xs) = let rest = drop_while p xs in if p x then rest else x ∷ xs

-- The hold-off of the entry is over.
abbrev pub expired : ℕ → TwEntry → Bool
expired now e = not (ltb now e.release_tsc)

-- The ports of the entries made available, in order.
pub release_all : List TwEntry → WorkerPool → WorkerPool
release_all [] wp = wp
release_all (e ∷ es) wp = release_all es (release wp e.src_ip e.port)

pub release_all_rest :
    (es : List TwEntry) (r w : WorkerPool)
    → release_all es (with_pools r w) ≡ with_pools r (release_all es w)
unfolding release_all
release_all_rest [] r w = refl
release_all_rest (e ∷ es) r w =
    ap (release_all es) (release_rest r w e.src_ip e.port)
    ∙ release_all_rest es r (release w e.src_ip e.port)
