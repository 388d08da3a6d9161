-- ===== src/Arp.antt =====
-- The ARP cache of one port, vaigAI/src/net/arp.c and arp.h. `now` is what `rte_rdtsc()` returns and
-- `hz` is `g_tsc_hz`; the lock and the log are left out, and frames sent are results.
pub mod Keys
pub mod Cache
pub mod Ticks
pub mod Stale
use ai_pattarai.Common.{
  ℕ, ◌+◌, ◌-◌, ◌*◌, Bool, true, false, ◌&&◌, ◌||◌, not, ltb, leb, ◌==◌, if◌then◌else◌, Option, none,
  some, List, [], ◌∷◌, ◌++◌, get_or, set, u8, u64, sub64, bit_and,
}

abbrev pub cache_size : ℕ
cache_size = 1024

abbrev pub cache_ttl_s : ℕ
cache_ttl_s = 300

abbrev pub probe_before_expiry : ℕ
probe_before_expiry = 30

abbrev pub max_probe_failures : ℕ
max_probe_failures = 2

-- `arp_state_t`
pub data ArpState : Type 0 where
  free pending resolved stale failed : ArpState

abbrev pub is_resolved : ArpState → Bool
is_resolved resolved = true
is_resolved _ = false

-- `arp_entry_t`; a packet on hold is a number.
pub record ArpEntry : Type 0 where
  pub mac : ℕ
  pub state : ArpState
  pub expire_tsc : ℕ
  pub fail_count : ℕ
  pub hold : List ℕ

abbrev pub zero_entry : ArpEntry
zero_entry = record { mac = 0; state = free; expire_tsc = 0; fail_count = 0; hold = [] }

-- DPDK's `rte_hash`: adding a key returns its index, the one it has already if it is there, or nothing
-- for a negative result; looking it up returns the index.
pub record KeyTable : Type 1 where
  pub Table : Type 0
  pub add_key : Table → ℕ → Option ℕ × Table
  pub find : Table → ℕ → Option ℕ

-- An ARP frame that arrives.
pub data Op : Type 0 where
  request reply other : Op

pub record ArpFrame : Type 0 where
  pub op : Op
  pub sender_ip : ℕ
  pub sender_mac : ℕ
  pub target_ip : ℕ

-- A frame in the ring from the workers: when `arp_mgmt_process` takes it, and whether there is memory
-- for a reply then.
pub record Queued : Type 0 where
  pub at : ℕ
  pub mbuf : Bool
  pub frame : ArpFrame

-- What goes out: a reply to an address, a request, or a packet that was on hold.
pub data Sent : Type 0 where
  reply_to : ℕ → ℕ → Sent
  request_for : ℕ → Sent
  held : ℕ → Sent

abbrev pub release_held : List ℕ → List Sent
release_held [] = []
release_held (p ∷ ps) = held p ∷ release_held ps

-- The four assignments that resolve an entry.
abbrev pub resolve : ℕ → ℕ → ℕ → ArpEntry → ArpEntry
resolve now hz mac e = record e {
  mac = mac;
  state = resolved;
  expire_tsc = u64 (now + hz * cache_ttl_s);
  fail_count = 0;
}

-- The body of the loop of `arp_mgmt_tick`.
unfoldable pub tick_entry : ℕ → ℕ → ArpEntry → ArpEntry
tick_entry now hz e =
    let probe_tsc = sub64 e.expire_tsc (u64 (hz * probe_before_expiry)) in
    let fails = u8 (e.fail_count + 1) in
    if not (is_resolved e.state)
    then e
    else if leb probe_tsc now && ltb now e.expire_tsc
    then record e { state = stale }
    else if leb e.expire_tsc now
    then record e {
      fail_count = fails;
      state = (if leb max_probe_failures fails then failed else e.state);
    }
    else e

abbrev tick_entries : ℕ → ℕ → List ArpEntry → List ArpEntry
tick_entries now hz [] = []
tick_entries now hz (e ∷ es) = tick_entry now hz e ∷ tick_entries now hz es

module _ (k : KeyTable) where
  -- `arp_state_t_port`
  pub record ArpPort : Type 0 where
    pub table : k.Table
    pub entries : List ArpEntry
    pub local_ip : ℕ
    pub gateway_ip : ℕ
    pub netmask : ℕ

  abbrev pub entry_at : ArpPort → ℕ → ArpEntry
  entry_at a i = get_or a.entries i zero_entry

  abbrev pub put_entry : ArpPort → ℕ → ArpEntry → ArpPort
  put_entry a i e = record a { entries = set a.entries i e }

  -- The cache after a request for our address, for the result of `rte_hash_add_key`.
  abbrev learn : ArpPort → ℕ → ℕ → ArpFrame → Option ℕ → ArpPort
  learn a now hz f none = a
  learn a now hz f (some i) = put_entry a i (resolve now hz f.sender_mac (entry_at a i))

  -- The cache and the packets sent after a reply, for the result of `rte_hash_lookup`.
  abbrev answered : ArpPort → ℕ → ℕ → ArpFrame → Option ℕ → ArpPort × List Sent
  answered a now hz f none = (a, [])
  answered a now hz f (some i) = (
    put_entry a i (record (resolve now hz f.sender_mac (entry_at a i)) { hold = [] }),
    release_held (entry_at a i).hold,
  )

  -- `arp_mgmt_process`; `mbuf` is whether there is memory for a reply.
  unfoldable pub mgmt_process : ArpPort → ℕ → ℕ → Bool → ArpFrame → ArpPort × List Sent
  mgmt_process a now hz mbuf f = elim f.op [
    | request ↦
        let (found, table') = k.add_key a.table f.sender_ip in
        if f.target_ip == a.local_ip
        then (
          learn (record a { table = table' }) now hz f found,
          (if mbuf then reply_to f.sender_mac f.sender_ip ∷ [] else []),
        )
        else (a, [])
    | reply ↦ answered a now hz f (k.find a.table f.sender_ip)
    | other ↦ (a, [])
  ]

  -- The loop that drains the ring of frames: the cache, and all that is sent, in order.
  unfoldable pub drain : ArpPort → ℕ → List Queued → ArpPort × List Sent
  drain a hz [] = (a, [])
  drain a hz (q ∷ qs) =
      let first = mgmt_process a q.at hz q.mbuf q.frame in
      let rest = drain first.0 hz qs in (rest.0, first.1 ++ rest.1)

  -- `arp_mgmt_tick` at one port, with the frames that its ring gives before it is empty.
  unfoldable pub mgmt_tick : ArpPort → ℕ → ℕ → List Queued → ArpPort × List Sent
  mgmt_tick a now hz queue =
      let drained = drain a hz queue in
      (record (drained.0) { entries = tick_entries now hz (drained.0).entries }, drained.1)

  abbrev found_mac : ArpPort → Option ℕ → Option ℕ
  found_mac a none = none
  found_mac a (some i) = if is_resolved (entry_at a i).state then some (entry_at a i).mac else none

  unfoldable pub lookup : ArpPort → ℕ → Option ℕ
  lookup a ip = found_mac a (k.find a.table ip)

  abbrev insert_pending : ArpPort → Option ℕ → ArpPort
  insert_pending a none = a
  insert_pending a (some i) =
      let e = entry_at a i in
      if is_resolved e.state
      then a
      else put_entry a i (record e { state = pending; hold = []; fail_count = 0 })

  -- `arp_request`: the cache, the frame sent, and whether it returns 0.
  unfoldable pub send_request : ArpPort → Bool → ℕ → ArpPort × List Sent × Bool
  send_request a mbuf ip =
      let (found, table') = k.add_key a.table ip in
      (
        insert_pending (record a { table = table' }) found,
        (if mbuf then request_for ip ∷ [] else []),
        mbuf,
      )

  unfoldable pub nexthop : ArpPort → ℕ → ℕ
  nexthop a dst =
      if a.gateway_ip == 0 || a.netmask == 0
      then dst
      else if bit_and dst a.netmask == bit_and a.local_ip a.netmask
      then dst
      else a.gateway_ip
