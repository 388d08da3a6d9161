-- ===== src/Tests/Neighbours.antt =====
-- A concrete ARP cache, over a table for one key.
use ai_pattarai.Common.{
  ℕ, ◌<◌, ◌≡◌, ◌≢◌, refl, true, ◌==◌, if◌then◌else◌, Option, none, some, List, [], ◌∷◌, arith,
  replicate, length-replicate,
}
use ai_pattarai.Arp.{
  KeyTable, ArpPort, ArpFrame, reply, resolved, stale, cache_size, zero_entry, entry_at, lookup,
  mgmt_process, send_request,
}
use ai_pattarai.Arp.Keys.{Lawful}
use ai_pattarai.Arp.Cache.{IsFull, lookup-reply-request}
use ai_pattarai.Arp.Ticks.{Tick, ticks, probes}
use ai_pattarai.Arp.Stale.{stale_for_good}

abbrev one_add : Option ℕ → ℕ → Option ℕ × Option ℕ
one_add none ip = (some 0, some ip)
one_add (some x) ip = if x == ip then (some 0, some x) else (none, some x)

abbrev one_find : Option ℕ → ℕ → Option ℕ
one_find none ip = none
one_find (some x) ip = if x == ip then some 0 else none

abbrev one_key : KeyTable
one_key = record { Table = Option ℕ; add_key = one_add; find = one_find }

one_find-add :
    (t : Option ℕ) (ip i : ℕ) → (one_add t ip).0 ≡ some i → one_find (one_add t ip).1 ip ≡ some i
one_find-add none ip i h = ground arith
one_find-add (some x) ip i h = ground arith

one_find-add_ne :
    (t : Option ℕ) (ip other : ℕ) → ip ≢ other → one_find (one_add t ip).1 other ≡ one_find t other
one_find-add_ne none ip other h = ground arith
one_find-add_ne (some x) ip other h = ground arith

one_find_distinct :
    (t : Option ℕ) (ip other i : ℕ)
    → one_find t ip ≡ some i
    → one_find t other ≡ some i
    → ip ≡ other
one_find_distinct none ip other i h u = ground arith
one_find_distinct (some x) ip other i h u = ground arith

one_find-lt : (t : Option ℕ) (ip i : ℕ) → one_find t ip ≡ some i → i < cache_size
one_find-lt none ip i h = ground arith
one_find-lt (some x) ip i h = ground arith

one_key-Lawful : Lawful one_key
one_key-Lawful = record {
  find-add_key = one_find-add;
  find-add_key_ne = one_find-add_ne;
  find_distinct = one_find_distinct;
  find-lt = one_find-lt;
}

abbrev idle_port : ArpPort one_key
idle_port = record {
  table = none;
  entries = replicate cache_size zero_entry;
  local_ip = 1;
  gateway_ip = 0;
  netmask = 0;
}

idle_port-IsFull : IsFull one_key one_key-Lawful idle_port
idle_port-IsFull = length-replicate cache_size zero_entry

abbrev from_peer : ArpFrame
from_peer = record { op = reply; sender_ip = 2; sender_mac = 0xaabbcc; target_ip = 1 }

lookup-reply-request_example :
    let a' =
      (mgmt_process one_key (send_request one_key idle_port true 2).0 100 7 true from_peer).0 in
    lookup one_key a' 2
    ≡ (if from_peer.sender_ip == 2 then some 0xaabbcc else lookup one_key idle_port 2)
lookup-reply-request_example =
    lookup-reply-request one_key one_key-Lawful idle_port 100 7 0 true from_peer idle_port-IsFull
      refl refl 2

abbrev about_to_expire : ArpPort one_key
about_to_expire = record idle_port {
  table = some 3;
  entries = record zero_entry { mac = 5; state = resolved; expire_tsc = 1000 } ∷ [];
}

-- Before the first tick a frame from another address is in the ring.
abbrev two_ticks : List Tick
two_ticks =
    record { now = 800; queue = record { at = 800; mbuf = true; frame = from_peer } ∷ [] }
    ∷ record { now = 900; queue = [] }
    ∷ []

stale_for_good_example :
    let (a', sent) = ticks one_key 10 two_ticks about_to_expire in
    (lookup one_key a' 3 ≡ none)
    × (entry_at one_key a' 0 ≡ record (entry_at one_key about_to_expire 0) { state = stale })
    × (probes sent ≡ 0)
stale_for_good_example =
    stale_for_good one_key one_key-Lawful 3 0 10
      (record { now = 800; queue = record { at = 800; mbuf = true; frame = from_peer } ∷ [] })
      (record { now = 900; queue = [] } ∷ []) about_to_expire refl refl refl refl
