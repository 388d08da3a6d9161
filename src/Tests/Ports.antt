-- ===== src/Tests/Ports.antt =====
-- Concrete inputs for the port pool.
use ai_pattarai.Common.{ℕ, ◌≡◌, refl, some, arith, length-replicate}
use ai_pattarai.PortPool.{
  WorkerPool, find_pool, ctz, tw_ring_size, no_entry, init, ip_pool_get, alloc, free,
  free_immediate, tick, bm_find_next, ip_slot,
}
use ai_pattarai.PortPool.Scan.{Nearest, bm_find_next-Nearest}
use ai_pattarai.PortPool.Pools.{IsValid, available}
use ai_pattarai.PortPool.Alloc.{Allocated, alloc-Allocated, free_immediate-alloc}
use ai_pattarai.PortPool.Start.{init-IsValid}
use ai_pattarai.PortPool.Ring.{IsRing, Freed, free-Freed}
use ai_pattarai.PortPool.Ring.Tick.{Ticked, tick-Ticked}

abbrev pool0 : WorkerPool
pool0 = init 1000000000

pool0-IsValid : IsValid pool0
pool0-IsValid = init-IsValid 1000000000

pool0-IsRing : IsRing pool0
unfolding init
pool0-IsRing = record {
  ring_len = length-replicate tw_ring_size no_entry;
  head_in = omega arith;
  tail_in = omega arith;
  ports = tt;
}

abbrev client_ip : ℕ
client_ip = 0x0a000001

alloc-Allocated_example :
    IsValid (alloc pool0 client_ip).1 × Allocated pool0 client_ip (alloc pool0 client_ip)
alloc-Allocated_example = alloc-Allocated pool0 client_ip pool0-IsValid

first_port : alloc pool0 client_ip ≡ (some 10000, (alloc pool0 client_ip).1)
unfolding alloc init ip_pool_get find_pool bm_find_next ip_slot ctz
first_port = refl

free_immediate-alloc_example :
    available (free_immediate (alloc pool0 client_ip).1 client_ip 10000) client_ip 0
    ≡ available pool0 client_ip 0
free_immediate-alloc_example =
    free_immediate-alloc pool0 client_ip 10000 (alloc pool0 client_ip).1 pool0-IsValid first_port 0

free-Freed_example :
    Freed pool0 77 client_ip 10000 pool0-IsValid pool0-IsRing (free pool0 77 client_ip 10000)
free-Freed_example = free-Freed pool0 77 client_ip 10000 pool0-IsValid pool0-IsRing

-- Port 10000 is in TIME_WAIT.
abbrev pool1 : WorkerPool
pool1 = free pool0 77 client_ip 10000

tick-Ticked_example : Ticked 4000000077 pool1 (tick pool1 4000000077)
tick-Ticked_example = tick-Ticked pool1 4000000077 free-Freed_example.0 free-Freed_example.1

bm_find_next-Nearest_example : Nearest pool0.shared.map 49999 (bm_find_next pool0.shared.map 49999)
bm_find_next-Nearest_example =
    bm_find_next-Nearest pool0.shared.map 49999 pool0-IsValid.shared_pool.words (omega arith)
