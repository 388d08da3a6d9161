-- ===== src/Arp/Keys.antt =====
-- What the cache relies on from `rte_hash`, and a table that keeps it.
use ai_pattarai.Common.{ℕ, ◌<◌, ◌≡◌, ◌≢◌, some}
use ai_pattarai.Arp.{KeyTable, cache_size}

-- The documented behaviour of `rte_hash_add_key` and `rte_hash_lookup`: a key that was added is found
-- at the index returned, other keys are found as before, a key that is there keeps its index, no two
-- keys share one, and the indices are below the number of entries.
pub record Lawful (k : KeyTable) : Type 0 where
  pub find-add_key :
      (t : k.Table) (ip i : ℕ) → (k.add_key t ip).0 ≡ some i → k.find (k.add_key t ip).1 ip ≡ some i
  pub find-add_key_ne :
      (t : k.Table) (ip other : ℕ) → ip ≢ other → k.find (k.add_key t ip).1 other ≡ k.find t other
  pub find_distinct :
      (t : k.Table) (ip other i : ℕ) → k.find t ip ≡ some i → k.find t other ≡ some i → ip ≡ other
  pub find-lt : (t : k.Table) (ip i : ℕ) → k.find t ip ≡ some i → i < cache_size
