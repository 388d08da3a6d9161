-- ===== src/Arp/Cache.antt =====
-- What the cache answers after a request, a reply, and a frame for us.
use ai_pattarai.Common.{
  ℕ, ◌≡◌, ◌≢◌, refl, sym, ap, ◌∙◌, arith, Bool, false, ◌==◌, ==_iff, ==_false, if◌then◌else◌,
  Bool-cases, Option-cases, inl, inr, Option, none, some, [], length, length-set, get_or-set_self,
  get_or-set_ne,
}
use ai_pattarai.Arp.{
  KeyTable, ArpPort, ArpEntry, ArpFrame, pending, reply, cache_size, zero_entry, entry_at,
  put_entry, resolve, is_resolved, found_mac, lookup, mgmt_process, send_request,
}
use ai_pattarai.Arp.Keys.{Lawful}

module _ (k : KeyTable) (law : Lawful k) where
  -- The array has an entry for each index.
  abbrev pub IsFull : ArpPort k → Type 0
  IsFull a = length a.entries ≡ cache_size

  abbrev answer : ArpEntry → Option ℕ
  answer e = if is_resolved e.state then some e.mac else none

  -- Writing the entry of one address changes the answer for no other.
  lookup-put_entry :
      (a : ArpPort k) (ip i : ℕ) (e : ArpEntry)
      → IsFull a
      → k.find a.table ip ≡ some i
      → (other : ℕ)
      → lookup k (put_entry k a i e) other ≡ (if ip == other then answer e else lookup k a other)
  unfolding lookup
  lookup-put_entry a ip i e full at other = elim (Bool-cases (ip == other)) [
    | inl same ↦
        let here : k.find a.table other ≡ some i =
          ap (k.find a.table) (sym ((==_iff ip other).0 same)) ∙ at in
        rw (same, here)
          (ap answer (
            get_or-set_self a.entries i e zero_entry
              (omega (arith, full, law.find-lt a.table ip i at))))
    | inr differ ↦ rw differ (elim (Option-cases (k.find a.table other)) [
      | inl none' ↦ rw none' refl
      | inr (j, there) ↦
          let apart : i ≢ j = λ ij.
            ==_false ip other differ
              (law.find_distinct a.table ip other j (at ∙ ap (λ (x : ℕ). some x) ij) there) in
          rw there (ap answer (get_or-set_ne a.entries i j e zero_entry apart))
    ])
  ]

  -- A reply from an address that has an entry, because it was asked for or seen before, makes the
  -- cache answer with the sender's MAC; a reply that nobody asked for changes no answer, and neither
  -- changes the answer for another address.
  pub lookup-reply :
      (a : ArpPort k) (now hz : ℕ) (mbuf : Bool) (f : ArpFrame)
      → IsFull a
      → f.op ≡ reply
      → let a' = (mgmt_process k a now hz mbuf f).0 in
        (ip : ℕ)
        → lookup k a' ip ≡ elim (k.find a.table f.sender_ip) [
          | none ↦ lookup k a ip
          | some i ↦ if f.sender_ip == ip then some f.sender_mac else lookup k a ip
        ]
  unfolding mgmt_process
  lookup-reply a now hz mbuf f full is_reply ip =
      rw is_reply (elim (Option-cases (k.find a.table f.sender_ip)) [
        | inl unknown ↦ rw unknown refl
        | inr (i, known) ↦ rw known (
            lookup-put_entry a f.sender_ip i
              (record (resolve now hz f.sender_mac (entry_at k a i)) { hold = [] }) full known ip)
      ])

  -- A table with one more key, at index i.
  module _ (a : ArpPort k) (ip i : ℕ) (full : IsFull a)
      (added : (k.add_key a.table ip).0 ≡ some i) where
    abbrev grown : ArpPort k
    grown = record a { table = (k.add_key a.table ip).1 }

    lookup-grown : (other : ℕ) → ip ≢ other → lookup k grown other ≡ lookup k a other
    unfolding lookup
    lookup-grown other ne = ap (found_mac k a) (law.find-add_key_ne a.table ip other ne)

    abbrev marked : ArpEntry
    marked = record (entry_at k a i) { state = pending; hold = []; fail_count = 0 }

    asked : (mbuf : Bool) → ArpPort k
    asked mbuf = (send_request k a mbuf ip).0

    asked-eq :
        (mbuf : Bool)
        → asked mbuf
          ≡ (if is_resolved (entry_at k a i).state then grown else put_entry k grown i marked)
    unfolding asked send_request
    asked-eq mbuf = rw added refl

    asked-IsFull : (mbuf : Bool) → IsFull (asked mbuf)
    asked-IsFull mbuf = elim (Bool-cases (is_resolved (entry_at k a i).state)) [
      | inl r ↦ rw (asked-eq mbuf, r) full
      | inr n ↦ rw (asked-eq mbuf, n) (length-set a.entries i marked ∙ full)
    ]

    asked-find : (mbuf : Bool) → k.find (asked mbuf).table ip ≡ some i
    asked-find mbuf = elim (Bool-cases (is_resolved (entry_at k a i).state)) [
      | inl r ↦ rw (asked-eq mbuf, r) (law.find-add_key a.table ip i added)
      | inr n ↦ rw (asked-eq mbuf, n) (law.find-add_key a.table ip i added)
    ]

    lookup-asked :
        (mbuf : Bool) (other : ℕ)
        → (ip == other) ≡ false
        → lookup k (asked mbuf) other ≡ lookup k a other
    lookup-asked mbuf other ne = elim (Bool-cases (is_resolved (entry_at k a i).state)) [
      | inl r ↦ rw (asked-eq mbuf, r) (lookup-grown other (==_false ip other ne))
      | inr n ↦
          rw (asked-eq mbuf, n)
            ((rw ne at (
                lookup-put_entry grown ip i marked full (law.find-add_key a.table ip i added)
                  other))
              ∙ lookup-grown other (==_false ip other ne))
    ]

  -- After `arp_request` for an address that the table has room for, and a reply from that address, the
  -- cache answers it with the replier's MAC, and every other address as before both.
  pub lookup-reply-request :
      (a : ArpPort k) (now hz i : ℕ) (mbuf : Bool) (f : ArpFrame)
      → IsFull a
      → f.op ≡ reply
      → (k.add_key a.table f.sender_ip).0 ≡ some i
      → let a' = (mgmt_process k (send_request k a mbuf f.sender_ip).0 now hz mbuf f).0 in
        (ip : ℕ) → lookup k a' ip ≡ (if f.sender_ip == ip then some f.sender_mac else lookup k a ip)
  unfolding asked
  lookup-reply-request a now hz i mbuf f full is_reply added ip =
      let a1 = asked a f.sender_ip i full added mbuf in
      let known = asked-find a f.sender_ip i full added mbuf in
      let answers =
        lookup-reply a1 now hz mbuf f (asked-IsFull a f.sender_ip i full added mbuf) is_reply ip in
      (rw known at answers) ∙ (elim (Bool-cases (f.sender_ip == ip)) [
        | inl same ↦ rw same refl
        | inr differ ↦ rw differ (lookup-asked a f.sender_ip i full added mbuf ip differ)
      ])
