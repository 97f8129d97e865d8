-- ===== src/Net/Arp/Cache.antt =====
-- What is in the ARP cache after an entry was added.
use spike_os.Prelude.{
  ℕ, zero, suc, ◌+◌, ◌≤◌, ◌<◌, ◌≡◌, true, false, ◌==◌, if◌then◌else◌, some, arith, ◌∙◌, ap, sym,
  length, get_or-set,
}
use mathlib.Core.Path.{subst}
use spike_os.Prelude.Search.{search, Found, found, missing, search-Found, search-first}
use spike_os.Net.{Bytes}
use spike_os.Net.Arp.{
  ArpEntry, ArpCache, zero_entry, arp_at, is_entry_of, is_free_entry, oldest_from, choose_entry,
  arp_cache_add, arp_cache_lookup,
}

oldest_from-lt :
    (rounds i oldest : ℕ) (cache : ArpCache)
    → i + rounds ≤ 16
    → oldest < 16
    → oldest_from rounds i oldest cache < 16
unfolding oldest_from
oldest_from-lt zero i oldest cache h k = k
oldest_from-lt (suc rounds) i oldest cache h k =
    oldest_from-lt rounds (suc i) _ cache (omega arith) (ground arith)

-- No entry before the index is one of the address.
abbrev First : ℕ → ArpCache → ℕ → Type 0
First ip cache k = (k < 16) × ((j : ℕ) → j < k → is_entry_of cache ip j ≡ false)

chosen :
    (ip : ℕ) (cache : ArpCache) (k : ℕ)
    → choose_entry ip cache ≡ k
    → First ip cache k
    → First ip cache (choose_entry ip cache)
chosen ip cache k e f = subst (First ip cache) (sym e) f

choose_entry-First : (ip : ℕ) (cache : ArpCache) → First ip cache (choose_entry ip cache)
unfolding choose_entry
choose_entry-First ip cache =
    go (search-Found (is_entry_of cache ip) 16 0) (search-Found (is_free_entry cache) 16 0)
  where
    go :
        Found (is_entry_of cache ip) 16 0 (search (is_entry_of cache ip) 16 0)
        → Found (is_free_entry cache) 16 0 (search (is_free_entry cache) 16 0)
        → First ip cache (choose_entry ip cache)
    go (found k le lt t before e) _ =
        chosen ip cache k (rw (e, choose_entry)) (lt, λ j h. before j (omega arith) h)
    go (missing all e) (found k le lt t before e') =
        chosen ip cache k (rw (e, e', choose_entry)) (lt, λ j h. all j (omega arith) (omega arith))
    go (missing all e) (missing full e') =
        let lt = oldest_from-lt 15 1 0 cache (omega arith) (omega arith) in
        chosen ip cache (oldest_from 15 1 0 cache) (rw (e, e', choose_entry))
          (lt, λ j h. all j (omega arith) (omega arith))

-- Lookup finds the first entry of the address.
lookup-First :
    (ip : ℕ) (cache : ArpCache) (k : ℕ)
    → First ip cache k
    → is_entry_of cache ip k ≡ true
    → arp_cache_lookup ip cache ≡ some (arp_at cache k).mac
unfolding arp_cache_lookup
lookup-First ip cache k (lt, before) is =
    let e = search-first (is_entry_of cache ip) 16 0 k (omega arith) lt is (λ j _ h. before j h) in
    rw (e, arp_cache_lookup)

module _ (now ip : ℕ) (mac : Bytes) (cache : ArpCache) (sized : length cache ≡ 16) where
  abbrev new_entry : ArpEntry
  new_entry = record { ip = ip; mac = mac; timestamp = now; valid = true }

  added_at :
      (j : ℕ)
      → arp_at (arp_cache_add now ip mac cache) j
        ≡ (if choose_entry ip cache == j then new_entry else arp_at cache j)
  unfolding arp_cache_add
  added_at j =
      get_or-set cache (choose_entry ip cache) j new_entry zero_entry
        (omega (arith, (choose_entry-First ip cache).0))

  -- The address that was added is found with its MAC address, whatever the 16 entries of the cache held.
  pub lookup-add : arp_cache_lookup ip (arp_cache_add now ip mac cache) ≡ some mac
  lookup-add =
      let k = choose_entry ip cache in
      let here : arp_at (arp_cache_add now ip mac cache) k ≡ new_entry =
        added_at k ∙ ground arith in
      let (lt, before) = choose_entry-First ip cache in
      lookup-First ip (arp_cache_add now ip mac cache) k
        (
          lt,
          λ j h. rw (added_at j) (let ne : (k == j) ≡ false = ground arith in rw ne (before j h)),
        )
        (rw here (ground arith))
      ∙ ap some (ap ArpEntry.mac here)
