-- ===== src/ArpCache/Entries.antt =====
-- The table of IP to MAC mappings: lookup against insertion and expiry.
use nw_proj.Base.{
  ℕ, ◌+◌, ◌≤◌, ◌<◌, ◌≡◌, ◌≢◌, refl, ◌⊎◌, inl, inr, true, false, ◌&&◌, Option, none, some, List, [],
  ◌∷◌, arith, ◌==◌, length, All, Bool-cases, subst, ap, ◌∙◌,
}
use nw_proj.Memory.{Bytes, memcpy}
use nw_proj.Memory.Laws.{memcpy-inside}
use nw_proj.Instance.{ArpEntry, ArpCache}
use nw_proj.ArpCache.{
  lookup_scan, sr_arpcache_lookup, fill_free, sr_arpcache_insert, expire_entries, sr_arpcache_to,
}

-- The entry maps `ip`.
abbrev pub Maps : ℕ → ArpEntry → Type 0
Maps ip e = (e.valid ≡ true) × (e.ip ≡ ip)

abbrev pub NotMaps : ℕ → ArpEntry → Type 0
NotMaps ip e = e.valid ≡ true → e.ip ≢ ip

-- Some entry of the table is not valid.
abbrev pub HasFree : List ArpEntry → Type 0
HasFree [] = ⊥
HasFree (e ∷ es) = (e.valid ≡ false) ⊎ HasFree es

pub length-fill_free :
    (mac : Bytes) (ip now : ℕ) (es : List ArpEntry) → length (fill_free mac ip now es) ≡ length es
unfolding fill_free
length-fill_free mac ip now [] = refl
length-fill_free mac ip now (e ∷ es) = ground (arith, length-fill_free mac ip now es)

-- Filling a free entry is not seen by the lookups of other addresses.
lookup_scan-fill_free_ne :
    (mac : Bytes) (ip now other : ℕ) (es : List ArpEntry) (d : Option ArpEntry)
    → other ≢ ip
    → lookup_scan other (fill_free mac ip now es) d ≡ lookup_scan other es d
unfolding fill_free lookup_scan
lookup_scan-fill_free_ne mac ip now other [] d ne = refl
lookup_scan-fill_free_ne mac ip now other (e ∷ es) d ne = ground (
  arith,
  lookup_scan-fill_free_ne mac ip now other es d ne,
  lookup_scan-fill_free_ne mac ip now other es (some e) ne,
)

-- Where no entry maps `ip`, the scan returns what it was given.
lookup_scan-NotMaps :
    (ip : ℕ) (es : List ArpEntry) (d : Option ArpEntry)
    → All (NotMaps ip) es
    → lookup_scan ip es d ≡ d
unfolding lookup_scan
lookup_scan-NotMaps ip [] d h = refl
lookup_scan-NotMaps ip (e ∷ es) d h = ground (arith, h.0, lookup_scan-NotMaps ip es d h.1)

-- A scan that starts with an entry ends with one.
lookup_scan-ne-none :
    (ip : ℕ) (es : List ArpEntry) (e : ArpEntry) → lookup_scan ip es (some e) ≢ none
unfolding lookup_scan
lookup_scan-ne-none ip [] e h = cc
lookup_scan-ne-none ip (x ∷ es) e h =
    ground (arith, lookup_scan-ne-none ip es e, lookup_scan-ne-none ip es x)

lookup_scan-none :
    (ip : ℕ) (es : List ArpEntry) → lookup_scan ip es none ≡ none → All (NotMaps ip) es
unfolding lookup_scan
lookup_scan-none ip [] h = tt
lookup_scan-none ip (e ∷ es) h = (
  (λ v same. ground (arith, lookup_scan-ne-none ip es e)),
  lookup_scan-none ip es (ground (arith, lookup_scan-ne-none ip es e)),
)

-- The scan returns an entry of the list that maps `ip`, or what it was given.
lookup_scan-Maps :
    (ip : ℕ) (P : ArpEntry → Type 0) (es : List ArpEntry) (d : Option ArpEntry) (e : ArpEntry)
    → All P es
    → lookup_scan ip es d ≡ some e
    → (d ≡ some e) ⊎ (P e × Maps ip e)
unfolding lookup_scan
lookup_scan-Maps ip P [] d e all h = inl h
lookup_scan-Maps ip P (x ∷ es) d e all h = elim (Bool-cases (x.valid && x.ip == ip)) [
  | inl hit ↦ elim (lookup_scan-Maps ip P es (some x) e all.1 (rw hit at h)) [
    | inl same ↦
        let eq : x ≡ e = ground arith in inr (subst P eq all.0, (ground arith, ground arith))
    | inr found ↦ inr found
  ]
  | inr miss ↦ lookup_scan-Maps ip P es d e all.1 (rw miss at h)
]

lookup_scan-fill_free :
    (mac : Bytes) (ip now : ℕ) (es : List ArpEntry) (d : Option ArpEntry)
    → All (NotMaps ip) es
    → HasFree es
    → (e : ArpEntry) × (old : Bytes) × (lookup_scan ip (fill_free mac ip now es) d ≡ some e)
      × (e ≡ record { mac = memcpy old 0 mac 0 6; ip = ip; added = now; valid = true })
unfolding lookup_scan fill_free
lookup_scan-fill_free mac ip now [] d none_maps free = absurd free
lookup_scan-fill_free mac ip now (x ∷ es) d none_maps free = elim (Bool-cases x.valid) [
  | inl used ↦
      let miss : (x.valid && x.ip == ip) ≡ false = ground (arith, none_maps.0) in
      let later : HasFree es = ground arith in
      let (e, old, found, eq) = lookup_scan-fill_free mac ip now es d none_maps.1 later in
      (e, old, ground (arith, found, miss), eq)
  | inr unused ↦
      let e : ArpEntry = record {
        mac = memcpy x.mac 0 mac 0 6;
        ip = ip;
        added = now;
        valid = true;
      } in
      (e, x.mac, ground (arith, lookup_scan-NotMaps ip es (some e) none_maps.1), refl)
]

expire_entries-Fresh :
    (now : ℕ) (es : List ArpEntry)
    → All (λ e. e.valid ≡ true → now ≤ e.added + sr_arpcache_to) (expire_entries now es)
unfolding expire_entries
expire_entries-Fresh now [] = tt
expire_entries-Fresh now (e ∷ es) = ((λ v. ground arith), expire_entries-Fresh now es)

fill_free-full :
    (mac : Bytes) (ip now : ℕ) (es : List ArpEntry) → ¬ HasFree es → fill_free mac ip now es ≡ es
unfolding fill_free
fill_free-full mac ip now [] full = refl
fill_free-full mac ip now (e ∷ es) full = elim (Bool-cases e.valid) [
  | inl used ↦ ground (arith, fill_free-full mac ip now es (λ h. full (inr h)))
  | inr unused ↦ absurd (full (inl unused))
]

pub insert-entries :
    (now : ℕ) (cache : ArpCache) (mac : Bytes) (ip : ℕ)
    → (sr_arpcache_insert now cache mac ip).0.entries ≡ fill_free mac ip now cache.entries
unfolding sr_arpcache_insert
insert-entries now cache mac ip = ground arith

-- Inserting a mapping changes no lookup of another address. If the table has a free entry and
-- does not map `ip`, the lookup of `ip` then gives an entry with the new hardware address, added
-- now. If it has none, the insertion leaves the table as it was.
pub sr_arpcache_lookup-sr_arpcache_insert :
    (now : ℕ) (cache : ArpCache) (mac : Bytes) (ip : ℕ)
    → let after = (sr_arpcache_insert now cache mac ip).0 in
      ((other : ℕ) → other ≢ ip → sr_arpcache_lookup after other ≡ sr_arpcache_lookup cache other)
      × (sr_arpcache_lookup cache ip ≡ none
          → HasFree cache.entries
          → (e : ArpEntry) × (sr_arpcache_lookup after ip ≡ some e)
            × (e.added ≡ now)
            × ((k : ℕ) → k < 6 → e.mac k ≡ mac k))
      × (¬ HasFree cache.entries → after.entries ≡ cache.entries)
unfolding sr_arpcache_lookup
sr_arpcache_lookup-sr_arpcache_insert now cache mac ip = rw (insert-entries now cache mac ip) (
  (λ other ne. lookup_scan-fill_free_ne mac ip now other cache.entries none ne),
  filled,
  (λ full. fill_free-full mac ip now cache.entries full),
)
  where
    filled :
        lookup_scan ip cache.entries none ≡ none
        → HasFree cache.entries
        → (e : ArpEntry) × (lookup_scan ip (fill_free mac ip now cache.entries) none ≡ some e)
          × (e.added ≡ now)
          × ((k : ℕ) → k < 6 → e.mac k ≡ mac k)
    filled absent free =
        let (e, old, found, eq) =
          lookup_scan-fill_free mac ip now cache.entries none
            (lookup_scan-none ip cache.entries absent) free in
        (
          e,
          found,
          ap (λ (x : ArpEntry). x.added) eq,
          λ k lt. ap (λ (x : ArpEntry). x.mac k) eq ∙ memcpy-inside old mac 6 k lt,
        )

-- After a round of the timeout thread every lookup that succeeds gives an entry of the last 15
-- seconds.
pub sr_arpcache_lookup-expire_entries :
    (now : ℕ) (cache : ArpCache) (ip : ℕ) (e : ArpEntry)
    → sr_arpcache_lookup (record cache { entries = expire_entries now cache.entries }) ip ≡ some e
    → (now ≤ e.added + sr_arpcache_to) × Maps ip e
unfolding sr_arpcache_lookup
sr_arpcache_lookup-expire_entries now cache ip e h =
    elim (lookup_scan-Maps ip (λ x. x.valid ≡ true → now ≤ x.added + sr_arpcache_to)
      (expire_entries now cache.entries) none e (expire_entries-Fresh now cache.entries) h) [
        | inl same ↦ absurd (ground arith)
        | inr (fresh, maps) ↦ (fresh maps.0, maps)
      ]
