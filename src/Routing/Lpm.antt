-- ===== src/Routing/Lpm.antt =====
-- sr_findLPMentry finds the matching entry of the longest mask, the first such in the table.
use nw_proj.Base.{
  ℕ, ◌<◌, ◌≤◌, ◌≡◌, refl, ap, ◌⊎◌, inl, inr, true, false, Option, none, some, List, [], ◌∷◌, ◌++◌,
  arith, ltb, Bool-cases, All, ◌&&◌,
}
use nw_proj.Base.Digits.{bit, bit_and_iff}
use nw_proj.Base.{==→eq, eq→==}
use nw_proj.Memory.{htonl}
use nw_proj.Instance.{RtEntry}
use nw_proj.Routing.{rt_match, lpm_scan, sr_find_lpm_entry}

abbrev pub host_mask : RtEntry → ℕ
host_mask e = htonl e.mask

-- The destination `ip`, in host order, has the digits of the entry's network wherever the entry's
-- mask has a one.
pub Matches : ℕ → RtEntry → Type 0
Matches ip e = (i : ℕ) → bit i (htonl e.mask) ≡ 1 → bit i ip ≡ bit i (htonl e.dest)

rt_match-Matches : (ip : ℕ) (e : RtEntry) → rt_match ip e ≡ true → Matches ip e
unfolding rt_match Matches
rt_match-Matches ip e h = (bit_and_iff ip (htonl e.dest) (htonl e.mask)).0 (==→eq _ _ h)

Matches-rt_match : (ip : ℕ) (e : RtEntry) → Matches ip e → rt_match ip e ≡ true
unfolding rt_match Matches
Matches-rt_match ip e h = eq→== _ _ ((bit_and_iff ip (htonl e.dest) (htonl e.mask)).1 h)

-- Each entry of the list that matches has a mask of at most, or below, the bound.
abbrev pub MatchesLe : ℕ → ℕ → RtEntry → Type 0
MatchesLe ip bound x = Matches ip x → host_mask x ≤ bound

abbrev pub MatchesLt : ℕ → ℕ → RtEntry → Type 0
MatchesLt ip bound x = Matches ip x → host_mask x < bound

-- `e` is the first matching entry of `table` whose mask no matching entry exceeds.
pub record IsLongest (ip : ℕ) (table : List RtEntry) (e : RtEntry) : Type 0 where
  pub before : List RtEntry
  pub after : List RtEntry
  pub splits : table ≡ before ++ e ∷ after
  pub matches : Matches ip e
  pub longer_than_before : All (MatchesLt ip (host_mask e)) before
  pub longest_of_rest : All (MatchesLe ip (host_mask e)) after

-- The scan keeps its best entry, or finds a longer one.
abbrev Scanned : ℕ → List RtEntry → Option RtEntry → ℕ → Option RtEntry → Type 0
Scanned ip table best m r =
    ((r ≡ best) × All (MatchesLe ip m) table)
    ⊎ ((e : RtEntry) × (r ≡ some e) × (m < host_mask e) × IsLongest ip table e)

IsLongest-head :
    {ip : ℕ} {h : RtEntry} {table : List RtEntry}
    → Matches ip h
    → All (MatchesLe ip (host_mask h)) table
    → IsLongest ip (h ∷ table) h
IsLongest-head {table = t} hit rest = record {
  before = [];
  after = t;
  splits = refl;
  matches = hit;
  longer_than_before = tt;
  longest_of_rest = rest;
}

IsLongest-cons :
    {ip : ℕ} {h e : RtEntry} {table : List RtEntry}
    → MatchesLt ip (host_mask e) h
    → IsLongest ip table e
    → IsLongest ip (h ∷ table) e
IsLongest-cons {h = h} less l = record {
  before = h ∷ l.before;
  after = l.after;
  splits = ap (◌∷◌ h) l.splits;
  matches = l.matches;
  longer_than_before = (less, l.longer_than_before);
  longest_of_rest = l.longest_of_rest;
}

lpm_scan-Scanned :
    (ip : ℕ) (table : List RtEntry) (best : Option RtEntry) (m : ℕ)
    → Scanned ip table best m (lpm_scan ip table best m)
unfolding lpm_scan
lpm_scan-Scanned ip [] best m = inl (refl, tt)
lpm_scan-Scanned ip (h ∷ t) best m = elim (Bool-cases (rt_match ip h && ltb m (host_mask h))) [
  | inl hit ↦ rw hit (taken hit (lpm_scan-Scanned ip t (some h) (host_mask h)))
  | inr miss ↦ rw miss (passed miss (lpm_scan-Scanned ip t best m))
]
  where
    taken :
        {r : Option RtEntry}
        → (rt_match ip h && ltb m (host_mask h)) ≡ true
        → Scanned ip t (some h) (host_mask h) r
        → Scanned ip (h ∷ t) best m r
    taken hit (inl (e, rest)) =
        inr (h, e, ground arith, IsLongest-head (rt_match-Matches ip h (ground arith)) rest)
    taken hit (inr (e, eq, longer, l)) = inr (e, eq, ground arith, IsLongest-cons (λ _. longer) l)

    passed :
        {r : Option RtEntry}
        → (rt_match ip h && ltb m (host_mask h)) ≡ false
        → Scanned ip t best m r
        → Scanned ip (h ∷ t) best m r
    passed miss (inl (e, rest)) =
        inl (e, ((λ hit. ground (arith, Matches-rt_match ip h hit)), rest))
    passed miss (inr (e, eq, longer, l)) =
        inr (e, eq, longer, IsLongest-cons (λ hit. ground (arith, Matches-rt_match ip h hit)) l)

-- The lookup's result: the longest match, whose mask is not zero; or nothing, and then no entry
-- with a mask other than zero matches.
abbrev pub Lookup : ℕ → List RtEntry → Option RtEntry → Type 0
Lookup ip table r =
    ((r ≡ none) × All (MatchesLe ip 0) table)
    ⊎ ((e : RtEntry) × (r ≡ some e) × (0 < host_mask e) × IsLongest ip table e)

-- For every table and destination, sr_findLPMentry returns the first entry of the longest mask
-- among those that match, where that mask is not zero; it returns no entry only if every entry
-- that matches has the mask 0.0.0.0.
pub sr_find_lpm_entry-Lookup :
    (table : List RtEntry) (ip_dst : ℕ)
    → Lookup (htonl ip_dst) table (sr_find_lpm_entry table ip_dst)
unfolding sr_find_lpm_entry
sr_find_lpm_entry-Lookup table ip_dst = lpm_scan-Scanned (htonl ip_dst) table none 0

lpm_scan-default_route :
    (ip : ℕ) (table : List RtEntry) → All (MatchesLe ip 0) table → lpm_scan ip table none 0 ≡ none
unfolding lpm_scan
lpm_scan-default_route ip [] h = refl
lpm_scan-default_route ip (e ∷ es) h = elim (Bool-cases (rt_match ip e)) [
  | inl hit ↦ ground (arith, hit, h.0 (rt_match-Matches ip e hit), lpm_scan-default_route ip es h.1)
  | inr miss ↦ ground (arith, miss, lpm_scan-default_route ip es h.1)
]

-- A table whose matching entries all have the mask 0.0.0.0, so a default route alone, gives no
-- route.
pub sr_find_lpm_entry-default_route :
    (table : List RtEntry) (ip_dst : ℕ)
    → All (MatchesLe (htonl ip_dst) 0) table
    → sr_find_lpm_entry table ip_dst ≡ none
unfolding sr_find_lpm_entry
sr_find_lpm_entry-default_route table ip_dst h = lpm_scan-default_route (htonl ip_dst) table h
