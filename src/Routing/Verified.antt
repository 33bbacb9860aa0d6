-- ===== src/Routing/Verified.antt =====
-- What sr_verify_routing_table certifies: every route has an interface to leave by.
use nw_proj.Base.{
  ℕ, ◌≡◌, ◌≢◌, refl, ◌↔◌, true, false, none, some, List, [], ◌∷◌, ◌++◌, arith, All, subst, inl, inr,
  ◌⊎◌,
}
use nw_proj.Text.{Text}
use nw_proj.Instance.{Iface, RtEntry}
use nw_proj.Interfaces.{sr_get_interface}
use nw_proj.Routing.{iface_exists, count_missing, sr_verify_routing_table, sr_find_lpm_entry}
use nw_proj.Routing.Lpm.{sr_find_lpm_entry-Lookup}

-- The interface that the entry names is in the list.
abbrev pub Resolves : List Iface → RtEntry → Type 0
Resolves if_list e = (i : Iface) × (sr_get_interface if_list e.interface ≡ some i)

iface_exists-sr_get_interface :
    (is : List Iface) (name : Text)
    → ((iface_exists is name ≡ true) × ((i : Iface) × (sr_get_interface is name ≡ some i)))
      ⊎ ((iface_exists is name ≡ false) × (sr_get_interface is name ≡ none))
unfolding iface_exists sr_get_interface
iface_exists-sr_get_interface [] name = inr (refl, refl)
iface_exists-sr_get_interface (i ∷ is) name = ground (arith, iface_exists-sr_get_interface is name)

count_missing-zero :
    (is : List Iface) (table : List RtEntry) → count_missing is table ≡ 0 → All (Resolves is) table
unfolding count_missing
count_missing-zero is [] h = tt
count_missing-zero is (e ∷ es) h = elim (iface_exists-sr_get_interface is e.interface) [
  | inl (known, found) ↦ (found, count_missing-zero is es (ground arith))
  | inr (unknown, _) ↦ absurd (ground arith)
]

zero-count_missing :
    (is : List Iface) (table : List RtEntry) → All (Resolves is) table → count_missing is table ≡ 0
unfolding count_missing
zero-count_missing is [] h = refl
zero-count_missing is (e ∷ es) ((i, found), rest) =
    ground (arith, iface_exists-sr_get_interface is e.interface, zero-count_missing is es rest)

-- sr_verify_routing_table returns 0 exactly if there is an interface, there is a route, and every
-- route's interface is in the interface list.
pub sr_verify_routing_table_iff :
    (is : List Iface) (table : List RtEntry)
    → (sr_verify_routing_table is table ≡ 0) ↔ ((is ≢ []) × (table ≢ []) × All (Resolves is) table)
unfolding sr_verify_routing_table
sr_verify_routing_table_iff [] table = ((λ h. ground arith), (λ h. absurd (h.0 refl)))
sr_verify_routing_table_iff (i ∷ is) [] = ((λ h. ground arith), (λ h. absurd (h.1 refl)))
sr_verify_routing_table_iff (i ∷ is) (e ∷ es) = (
  (λ h. ((λ x. cc), (λ x. cc), count_missing-zero (i ∷ is) (e ∷ es) h)),
  (λ h. zero-count_missing (i ∷ is) (e ∷ es) h.2),
)

All-mid :
    (P : RtEntry → Type 0) (xs : List RtEntry) (e : RtEntry) (ys : List RtEntry)
    → All P (xs ++ e ∷ ys)
    → P e
All-mid P [] e ys h = h.0
All-mid P (x ∷ xs) e ys h = All-mid P xs e ys h.1

-- With a verified table the route that a lookup finds names an interface in the list.
pub sr_find_lpm_entry-Resolves :
    (is : List Iface) (table : List RtEntry) (ip_dst : ℕ) (e : RtEntry)
    → sr_verify_routing_table is table ≡ 0
    → sr_find_lpm_entry table ip_dst ≡ some e
    → Resolves is e
sr_find_lpm_entry-Resolves is table ip_dst e v h = elim (sr_find_lpm_entry-Lookup table ip_dst) [
  | inl (missing, _) ↦ absurd (ground arith)
  | inr (x, found, _, l) ↦
      let all = ((sr_verify_routing_table_iff is table).0 v).2 in
      let same : x ≡ e = ground arith in
      subst (Resolves is) same
        (All-mid (Resolves is) l.before x l.after (subst (All (Resolves is)) l.splits all))
]
