-- ===== src/Memory/Holds.antt =====
-- Bytes that stand in a buffer, and what is read of them.
use nw_proj.Base.{
  ℕ, zero, suc, ◌+◌, ◌^◌, ◌<◌, ◌≡◌, ap, ◌∙◌, arith, List, [], ◌∷◌, ◌++◌, length, All, subst,
}
use nw_proj.Memory.{Bytes, store8, load32, htonl}
use nw_proj.Memory.Place.{place, place-before, big_endian, slice}

-- The bytes of `xs` stand in `m` from `a` on.
unfoldable pub Holds : Bytes → ℕ → List ℕ → Type 0
Holds m a [] = Unit {0}
Holds m a (x ∷ xs) = (m a ≡ x) × Holds m (a + 1) xs

pub place-Holds :
    (m : Bytes) (a : ℕ) (xs : List ℕ) → All (λ x. x < 256) xs → Holds (place m a xs) a xs
unfolding Holds place store8
place-Holds m a [] h = tt
place-Holds m a (x ∷ xs) h = (
  place-before (store8 m a x) (a + 1) xs a (omega arith) ∙ ground (arith, h.0),
  place-Holds (store8 m a x) (a + 1) xs h.1,
)

-- The parts of what stands there.
pub Holds-append :
    (m : Bytes) (a : ℕ) (xs ys : List ℕ)
    → Holds m a (xs ++ ys)
    → Holds m a xs × Holds m (a + length xs) ys
unfolding Holds
Holds-append m a [] ys h = (tt, subst (λ (k : ℕ). Holds m k ys) (omega arith) h)
Holds-append m a (x ∷ xs) ys h =
    let (front, behind) = Holds-append m (a + 1) xs ys h.1 in
    ((h.0, front), subst (λ (k : ℕ). Holds m k ys) (omega arith) behind)

pub Holds-big_endian :
    (m : Bytes) (a n : ℕ) → n < 2 ^ 32 → Holds m a (big_endian n) → htonl (load32 m a) ≡ n
unfolding Holds big_endian load32 htonl
Holds-big_endian m a n h (b0, (b1, (b2, (b3, _)))) =
    let at2 : m (a + 1 + 1) ≡ m (a + 2) = ap m (omega arith) in
    let at3 : m (a + 1 + 1 + 1) ≡ m (a + 3) = ap m (omega arith) in
    omega (arith, h, b0, b1, b2, b3, at2, at3)

pub Holds-slice :
    (m : Bytes) (a : ℕ) (v : Bytes) (b n i : ℕ)
    → Holds m a (slice v b n)
    → i < n
    → m (a + i) ≡ v (b + i)
unfolding Holds slice
Holds-slice m a v b zero i h lt = absurd (omega (arith, lt))
Holds-slice m a v b (suc n) zero h lt = ap m (omega arith) ∙ (h.0 ∙ ap v (omega arith))
Holds-slice m a v b (suc n) (suc i) h lt =
    ap m (omega arith)
    ∙ (Holds-slice m (a + 1) v (b + 1) n i h.1 (omega (arith, lt)) ∙ ap v (omega arith))
