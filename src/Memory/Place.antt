-- ===== src/Memory/Place.antt =====
-- Bytes stored in a buffer one after the other, and numbers in network order.
use nw_proj.Base.{
  ℕ, zero, suc, ◌+◌, ◌*◌, ◌/◌, ◌%◌, ◌^◌, ◌≤◌, ◌<◌, ◌≡◌, refl, sym, ap, ◌∙◌, arith, List, [], ◌∷◌,
  ◌++◌, length, map, fun_ext, All, ◌==◌, if◌then◌else◌, replicate,
}
use nw_proj.Memory.{Bytes, store8, load32, store16, store32, htonl, htons}
use nw_proj.Memory.Laws.{load32-store32, htonl-htonl, htonl-lt, store8-outside}

-- Bytes stored one after the other from `a` on.
unfoldable pub place : Bytes → ℕ → List ℕ → Bytes
place m a [] = m
place m a (x ∷ xs) = place (store8 m a x) (a + 1) xs

unfoldable pub big_endian : ℕ → List ℕ
big_endian n = n / 2 ^ 24 % 256 ∷ n / 2 ^ 16 % 256 ∷ n / 2 ^ 8 % 256 ∷ n % 256 ∷ []

pub load32-place :
    (m : Bytes) (a b c d : ℕ)
    → load32 (place m 0 (a ∷ b ∷ c ∷ d ∷ [])) 0
      ≡ a % 256 + 2 ^ 8 * (b % 256) + 2 ^ 16 * (c % 256) + 2 ^ 24 * (d % 256)
unfolding load32 place store8
load32-place m a b c d = ground arith

pub length_field :
    (m : Bytes) (n : ℕ) → n < 2 ^ 32 → htonl (load32 (place m 0 (big_endian n)) 0) ≡ n
unfolding big_endian
length_field m n h =
    rw (load32-place m (n / 2 ^ 24 % 256) (n / 2 ^ 16 % 256) (n / 2 ^ 8 % 256) (n % 256))
      (unfold htonl in omega arith)

-- A byte is stored as its remainder.
pub store8-mod : (m : Bytes) (a v w : ℕ) → v % 256 ≡ w % 256 → store8 m a v ≡ store8 m a w
unfolding store8
store8-mod m a v w h = fun_ext λ i. ap (λ (x : ℕ). if i == a then x else m i) h

pub place-mod :
    (m : Bytes) (a : ℕ) (xs ys : List ℕ)
    → map (λ x. x % 256) xs ≡ map (λ x. x % 256) ys
    → place m a xs ≡ place m a ys
unfolding place
place-mod m a [] [] h = refl
place-mod m a [] (y ∷ ys) h = ground arith
place-mod m a (x ∷ xs) [] h = ground arith
place-mod m a (x ∷ xs) (y ∷ ys) h =
    ap (λ (k : Bytes). place k (a + 1) xs) (store8-mod m a x y (ground arith))
    ∙ place-mod (store8 m a y) (a + 1) xs ys (ground arith)

pub store32-place : (m : Bytes) (a n : ℕ) → store32 m a (htonl n) ≡ place m a (big_endian n)
unfolding store32 store16 place big_endian
store32-place m a n =
    let v = htonl n in
    let bytes = v ∷ v / 2 ^ 8 ∷ v / 2 ^ 16 ∷ v / 2 ^ 16 / 2 ^ 8 ∷ [] in
    let two : a + 2 ≡ a + 1 + 1 = omega arith in
    ap
      (λ (k : ℕ).
        store8 (store8 (store8 (store8 m a v) (a + 1) (v / 2 ^ 8)) k (v / 2 ^ 16)) (k + 1)
          (v / 2 ^ 16 / 2 ^ 8))
      two
    ∙ place-mod m a bytes (big_endian n) (unfold htonl in ground arith)

pub place-append :
    (m : Bytes) (a : ℕ) (xs ys : List ℕ)
    → place m a (xs ++ ys) ≡ place (place m a xs) (a + length xs) ys
unfolding place
place-append m a [] ys = ap (λ (k : ℕ). place m k ys) (omega arith)
place-append m a (x ∷ xs) ys =
    place-append (store8 m a x) (a + 1) xs ys
    ∙ ap (λ (k : ℕ). place (place (store8 m a x) (a + 1) xs) k ys) (omega arith)

-- The bytes of a range.
unfoldable pub slice : Bytes → ℕ → ℕ → List ℕ
slice m a zero = []
slice m a (suc n) = m a ∷ slice m (a + 1) n

pub length-slice : (m : Bytes) (a n : ℕ) → length (slice m a n) ≡ n
unfolding slice
length-slice m a zero = refl
length-slice m a (suc n) = ap suc (length-slice m (a + 1) n)

pub place-before : (m : Bytes) (a : ℕ) (xs : List ℕ) (i : ℕ) → i < a → place m a xs i ≡ m i
unfolding place
place-before m a [] i h = refl
place-before m a (x ∷ xs) i h =
    place-before (store8 m a x) (a + 1) xs i (omega (arith, h))
    ∙ store8-outside m a x i (omega (arith, h))

pub place-after :
    (m : Bytes) (a : ℕ) (xs : List ℕ) (i : ℕ) → a + length xs ≤ i → place m a xs i ≡ m i
unfolding place
place-after m a [] i h = refl
place-after m a (x ∷ xs) i h =
    place-after (store8 m a x) (a + 1) xs i (omega (arith, h))
    ∙ store8-outside m a x i (omega (arith, h))

-- Zeros over zeros.
pub place-zeros :
    (m : Bytes) (a n : ℕ) → ((i : ℕ) → a ≤ i → i < a + n → m i ≡ 0) → place m a (replicate n 0) ≡ m
unfolding place
place-zeros m a zero h = refl
place-zeros m a (suc n) h =
    ap (λ (k : Bytes). place k (a + 1) (replicate n 0)) same
    ∙ place-zeros m (a + 1) n (λ i l u. h i (omega (arith, l)) (omega (arith, u)))
  where
    same : store8 m a 0 ≡ m
    same = fun_ext λ i. unfold store8 in ground (arith, h a (omega arith) (omega arith))

pub store16-place :
    (m : Bytes) (a n : ℕ) → store16 m a (htons n) ≡ place m a (n / 2 ^ 8 % 256 ∷ n % 256 ∷ [])
unfolding store16 place
store16-place m a n =
    place-mod m a (htons n ∷ htons n / 2 ^ 8 ∷ []) (n / 2 ^ 8 % 256 ∷ n % 256 ∷ [])
      (unfold htons in ground arith)

-- Bytes that were stored are read back.
pub slice-place :
    (m : Bytes) (a : ℕ) (xs : List ℕ)
    → All (λ x. x < 256) xs
    → slice (place m a xs) a (length xs) ≡ xs
unfolding slice place
slice-place m a [] h = refl
slice-place m a (x ∷ xs) h = cc (
  place-before (store8 m a x) (a + 1) xs a (omega arith),
  store8_at m a x h.0,
  slice-place (store8 m a x) (a + 1) xs h.1,
)
  where
    store8_at : (m : Bytes) (a x : ℕ) → x < 256 → store8 m a x a ≡ x
    store8_at m a x k = unfold store8 in ground arith

-- A byte that is stored over is gone.
pub place-over :
    (m : Bytes) (a x y : ℕ) (ys : List ℕ)
    → place (place m a (x ∷ [])) a (y ∷ ys) ≡ place m a (y ∷ ys)
unfolding place
place-over m a x y ys =
    ap (λ (k : Bytes). place k (a + 1) ys) (unfold store8 in fun_ext λ i. ground arith)

-- A number stored in network order, in front of what was stored behind it.
pub store32-ahead :
    (m : Bytes) (a n : ℕ) (ys : List ℕ)
    → place (store32 m a (htonl n)) (a + 4) ys ≡ place m a (big_endian n ++ ys)
unfolding big_endian
store32-ahead m a n ys =
    ap (λ (k : Bytes). place k (a + 4) ys) (store32-place m a n)
    ∙ sym (place-append m a (big_endian n) ys)

-- A number in network order, read back behind what was stored after it.
pub load32-big_endian :
    (m : Bytes) (a n : ℕ) (ys : List ℕ)
    → n < 2 ^ 32
    → htonl (load32 (place (place m a (big_endian n)) (a + 4) ys) a) ≡ n
load32-big_endian m a n ys h =
    let k = place m a (big_endian n) in
    let behind : load32 (place k (a + 4) ys) a ≡ load32 k a =
      unfold load32 in
      cc (
        place-before k (a + 4) ys a (omega arith),
        place-before k (a + 4) ys (a + 1) (omega arith),
        place-before k (a + 4) ys (a + 2) (omega arith),
        place-before k (a + 4) ys (a + 3) (omega arith),
      ) in
    ap htonl (
      behind
      ∙ (ap (λ (j : Bytes). load32 j a) (sym (store32-place m a n))
          ∙ load32-store32 m a (htonl n) (htonl-lt n)))
    ∙ htonl-htonl n h

pub place_at : (m : Bytes) (a b : ℕ) (xs : List ℕ) → b < 256 → place m a (b ∷ xs) a ≡ b
unfolding place store8
place_at m a b xs h = place-before (store8 m a b) (a + 1) xs a (omega arith) ∙ ground arith
