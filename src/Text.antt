-- ===== src/Text.antt =====
-- C strings as the characters before the terminating zero, and the two bounded functions of
-- string.h that the router calls on interface names.
use nw_proj.Base.{
  Option, none, some, ◌-◌, ℕ, zero, suc, ◌≡◌, refl, Bool, true, false, ◌&&◌, List, [], ◌∷◌, arith,
  ◌==◌, take, if◌then◌else◌, length, ◌≤◌, ap,
}

abbrev pub Text : Type 0
Text = List ℕ

-- The string that `strncpy(dst, s, n)` leaves in an array of `n` characters.
unfoldable pub strncpy : ℕ → Text → Text
strncpy n s = take n s

-- What it writes: the characters, and zeros up to `n`.
unfoldable pub padded : ℕ → Text → List ℕ
padded zero s = []
padded (suc n) [] = 0 ∷ padded n []
padded (suc n) (c ∷ cs) = c ∷ padded n cs

pub strncpy_short : (n : ℕ) (s : Text) → length s ≤ n → strncpy n s ≡ s
unfolding strncpy
strncpy_short zero [] h = refl
strncpy_short zero (c ∷ cs) h = absurd (omega arith)
strncpy_short (suc n) [] h = refl
strncpy_short (suc n) (c ∷ cs) h = ap (λ (l : Text). c ∷ l) (strncpy_short n cs (omega arith))

-- `strncmp(a, b, n) == 0`.
unfoldable pub strncmp_eq : ℕ → Text → Text → Bool
strncmp_eq zero a b = true
strncmp_eq (suc n) [] [] = true
strncmp_eq (suc n) [] (y ∷ ys) = false
strncmp_eq (suc n) (x ∷ xs) [] = false
strncmp_eq (suc n) (x ∷ xs) (y ∷ ys) = (x == y) && strncmp_eq n xs ys

pub strncmp_eq_refl : (n : ℕ) (a : Text) → strncmp_eq n a a ≡ true
unfolding strncmp_eq
strncmp_eq_refl zero a = refl
strncmp_eq_refl (suc n) [] = refl
strncmp_eq_refl (suc n) (x ∷ xs) = ground (arith, strncmp_eq_refl n xs)

-- A copy cut to `n` characters compares like the original.
pub strncmp_eq-strncpy : (n : ℕ) (a b : Text) → strncmp_eq n (strncpy n a) b ≡ strncmp_eq n a b
unfolding strncmp_eq strncpy
strncmp_eq-strncpy zero a b = refl
strncmp_eq-strncpy (suc n) [] b = refl
strncmp_eq-strncpy (suc n) (x ∷ xs) [] = refl
strncmp_eq-strncpy (suc n) (x ∷ xs) (y ∷ ys) = ground (arith, strncmp_eq-strncpy n xs ys)

pub strncmp_eq_trans :
    (n : ℕ) (a b c : Text) → strncmp_eq n a b ≡ true → strncmp_eq n b c ≡ strncmp_eq n a c
unfolding strncmp_eq
strncmp_eq_trans zero a b c h = refl
strncmp_eq_trans (suc n) [] [] c h = refl
strncmp_eq_trans (suc n) [] (y ∷ ys) c h = ground arith
strncmp_eq_trans (suc n) (x ∷ xs) [] c h = ground arith
strncmp_eq_trans (suc n) (x ∷ xs) (y ∷ ys) [] h = refl
strncmp_eq_trans (suc n) (x ∷ xs) (y ∷ ys) (z ∷ zs) h = ground (arith, strncmp_eq_trans n xs ys zs)

pub strncmp_eq-strncpy_right :
    (n : ℕ) (a b : Text) → strncmp_eq n a (strncpy n b) ≡ strncmp_eq n a b
unfolding strncmp_eq strncpy
strncmp_eq-strncpy_right zero a b = refl
strncmp_eq-strncpy_right (suc n) [] [] = refl
strncmp_eq-strncpy_right (suc n) [] (y ∷ ys) = refl
strncmp_eq-strncpy_right (suc n) (x ∷ xs) [] = refl
strncmp_eq-strncpy_right (suc n) (x ∷ xs) (y ∷ ys) =
    ground (arith, strncmp_eq-strncpy_right n xs ys)

-- The line that `fgets` takes from what is left of a file: up to and with a newline, and at most
-- `n - 1` characters; and what is left behind it. At the end of the file there is none.
unfoldable pub take_line : ℕ → Text → Text × Text
take_line zero s = ([], s)
take_line (suc n) [] = ([], [])
take_line (suc n) (c ∷ cs) =
    let rest = take_line n cs in if c == 10 then (c ∷ [], cs) else (c ∷ rest.0, rest.1)

unfoldable pub fgets : ℕ → Text → Option (Text × Text)
fgets n [] = none
fgets n (c ∷ cs) = some (take_line (n - 1) (c ∷ cs))
