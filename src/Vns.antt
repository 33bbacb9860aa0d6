-- ===== src/Vns.antt =====
-- The messages of vnscommand.h as the protocol describes them: a length, and fields in network
-- order.
use nw_proj.Base.{
  ℕ, ◌+◌, ◌*◌, ◌≤◌, ◌<◌, ◌≡◌, refl, arith, ◌∙◌, sym, ap, List, [], ◌∷◌, ◌++◌, length, All,
  All-append, ap, sym, ◌∙◌,
}
use nw_proj.Memory.Place.{big_endian, slice, place, slice-place}
use nw_proj.Memory.{Bytes}

-- A message: its length with the four bytes of the length, and what follows.
unfoldable pub framed : List ℕ → List ℕ
framed body = big_endian (length body + 4) ++ body

-- A body with a type, in a message that is not too long.
pub record IsBody (body : List ℕ) : Type 0 where
  pub typed : 4 ≤ length body
  pub short : length body ≤ 9996

-- Numbers in network order, one after the other.
unfoldable pub words : List ℕ → List ℕ
words [] = []
words (n ∷ ns) = big_endian n ++ words ns

-- Every number is a byte.
abbrev pub AreBytes : List ℕ → Type 0
AreBytes xs = All (λ x. x < 256) xs

pub big_endian-AreBytes : (n : ℕ) → AreBytes (big_endian n)
unfolding big_endian
big_endian-AreBytes n = (omega arith, (omega arith, (omega arith, (omega arith, tt))))

pub words-AreBytes : (ns : List ℕ) → AreBytes (words ns)
unfolding words
words-AreBytes [] = tt
words-AreBytes (n ∷ ns) =
    All-append (λ x. x < 256) (big_endian n) (words ns) (big_endian-AreBytes n) (words-AreBytes ns)

pub framed-AreBytes : (body : List ℕ) → AreBytes body → AreBytes (framed body)
unfolding framed
framed-AreBytes body h =
    All-append (λ x. x < 256) (big_endian (length body + 4)) body (big_endian-AreBytes _) h

pub length-words : (ns : List ℕ) → length (words ns) ≡ 4 * length ns
unfolding words big_endian
length-words [] = refl
length-words (n ∷ ns) = omega (arith, length-words ns)

pub length-framed : (body : List ℕ) → length (framed body) ≡ length body + 4
unfolding framed big_endian
length-framed body = omega arith

-- A message that was built in a buffer, taken out of it.
pub slice-framed :
    (m : Bytes) (body : List ℕ)
    → AreBytes body
    → slice (place m 0 (big_endian (length body + 4) ++ body)) 0 (length body + 4) ≡ framed body
slice-framed m body h =
    ap (λ (k : ℕ). slice (place m 0 (big_endian (length body + 4) ++ body)) 0 k)
      (sym (length-framed body))
    ∙ (unfold framed in
        slice-place m 0 (big_endian (length body + 4) ++ body) (framed-AreBytes body h))
