-- ===== src/Routing/Load/Words.antt =====
-- The words that sr_load_rt reads of a line.
use nw_proj.Base.{
  ℕ, ◌<◌, ◌≡◌, refl, sym, ap, ◌∙◌, arith, true, false, [], ◌∷◌, ◌++◌, ◌==◌, length, All, append_nil,
  append_assoc,
}
use nw_proj.Text.{Text}
use nw_proj.Routing.Load.{is_space, words_from, Fields}

-- A word of a line: it fits its array, and is without space and zero.
pub record IsWord (w : Text) : Type 0 where
  pub nonempty : 0 < length w
  pub short : length w < 32
  pub plain : All (λ c. (c == 0) ≡ false × (is_space c) ≡ false) w

-- A character that ends a word.
pub record IsSeparator (c : ℕ) : Type 0 where
  pub not_zero : (c == 0) ≡ false
  pub space : is_space c ≡ true

words_from-begun :
    (a : ℕ) (acc w : Text) (c : ℕ) (rest : Text)
    → All (λ x. (x == 0) ≡ false × is_space x ≡ false) w
    → IsSeparator c
    → words_from (a ∷ acc) (w ++ c ∷ rest) ≡ ((a ∷ acc) ++ w) ∷ words_from [] rest
unfolding words_from
words_from-begun a acc [] c rest h s =
    rw (s.not_zero, words_from)
      (rw (s.space, words_from)
        (ap (λ (l : Text). l ∷ words_from [] rest) (sym (append_nil (a ∷ acc)))))
words_from-begun a acc (x ∷ xs) c rest h s =
    rw (h.0.0, words_from)
      (rw (h.0.1, words_from)
        (words_from-begun a (acc ++ x ∷ []) xs c rest h.1 s
          ∙ ap (λ (l : Text). l ∷ words_from [] rest) (append_assoc (a ∷ acc) (x ∷ []) xs)))

pub words_from-word :
    (w : Text) (c : ℕ) (rest : Text)
    → IsWord w
    → IsSeparator c
    → words_from [] (w ++ c ∷ rest) ≡ w ∷ words_from [] rest
unfolding words_from
words_from-word [] c rest h s = absurd (omega (arith, h.nonempty))
words_from-word (x ∷ xs) c rest h s =
    rw (h.plain.0.0, words_from)
      (rw (h.plain.0.1, words_from) (words_from-begun x [] xs c rest h.plain.1 s))

-- A line of a routing table: four words with a space between them.
unfoldable pub line_of : Fields → Text
line_of f = f.dest ++ 32 ∷ (f.gw ++ 32 ∷ (f.mask ++ 32 ∷ (f.iface ++ 10 ∷ [])))

pub record IsLine (f : Fields) : Type 0 where
  pub dest : IsWord f.dest
  pub gw : IsWord f.gw
  pub mask : IsWord f.mask
  pub iface : IsWord f.iface

pub words_from-line_of :
    (f : Fields) → IsLine f → words_from [] (line_of f) ≡ f.dest ∷ f.gw ∷ f.mask ∷ f.iface ∷ []
unfolding line_of
words_from-line_of f h =
    let blank : IsSeparator 32 = record { not_zero = refl; space = refl } in
    let newline : IsSeparator 10 = record { not_zero = refl; space = refl } in
    let nothing : words_from [] [] ≡ [] = unfold words_from in refl in
    let last = words_from-word f.iface 10 [] h.iface newline in
    let third = words_from-word f.mask 32 (f.iface ++ 10 ∷ []) h.mask blank in
    let second = words_from-word f.gw 32 (f.mask ++ 32 ∷ (f.iface ++ 10 ∷ [])) h.gw blank in
    words_from-word f.dest 32 (f.gw ++ 32 ∷ (f.mask ++ 32 ∷ (f.iface ++ 10 ∷ []))) h.dest blank
    ∙ cc (second, third, last, nothing)
