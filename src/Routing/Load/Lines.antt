-- ===== src/Routing/Load/Lines.antt =====
-- The lines that sr_load_rt reads of a file.
use nw_proj.Base.{
  Option, ℕ, zero, suc, ◌-◌, ◌≤◌, ◌<◌, ◌≡◌, refl, sym, ap, ◌∙◌, arith, false, some, List, [], ◌∷◌,
  ◌++◌, ◌==◌, length, Bool-cases, inl, inr, All, length-append, append_nil, append_assoc, All-mono,
  All-append, map,
}
use nw_proj.Text.{Text, fgets, take_line}
use nw_proj.Routing.Load.Words.{IsWord, IsLine, line_of}
use nw_proj.Routing.Load.{bufsiz, lines_from, file_lines, Fields}

take_line-append : (n : ℕ) (s : Text) → (take_line n s).0 ++ (take_line n s).1 ≡ s
unfolding take_line
take_line-append zero s = refl
take_line-append (suc n) [] = refl
take_line-append (suc n) (c ∷ cs) = elim (Bool-cases (c == 10)) [
  | inl newline ↦ rw (newline, take_line) refl
  | inr other ↦ rw (other, take_line) (ap (λ (l : Text). c ∷ l) (take_line-append n cs))
]

take_line-shorter : (n : ℕ) (s : Text) → length (take_line n s).1 ≤ length s
take_line-shorter n s =
    omega
      (arith, length-append (take_line n s).0 (take_line n s).1, ap length (take_line-append n s))

take_line-takes : (n : ℕ) (c : ℕ) (cs : Text) → 0 < n → length (take_line n (c ∷ cs)).1 ≤ length cs
unfolding take_line
take_line-takes zero c cs h = absurd (omega arith)
take_line-takes (suc n) c cs h = elim (Bool-cases (c == 10)) [
  | inl newline ↦ rw (newline, take_line) (omega arith)
  | inr other ↦ rw (other, take_line) (take_line-shorter n cs)
]

-- Texts one after the other.
unfoldable pub concat : List Text → Text
concat [] = []
concat (l ∷ ls) = l ++ concat ls

concat-lines_from : (n : ℕ) (s : Text) → length s ≤ n → concat (lines_from n s) ≡ s
unfolding concat lines_from fgets
concat-lines_from zero [] h = refl
concat-lines_from zero (c ∷ cs) h = absurd (omega arith)
concat-lines_from (suc n) [] h = refl
concat-lines_from (suc n) (c ∷ cs) h =
    ap (λ (l : Text). (take_line 8191 (c ∷ cs)).0 ++ l)
      (concat-lines_from n (take_line 8191 (c ∷ cs)).1
        (omega (arith, take_line-takes 8191 c cs, h)))
    ∙ take_line-append 8191 (c ∷ cs)

-- The lines that the loop over a file reads are all of it, cut at every newline and after 8191
-- characters.
pub concat-file_lines : (s : Text) → concat (file_lines s) ≡ s
unfolding file_lines
concat-file_lines s = concat-lines_from (length s) s (omega arith)

-- `fgets` takes a line that fits.
take_line-newline :
    (n : ℕ) (s rest : Text)
    → All (λ x. (x == 10) ≡ false) s
    → length s < n
    → take_line n (s ++ 10 ∷ rest) ≡ (s ++ 10 ∷ [], rest)
unfolding take_line
take_line-newline zero s rest h k = absurd (omega arith)
take_line-newline (suc n) [] rest h k = refl
take_line-newline (suc n) (c ∷ cs) rest h k =
    rw (h.0, take_line)
      (ap (λ (l : Text × Text). (c ∷ l.0, l.1)) (take_line-newline n cs rest h.1 (omega arith)))

fgets-take_line : (n : ℕ) (s : Text) → 0 < length s → fgets n s ≡ some (take_line (n - 1) s)
unfolding fgets
fgets-take_line n [] h = absurd (omega arith)
fgets-take_line n (c ∷ cs) h = refl

-- A text that fgets reads as one line, whatever follows it.
pub record IsFileLine (l : Text) : Type 0 where
  pub nonempty : 0 < length l
  pub read : (rest : Text) → fgets bufsiz (l ++ rest) ≡ some (l, rest)

-- A text without a newline that fits the buffer with one is read with it.
pub fgets-newline :
    (s rest : Text)
    → All (λ x. (x == 10) ≡ false) s
    → length s < 8191
    → fgets bufsiz (s ++ 10 ∷ rest) ≡ some (s ++ 10 ∷ [], rest)
fgets-newline s rest plain fits =
    fgets-take_line bufsiz (s ++ 10 ∷ rest) (omega (arith, length-append s (10 ∷ rest)))
    ∙ ap (λ (l : Text × Text). some l) (take_line-newline 8191 s rest plain fits)

pub no_newline : (w : Text) → IsWord w → All (λ x. (x == 10) ≡ false) w
no_newline w h = All-mono _ _ w (λ x k. ground (arith, k.1)) h.plain

-- The line without its newline.
unlined : Fields → Text
unlined f = f.dest ++ 32 ∷ (f.gw ++ 32 ∷ (f.mask ++ 32 ∷ f.iface))

line_of-unlined : (f : Fields) (rest : Text) → line_of f ++ rest ≡ unlined f ++ 10 ∷ rest
unfolding line_of unlined
line_of-unlined f rest = simp append_assoc

fgets-line_of :
    (f : Fields) (rest : Text)
    → IsLine f
    → fgets bufsiz (line_of f ++ rest) ≡ some (line_of f, rest)
unfolding unlined
fgets-line_of f rest h =
    let fits : length (unlined f) < 8191 = omega (
      arith,
      length-append f.dest (32 ∷ (f.gw ++ 32 ∷ (f.mask ++ 32 ∷ f.iface))),
      length-append f.gw (32 ∷ (f.mask ++ 32 ∷ f.iface)),
      length-append f.mask (32 ∷ f.iface),
      h.dest.short,
      h.gw.short,
      h.mask.short,
      h.iface.short,
    ) in
    let plain : All (λ x. (x == 10) ≡ false) (unlined f) =
      All-append _ f.dest _ (no_newline f.dest h.dest) (
        refl,
        All-append _ f.gw _ (no_newline f.gw h.gw) (
          refl,
          All-append _ f.mask _ (no_newline f.mask h.mask) (refl, no_newline f.iface h.iface),
        ),
      ) in
    let whole : unlined f ++ 10 ∷ [] ≡ line_of f =
      sym (line_of-unlined f []) ∙ append_nil (line_of f) in
    let line_before : Text → Option (Text × Text) = λ l. some (l, rest) in
    ap (λ (s : Text). fgets bufsiz s) (line_of-unlined f rest)
    ∙ (fgets-newline (unlined f) rest plain fits ∙ ap line_before whole)

length-line_of : (f : Fields) → 0 < length (line_of f)
unfolding line_of
length-line_of f =
    omega (arith, length-append f.dest (32 ∷ (f.gw ++ 32 ∷ (f.mask ++ 32 ∷ (f.iface ++ 10 ∷ [])))))

line_of-IsFileLine : (f : Fields) → IsLine f → IsFileLine (line_of f)
line_of-IsFileLine f h = record {
  nonempty = length-line_of f;
  read = λ rest. fgets-line_of f rest h;
}

line_of-AreFileLines : (fs : List Fields) → All IsLine fs → All IsFileLine (map line_of fs)
line_of-AreFileLines [] h = tt
line_of-AreFileLines (f ∷ fs) h = (line_of-IsFileLine f h.0, line_of-AreFileLines fs h.1)

-- The lines of a file, and what is read behind them.
lines_from-append :
    (ls : List Text) (rest : Text) (n : ℕ)
    → All IsFileLine ls
    → length (concat ls ++ rest) ≤ n
    → (k : ℕ) × (length rest ≤ k) × (lines_from n (concat ls ++ rest) ≡ ls ++ lines_from k rest)
unfolding concat lines_from
lines_from-append [] rest n h k = (n, k, refl)
lines_from-append (l ∷ ls) rest zero h k =
    absurd (
      omega (arith, h.0.nonempty, length-append (l ++ concat ls) rest, length-append l (concat ls)))
lines_from-append (l ∷ ls) rest (suc n) h k =
    let behind = concat ls ++ rest in
    let (j, enough, e) = lines_from-append ls rest n h.1 (
      omega (
        arith,
        h.0.nonempty,
        k,
        length-append (l ++ concat ls) rest,
        length-append l (concat ls),
        length-append (concat ls) rest,
      )) in
    (
      j,
      enough,
      ap (λ (s : Text). lines_from (suc n) s) (append_assoc l (concat ls) rest)
          ∙ (rw (h.0.read behind, lines_from) refl ∙ ap (λ (ks : List Text). l ∷ ks) e),
    )

lines_from-empty : (k : ℕ) → lines_from k [] ≡ []
unfolding lines_from fgets
lines_from-empty zero = refl
lines_from-empty (suc k) = refl

lines_from-line_of :
    (k : ℕ) (f : Fields) (rest : Text)
    → IsLine f
    → length (line_of f ++ rest) ≤ k
    → (behind : List Text) × (lines_from k (line_of f ++ rest) ≡ line_of f ∷ behind)
unfolding lines_from
lines_from-line_of zero f rest h k =
    absurd (omega (arith, length-line_of f, length-append (line_of f) rest))
lines_from-line_of (suc k) f rest h enough =
    (lines_from k rest, rw (fgets-line_of f rest h, lines_from) refl)

-- A line behind the lines of a table.
pub file_lines-line_of :
    (fs : List Fields) (f : Fields) (rest : Text)
    → All IsLine fs
    → IsLine f
    → (behind : List Text) × (file_lines (concat (map line_of fs) ++ (line_of f ++ rest))
        ≡ map line_of fs ++ line_of f ∷ behind)
unfolding file_lines
file_lines-line_of fs f rest h k =
    let s = concat (map line_of fs) ++ (line_of f ++ rest) in
    let (n, enough, e) =
      lines_from-append (map line_of fs) (line_of f ++ rest) (length s) (line_of-AreFileLines fs h)
        (omega arith) in
    let (behind, e') = lines_from-line_of n f rest k enough in
    (behind, e ∙ ap (λ (ls : List Text). map line_of fs ++ ls) e')

pub file_lines-IsFileLine : (ls : List Text) → All IsFileLine ls → file_lines (concat ls) ≡ ls
unfolding file_lines
file_lines-IsFileLine ls h =
    let s = concat ls in
    let (k, _, e) = lines_from-append ls [] (length s) h (omega (arith, length-append s [])) in
    ap (λ (t : Text). lines_from (length s) t) (sym (append_nil s))
    ∙ (e ∙ (ap (λ (ks : List Text). ls ++ ks) (lines_from-empty k) ∙ append_nil ls))

pub file_lines-concat :
    (fs : List Fields) → All IsLine fs → file_lines (concat (map line_of fs)) ≡ map line_of fs
file_lines-concat fs h = file_lines-IsFileLine (map line_of fs) (line_of-AreFileLines fs h)
