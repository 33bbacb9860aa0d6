-- ===== src/Routing/Load.antt =====
-- sr_load_rt of sr_rt.c: the routing table from a file. inet_aton is a parameter: the address in
-- network order, if the text is one.
pub mod Lines
pub mod Words
pub mod Table
use nw_proj.Base.{
  ℕ, zero, suc, ◌+◌, ◌-◌, Bool, true, false, ◌&&◌, ◌||◌, Option, none, some, List, [], ◌∷◌, ◌++◌,
  ◌==◌, ltb, leb, length, if◌then◌else◌,
}
use nw_proj.Text.{Text, fgets}
use nw_proj.Instance.{RtEntry, Outcome, ok, crash, out_of_bounds, ◌>>=◌}
use nw_proj.Routing.{sr_add_rt_entry}

-- BUFSIZ of stdio.h.
abbrev pub bufsiz : ℕ
bufsiz = 8192

-- The size of each of the arrays dest, gw, mask and iface.
abbrev pub field_size : ℕ
field_size = 32

-- What `fgets` returns call after call, until it returns null; `n` calls at most.
unfoldable pub lines_from : ℕ → Text → List Text
lines_from zero s = []
lines_from (suc n) s = elim (fgets bufsiz s) [ none ↦ [] | some l ↦ l.0 ∷ lines_from n l.1 ]

-- The lines of a file. Each call takes a character, so there are no more lines than characters.
unfoldable pub file_lines : Text → List Text
file_lines s = lines_from (length s) s

-- `isspace`.
abbrev pub is_space : ℕ → Bool
is_space c = (c == 32) || (leb 9 c && leb c 13)

-- The words that `%s` reads one after the other, of which `word` is begun. The line ends at a zero.
unfoldable pub words_from : Text → Text → List Text
words_from [] [] = []
words_from (w ∷ ws) [] = (w ∷ ws) ∷ []
words_from [] (c ∷ cs) =
    let rest = words_from [] cs in
    let begun = words_from (c ∷ []) cs in if c == 0 then [] else if is_space c then rest else begun
words_from (w ∷ ws) (c ∷ cs) =
    let rest = words_from [] cs in
    let longer = words_from ((w ∷ ws) ++ c ∷ []) cs in
    if c == 0 then (w ∷ ws) ∷ [] else if is_space c then (w ∷ ws) ∷ rest else longer

-- The arrays that a line is scanned into.
pub record Fields : Type 0 where
  pub dest : Text
  pub gw : Text
  pub mask : Text
  pub iface : Text

-- `sscanf(line, "%s %s %s %s", …)` without its bounds: a word that is missing leaves its array as it
-- was.
unfoldable pub set_fields : List Text → Fields → Fields
set_fields [] f = f
set_fields (a ∷ []) f = record f { dest = a }
set_fields (a ∷ b ∷ []) f = record f { dest = a; gw = b }
set_fields (a ∷ b ∷ c ∷ []) f = record f { dest = a; gw = b; mask = c }
set_fields (a ∷ b ∷ c ∷ d ∷ rest) f = record { dest = a; gw = b; mask = c; iface = d }

-- A word that does not fit its array with the zero behind it is written past the end.
unfoldable pub fit : ℕ → List Text → Bool
fit zero ws = true
fit (suc n) [] = true
fit (suc n) (w ∷ ws) = ltb (length w) field_size && fit n ws

unfoldable pub scan_line : Text → Fields → Outcome Fields
scan_line line f =
    let ws = words_from [] line in if fit 4 ws then ok (set_fields ws f) else crash out_of_bounds

module _ (inet_aton : Text → Option ℕ) where
  -- The three addresses of a line, if all are some.
  unfoldable pub addresses : Fields → Option (ℕ × (ℕ × ℕ))
  addresses f = elim (inet_aton f.dest) [
    | none ↦ none
    | some d ↦ elim (inet_aton f.gw) [
      | none ↦ none
      | some g ↦ elim (inet_aton f.mask) [ none ↦ none | some m ↦ some (d, (g, m)) ]
    ]
  ]

  -- The loop, with the arrays as the line before left them, `cleared` the flag, and the table so far.
  -- The second component of the result is the return value: true for 0, false for -1.
  unfoldable pub load_lines :
      List Text → Fields → Bool → List RtEntry → Outcome (List RtEntry × Bool)
  load_lines [] f cleared table = ok (table, true)
  load_lines (l ∷ ls) f cleared table = do
    f' ← scan_line l f
    elim (addresses f') [
      | none ↦ ok (table, false)
      | some a ↦
          load_lines ls f' true
            (sr_add_rt_entry (if cleared then table else []) a.0 a.1.0 a.1.1 f'.iface)
    ]

  -- `content` is the file's, if it can be read, and `uninit` what the arrays hold before.
  unfoldable pub sr_load_rt : Fields → Option Text → List RtEntry → Outcome (List RtEntry × Bool)
  sr_load_rt uninit none table = ok (table, false)
  sr_load_rt uninit (some content) table = load_lines (file_lines content) uninit false table
