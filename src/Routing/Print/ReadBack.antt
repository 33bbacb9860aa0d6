-- ===== src/Routing/Print/ReadBack.antt =====
-- sr_load_rt reads the entries that sr_print_routing_table prints.
use nw_proj.Base.{
  ℕ, zero, suc, ◌-◌, ◌<◌, ◌≡◌, refl, sym, ap, ◌∙◌, arith, Bool, true, false, Option, some, List, [],
  ◌∷◌, ◌++◌, length, replicate, All, All-append, append_assoc, append_nil, length-append,
  length-replicate, ◌==◌, if◌then◌else◌, map,
}
use nw_proj.Protocol.{iface_namelen}
use nw_proj.Text.{Text, fgets, strncpy_short}
use nw_proj.Instance.{RtEntry, ok, ◌>>=◌}
use nw_proj.Routing.{sr_add_rt_entry}
use nw_proj.Routing.Load.{
  bufsiz, Fields, words_from, fit, set_fields, scan_line, addresses, load_lines, file_lines,
  sr_load_rt,
}
use nw_proj.Routing.Load.Words.{IsWord, IsSeparator, words_from-word}
use nw_proj.Routing.Load.Lines.{
  IsFileLine, concat, file_lines-IsFileLine, fgets-newline, no_newline,
}
use nw_proj.Routing.Print.{column, sr_print_routing_entry, print_entries}

blank : IsSeparator 32
blank = record { not_zero = refl; space = refl }

tabulator : IsSeparator 9
tabulator = record { not_zero = refl; space = refl }

words_from-blanks :
    (k : ℕ) (rest : Text) → words_from [] (replicate k 32 ++ 9 ∷ rest) ≡ words_from [] rest
unfolding words_from
words_from-blanks zero rest = refl
words_from-blanks (suc k) rest = words_from-blanks k rest

words_from-padded :
    (w : Text) (k : ℕ) (rest : Text)
    → IsWord w
    → words_from [] (w ++ (replicate k 32 ++ 9 ∷ rest)) ≡ w ∷ words_from [] rest
words_from-padded w zero rest h = words_from-word w 9 rest h tabulator
words_from-padded w (suc k) rest h =
    words_from-word w 32 (replicate k 32 ++ 9 ∷ rest) h blank
    ∙ ap (λ (ws : List Text). w ∷ ws) (words_from-blanks k rest)

words_from-column :
    (w rest : Text) → IsWord w → words_from [] (column w ++ rest) ≡ w ∷ words_from [] rest
unfolding column
words_from-column w rest h =
    ap (words_from []) (
      append_assoc w (replicate (14 - length w) 32 ++ 9 ∷ []) rest
      ∙ ap (λ (t : Text). w ++ t) (append_assoc (replicate (14 - length w) 32) (9 ∷ []) rest))
    ∙ words_from-padded w (14 - length w) rest h

length-column : (w : Text) → IsWord w → length (column w) < 48
unfolding column
length-column w h = omega (
  arith,
  h.short,
  length-append w (replicate (14 - length w) 32 ++ 9 ∷ []),
  length-append {A = ℕ} (replicate (14 - length w) 32) (9 ∷ []),
  length-replicate {A = ℕ} (14 - length w) 32,
)

-- No newline.
abbrev IsFlat : Text → Type 0
IsFlat s = All (λ x. (x == 10) ≡ false) s

replicate-IsFlat : (k : ℕ) → IsFlat (replicate k 32)
replicate-IsFlat zero = tt
replicate-IsFlat (suc k) = (refl, replicate-IsFlat k)

column-IsFlat : (w : Text) → IsWord w → IsFlat (column w)
unfolding column
column-IsFlat w h =
    All-append _ w _ (no_newline w h)
      (All-append _ (replicate (14 - length w) 32) _ (replicate-IsFlat (14 - length w)) (refl, tt))

module _ (inet_ntoa : ℕ → Text) (inet_aton : Text → Option ℕ) where
  -- inet_ntoa writes the address as a word that inet_aton reads as the address.
  pub record IsPrintable (ip : ℕ) : Type 0 where
    pub word : IsWord (inet_ntoa ip)
    pub inverse : inet_aton (inet_ntoa ip) ≡ some ip

  pub record IsPrintableEntry (e : RtEntry) : Type 0 where
    pub dest : IsPrintable e.dest
    pub gw : IsPrintable e.gw
    pub mask : IsPrintable e.mask
    pub iface : IsWord e.interface

  -- The words of a printed entry.
  words_of : RtEntry → Fields
  words_of e = record {
    dest = inet_ntoa e.dest;
    gw = inet_ntoa e.gw;
    mask = inet_ntoa e.mask;
    iface = e.interface;
  }

  words_from-sr_print_routing_entry :
      (e : RtEntry)
      → IsPrintableEntry e
      → words_from [] (sr_print_routing_entry inet_ntoa e)
        ≡ inet_ntoa e.dest ∷ inet_ntoa e.gw ∷ inet_ntoa e.mask ∷ e.interface ∷ []
  unfolding sr_print_routing_entry
  words_from-sr_print_routing_entry e h =
      let newline : IsSeparator 10 = record { not_zero = refl; space = refl } in
      let nothing : words_from [] [] ≡ [] = unfold words_from in refl in
      rw
        (
          words_from-column (inet_ntoa e.dest) _ h.dest.word,
          words_from-column (inet_ntoa e.gw) _ h.gw.word,
          words_from-column (inet_ntoa e.mask) _ h.mask.word,
          words_from-word e.interface 10 [] h.iface newline,
          nothing,
        )
        refl

  scan_line-sr_print_routing_entry :
      (e : RtEntry) (f : Fields)
      → IsPrintableEntry e
      → scan_line (sr_print_routing_entry inet_ntoa e) f ≡ ok (words_of e)
  unfolding scan_line set_fields fit words_of
  scan_line-sr_print_routing_entry e f h =
      rw (words_from-sr_print_routing_entry e h, scan_line)
        (ground (arith, h.dest.word.short, h.gw.word.short, h.mask.word.short, h.iface.short))

  addresses-words_of :
      (e : RtEntry)
      → IsPrintableEntry e
      → addresses inet_aton (words_of e) ≡ some (e.dest, (e.gw, e.mask))
  unfolding addresses words_of
  addresses-words_of e h = rw (h.dest.inverse, h.gw.inverse, h.mask.inverse, addresses) refl

  load_lines-entry :
      (e : RtEntry) (ls : List Text) (f : Fields) (cleared : Bool) (table : List RtEntry)
      → IsPrintableEntry e
      → load_lines inet_aton (sr_print_routing_entry inet_ntoa e ∷ ls) f cleared table
        ≡ load_lines inet_aton ls (words_of e) true ((if cleared then table else []) ++ e ∷ [])
  unfolding load_lines sr_add_rt_entry words_of
  load_lines-entry e ls f cleared table h =
      rw (scan_line-sr_print_routing_entry e f h, load_lines)
        (rw (addresses-words_of e h, ◌>>=◌)
          (rw (strncpy_short iface_namelen e.interface (omega (arith, h.iface.short))) refl))

  load_lines-entries :
      (es : List RtEntry) (f : Fields) (table : List RtEntry)
      → All IsPrintableEntry es
      → load_lines inet_aton (map (sr_print_routing_entry inet_ntoa) es) f true table
        ≡ ok (table ++ es, true)
  unfolding load_lines
  load_lines-entries [] f table h = ap (λ (t : List RtEntry). ok (t, true)) (sym (append_nil table))
  load_lines-entries (e ∷ es) f table h =
      load_lines-entry e (map (sr_print_routing_entry inet_ntoa) es) f true table h.0
      ∙ (load_lines-entries es (words_of e) (table ++ e ∷ []) h.1
          ∙ ap (λ (t : List RtEntry). ok (t, true)) (append_assoc table (e ∷ []) es))

  sr_print_routing_entry-IsFileLine :
      (e : RtEntry) → IsPrintableEntry e → IsFileLine (sr_print_routing_entry inet_ntoa e)
  unfolding sr_print_routing_entry
  sr_print_routing_entry-IsFileLine e h =
      let d = column (inet_ntoa e.dest) in
      let g = column (inet_ntoa e.gw) in
      let m = column (inet_ntoa e.mask) in
      let s = d ++ (g ++ (m ++ e.interface)) in
      let whole : (rest : Text) → s ++ 10 ∷ rest ≡ sr_print_routing_entry inet_ntoa e ++ rest =
        λ rest. simp append_assoc in
      let flat : IsFlat s = All-append _ d _ (column-IsFlat (inet_ntoa e.dest) h.dest.word) (
        All-append _ g _ (column-IsFlat (inet_ntoa e.gw) h.gw.word) (
          All-append _ m _ (column-IsFlat (inet_ntoa e.mask) h.mask.word)
            (no_newline e.interface h.iface))) in
      let fits : length s < 8191 = omega (
        arith,
        h.iface.short,
        length-column (inet_ntoa e.dest) h.dest.word,
        length-column (inet_ntoa e.gw) h.gw.word,
        length-column (inet_ntoa e.mask) h.mask.word,
        length-append d (g ++ (m ++ e.interface)),
        length-append g (m ++ e.interface),
        length-append m e.interface,
      ) in
      let line : s ++ 10 ∷ [] ≡ sr_print_routing_entry inet_ntoa e = whole [] ∙ append_nil _ in
      record {
        nonempty = omega (arith, ap length line, length-append s (10 ∷ []));
        read = λ rest.
            ap (λ (t : Text). fgets bufsiz t) (sym (whole rest))
            ∙ (fgets-newline s rest flat fits ∙ ap (with_rest rest) line);
      }
    where
      with_rest : Text → Text → Option (Text × Text)
      with_rest rest l = some (l, rest)

  lines-AreFileLines :
      (es : List RtEntry)
      → All IsPrintableEntry es
      → All IsFileLine (map (sr_print_routing_entry inet_ntoa) es)
  lines-AreFileLines [] h = tt
  lines-AreFileLines (e ∷ es) h =
      (sr_print_routing_entry-IsFileLine e h.0, lines-AreFileLines es h.1)

  print_entries-concat :
      (es : List RtEntry)
      → print_entries inet_ntoa es ≡ concat (map (sr_print_routing_entry inet_ntoa) es)
  unfolding print_entries concat
  print_entries-concat [] = refl
  print_entries-concat (e ∷ es) =
      ap (λ (t : Text). sr_print_routing_entry inet_ntoa e ++ t) (print_entries-concat es)

  -- A table of at least one route, whose addresses inet_ntoa writes as words of less than 32
  -- characters that inet_aton reads as those addresses, and whose interfaces' names are such words:
  -- what sr_print_routing_table prints behind its heading is, as a file, read by sr_load_rt with
  -- success as the same table, whatever the table was before and the arrays held.
  pub sr_load_rt-print_entries :
      (uninit : Fields) (e : RtEntry) (es table : List RtEntry)
      → All IsPrintableEntry (e ∷ es)
      → sr_load_rt inet_aton uninit (some (print_entries inet_ntoa (e ∷ es))) table
        ≡ ok (e ∷ es, true)
  unfolding sr_load_rt
  sr_load_rt-print_entries uninit e es table h =
      ap (λ (ls : List Text). load_lines inet_aton ls uninit false table)
        (ap file_lines (print_entries-concat (e ∷ es))
          ∙ file_lines-IsFileLine (map (sr_print_routing_entry inet_ntoa) (e ∷ es))
              (lines-AreFileLines (e ∷ es) h))
      ∙ (load_lines-entry e (map (sr_print_routing_entry inet_ntoa) es) uninit false table h.0
          ∙ load_lines-entries es (words_of e) (e ∷ []) h.1)
