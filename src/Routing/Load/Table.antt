-- ===== src/Routing/Load/Table.antt =====
-- The table that sr_load_rt makes of a file.
use nw_proj.Base.{
  if◌then◌else◌, ℕ, ◌≡◌, refl, sym, ap, ◌∙◌, arith, Bool, true, false, Option, none, some, List, [],
  ◌∷◌, ◌++◌, map, All, append_assoc, append_nil,
}
use nw_proj.Protocol.{iface_namelen}
use nw_proj.Text.{Text, strncpy_short}
use nw_proj.Instance.{◌>>=◌, RtEntry, ok}
use nw_proj.Routing.{sr_add_rt_entry}
use nw_proj.Routing.Load.{Fields, fit, set_fields, scan_line, addresses, load_lines, sr_load_rt}
use nw_proj.Routing.Load.Words.{IsLine, line_of, words_from-line_of}
use nw_proj.Routing.Load.Lines.{concat, file_lines-line_of, file_lines-concat}

-- A route as a line of the file writes it.
pub record Route : Type 0 where
  pub text : Fields
  pub dest : ℕ
  pub gw : ℕ
  pub mask : ℕ

unfoldable pub entry_of : Route → RtEntry
entry_of r = record { dest = r.dest; gw = r.gw; mask = r.mask; interface = r.text.iface }

-- The file of some routes.
abbrev pub texts_of : List Route → List Fields
texts_of rs = map (λ (r : Route). r.text) rs

unfoldable pub file_of : List Route → Text
file_of rs = concat (map line_of (texts_of rs))

scan_line-line_of : (f g : Fields) → IsLine f → scan_line (line_of f) g ≡ ok f
unfolding scan_line set_fields fit
scan_line-line_of f g h =
    rw (words_from-line_of f h, scan_line)
      (ground (arith, h.dest.short, h.gw.short, h.mask.short, h.iface.short))

module _ (inet_aton : Text → Option ℕ) where
  -- A route whose words are addresses for `inet_aton`.
  pub record IsRoute (r : Route) : Type 0 where
    pub line : IsLine r.text
    pub addrs : addresses inet_aton r.text ≡ some (r.dest, (r.gw, r.mask))

  -- What is in the table when a route is added, and what stays of it.
  abbrev kept : Bool → List RtEntry → List RtEntry
  kept cleared table = if cleared then table else []

  load_lines-route :
      (r : Route) (ls : List Text) (f : Fields) (cleared : Bool) (table : List RtEntry)
      → IsRoute r
      → load_lines inet_aton (line_of r.text ∷ ls) f cleared table
        ≡ load_lines inet_aton ls r.text true (kept cleared table ++ entry_of r ∷ [])
  unfolding load_lines entry_of sr_add_rt_entry
  load_lines-route r ls f cleared table h =
      rw (scan_line-line_of r.text f h.line, load_lines)
        (rw (h.addrs, ◌>>=◌)
          (rw (strncpy_short iface_namelen r.text.iface (omega (arith, h.line.iface.short))) refl))

  load_lines-bad :
      (bad f : Fields) (ls : List Text) (cleared : Bool) (table : List RtEntry)
      → IsLine bad
      → addresses inet_aton bad ≡ none
      → load_lines inet_aton (line_of bad ∷ ls) f cleared table ≡ ok (table, false)
  unfolding load_lines
  load_lines-bad bad f ls cleared table h k =
      rw (scan_line-line_of bad f h, load_lines) (rw (k, ◌>>=◌) refl)

  -- The arrays after the lines of some routes.
  fields_after : List Route → Fields → Fields
  fields_after [] f = f
  fields_after (r ∷ rs) f = fields_after rs r.text

  load_lines-routes :
      (rs : List Route) (ls : List Text) (f : Fields) (table : List RtEntry)
      → All IsRoute rs
      → load_lines inet_aton (map line_of (texts_of rs) ++ ls) f true table
        ≡ load_lines inet_aton ls (fields_after rs f) true (table ++ map entry_of rs)
  unfolding fields_after
  load_lines-routes [] ls f table h =
      ap (λ (t : List RtEntry). load_lines inet_aton ls f true t) (sym (append_nil table))
  load_lines-routes (r ∷ rs) ls f table h =
      load_lines-route r (map line_of (texts_of rs) ++ ls) f true table h.0
      ∙ (load_lines-routes rs ls r.text (table ++ entry_of r ∷ []) h.1
          ∙ ap (λ (t : List RtEntry). load_lines inet_aton ls (fields_after rs r.text) true t)
              (append_assoc table (entry_of r ∷ []) (map entry_of rs)))

  load_lines-first :
      (r : Route) (rs : List Route) (ls : List Text) (f : Fields) (table : List RtEntry)
      → All IsRoute (r ∷ rs)
      → load_lines inet_aton (map line_of (texts_of (r ∷ rs)) ++ ls) f false table
        ≡ load_lines inet_aton ls (fields_after rs r.text) true (map entry_of (r ∷ rs))
  load_lines-first r rs ls f table h =
      load_lines-route r (map line_of (texts_of rs) ++ ls) f false table h.0
      ∙ load_lines-routes rs ls r.text (entry_of r ∷ []) h.1

  texts-AreLines : (rs : List Route) → All IsRoute rs → All IsLine (texts_of rs)
  texts-AreLines [] h = tt
  texts-AreLines (r ∷ rs) h = (h.0.line, texts-AreLines rs h.1)

  sr_load_rt-file_of_rest :
      (uninit : Fields) (r : Route) (rs : List Route) (bad : Fields) (rest : Text)
      (table : List RtEntry)
      → All IsRoute (r ∷ rs)
      → IsLine bad
      → addresses inet_aton bad ≡ none
      → sr_load_rt inet_aton uninit (some (file_of (r ∷ rs) ++ (line_of bad ++ rest))) table
        ≡ ok (map entry_of (r ∷ rs), false)
  unfolding sr_load_rt file_of
  sr_load_rt-file_of_rest uninit r rs bad rest table h k wrong =
      let (behind, e) =
        file_lines-line_of (texts_of (r ∷ rs)) bad rest (texts-AreLines (r ∷ rs) h) k in
      ap (λ (ls : List Text). load_lines inet_aton ls uninit false table) e
      ∙ (load_lines-first r rs (line_of bad ∷ behind) uninit table h
          ∙ load_lines-bad bad (fields_after rs r.text) behind true (map entry_of (r ∷ rs)) k wrong)

  pub sr_load_rt-file_of :
      (uninit : Fields) (r : Route) (rs : List Route) (table : List RtEntry)
      → All IsRoute (r ∷ rs)
      → sr_load_rt inet_aton uninit (some (file_of (r ∷ rs))) table
        ≡ ok (map entry_of (r ∷ rs), true)
  unfolding sr_load_rt file_of
  sr_load_rt-file_of uninit r rs table h =
      let lines = map line_of (texts_of (r ∷ rs)) in
      ap (λ (ls : List Text). load_lines inet_aton ls uninit false table)
        (file_lines-concat (texts_of (r ∷ rs)) (texts-AreLines (r ∷ rs) h) ∙ sym (append_nil lines))
      ∙ (load_lines-first r rs [] uninit table h ∙ (unfold load_lines in refl))

  -- A file of at least one route, each on a line of four words with a space between them, of less
  -- than 32 characters and addresses where addresses are due, is read with success as a table of
  -- those routes in their order, whatever the table was before and the arrays held. With a line
  -- behind them in which a word that should be an address is none, the file is refused, whatever
  -- follows that line, but the routes before it have replaced the table.
  pub sr_load_rt_lem :
      (uninit : Fields) (r : Route) (rs : List Route) (bad : Fields) (rest : Text)
      (table : List RtEntry)
      → All IsRoute (r ∷ rs)
      → IsLine bad
      → addresses inet_aton bad ≡ none
      → (sr_load_rt inet_aton uninit (some (file_of (r ∷ rs))) table
          ≡ ok (map entry_of (r ∷ rs), true))
        × (sr_load_rt inet_aton uninit (some (file_of (r ∷ rs) ++ (line_of bad ++ rest))) table
            ≡ ok (map entry_of (r ∷ rs), false))
  sr_load_rt_lem uninit r rs bad rest table h k wrong = (
    sr_load_rt-file_of uninit r rs table h,
    sr_load_rt-file_of_rest uninit r rs bad rest table h k wrong,
  )
