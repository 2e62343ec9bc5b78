-- ===== src/Mcp/Clicks.antt =====
-- crates/hyprpilot-mcp/src/server.rs: the tools that look for something on the screen and click it.
pub mod Origin
use hypr_pilot.Prelude.{
  ℕ, zero, ℤ, pos, negsuc, suc, ◌-◌, Bool, true, false, not, ◌&&◌, Option, none, some, List, [],
  ◌∷◌, ◌++◌, map, filter, find, length, get_elem?, Text, codes, Result, ok, err, if◌then◌else◌,
  show_ℕ, show_i32, eq_ℤ, lt_ℤ, ltb, leb, ◌==◌, add_i32, half, is_empty, or_option,
}
use hypr_pilot.Core.Types.{Client, Monitor}
use hypr_pilot.Daemon.Protocol.{
  Request, query_monitors, query_clients, query_active_window, a11y_find, input_mouse_move,
  input_mouse_click,
}
use hypr_pilot.Vision.Geometry.{Region, BBox, center}
use hypr_pilot.Vision.TextSearch.{Word, TextMatch, find_word_runs}
use hypr_pilot.Mcp.Rpc.{JsonRpcResponse, tool_execution, invalid_params}
use hypr_pilot.A11y.{Element, is_clickable, element_center}
use hypr_pilot.Mcp.Tools.Ops.{FindTextOp, ClickTextOp, A11yClickOp, debug_button}
use hypr_pilot.Mcp.Session.{
  Host, Session, text_found, text_clicked, element_clicked, text_result, tool_error, Step, ◌>>=◌,
  ◌>>◌, give, fail, ask, run_input, or_malformed,
}

-- `1.0_f64`, as its bits
abbrev pub one_f64 : ℕ
one_f64 = 0x3ff0000000000000

-- A point lies on the monitor, whose logical size is its mode divided by its scale.
unfoldable pub on_monitor : (ℤ → ℕ → ℤ) → ℤ → ℤ → Monitor → Bool
on_monitor divided x y m =
    let logical_w = divided m.width m.scale in
    let logical_h = divided m.height m.scale in
    not (lt_ℤ x m.x)
    && (lt_ℤ x (add_i32 m.x logical_w) && (not (lt_ℤ y m.y) && lt_ℤ y (add_i32 m.y logical_h)))

-- The scale of a monitor that was found, or of the focused one, or of the first one, or 1.
unfoldable pub scale_of : Option Monitor → List Monitor → ℕ
scale_of found monitors =
    elim (or_option found
      (or_option (find (λ (m : Monitor). m.focused) monitors) (get_elem? monitors 0))) [
        | none ↦ one_f64
        | some m ↦ m.scale
      ]

unfoldable pub pick_scale : (ℤ → ℕ → ℤ) → List Monitor → Option Region → ℕ
unfolding on_monitor scale_of
pick_scale divided monitors none = scale_of none monitors
pick_scale divided monitors (some r) =
    scale_of (find (on_monitor divided r.x r.y) monitors) monitors

-- The loop over the clients, with the first window of the process so far.
unfoldable pub pick_window_from : Option Client → List Client → ℤ → Option Client
pick_window_from fallback [] pid = fallback
pick_window_from fallback (c ∷ cs) pid =
    let kept = pick_window_from (or_option fallback (some c)) cs pid in
    let skipped = pick_window_from fallback cs pid in
    if eq_ℤ c.pid pid then (if eq_ℤ c.focus_history_id (pos 0) then some c else kept) else skipped

unfoldable pub pick_window_for_pid : List Client → ℤ → Option Client
unfolding pick_window_from
pick_window_for_pid clients pid = pick_window_from none clients pid

-- A match of the search in a region, moved to the screen.
unfoldable pub translate : Region → TextMatch → TextMatch
translate r m = record m {
  bbox = record { x = add_i32 m.bbox.x r.x; y = add_i32 m.bbox.y r.y; w = m.bbox.w; h = m.bbox.h };
}

unfoldable pub translate_all : Option Region → List TextMatch → List TextMatch
unfolding translate
translate_all none ms = ms
translate_all (some r) ms = map (translate r) ms

-- The point that `click_text` clicks, for a match of the scan.
unfoldable pub click_point : (ℤ → ℕ → ℤ) → ℕ → Option Region → TextMatch → ℤ × ℤ
unfolding center
click_point divided scale region chosen =
    let c = center chosen.bbox in
    let cx = divided c.0 scale in
    let cy = divided c.1 scale in
    elim region [ none ↦ (cx, cy) | some r ↦ (add_i32 cx r.x, add_i32 cy r.y) ]

-- `len().saturating_sub(1)`, which is the truncated subtraction
unfoldable pub ambiguity_head : Text → ℕ → Text → Text
ambiguity_head query count what =
    codes "ambiguous: `"
    ++ query
    ++ codes "` matched "
    ++ show_ℕ count
    ++ what
    ++ show_ℕ (count - 1)

abbrev pub box_text : ℤ → ℤ → ℤ → ℤ → Text
box_text x y w h =
    show_i32 x ++ codes "," ++ show_i32 y ++ codes " " ++ show_i32 w ++ codes "x" ++ show_i32 h

-- One line for each of the first `n` matches, numbered from `i`.
unfoldable pub match_lines : ℕ → ℕ → List TextMatch → Text
match_lines zero i ms = []
match_lines (suc n) i [] = []
match_lines (suc n) i (m ∷ ms) =
    codes "  ["
    ++ show_ℕ i
    ++ codes "] `"
    ++ m.text
    ++ codes "` at ("
    ++ show_i32 m.bbox.x
    ++ codes ","
    ++ show_i32 m.bbox.y
    ++ codes ") "
    ++ show_i32 m.bbox.w
    ++ codes "x"
    ++ show_i32 m.bbox.h
    ++ codes " conf="
    ++ show_i32 m.confidence
    ++ codes "\n"
    ++ match_lines n (suc i) ms

abbrev pub more_line : ℕ → Text
more_line count =
    if ltb 8 count then codes "  ... and " ++ show_ℕ (count - 8) ++ codes " more\n" else []

unfoldable pub render_ambiguity : Text → List TextMatch → Text
unfolding ambiguity_head match_lines
render_ambiguity query ms =
    ambiguity_head query (length ms) (codes " regions on screen. Pass `match_index` (0..")
    ++ codes ") to pick one, or `require_unique: false` to take the first:\n"
    ++ match_lines 8 0 ms
    ++ more_line (length ms)

unfoldable pub element_lines : ℕ → ℕ → List Element → Text
element_lines zero i es = []
element_lines (suc n) i [] = []
element_lines (suc n) i (e ∷ es) =
    codes "  ["
    ++ show_ℕ i
    ++ codes "] "
    ++ e.role
    ++ codes " `"
    ++ e.name
    ++ codes "` (window-rel "
    ++ box_text e.x e.y e.w e.h
    ++ codes ")\n"
    ++ element_lines n (suc i) es

unfoldable pub render_a11y_ambiguity : Text → List Element → Text
unfolding ambiguity_head element_lines
render_a11y_ambiguity query es =
    ambiguity_head query (length es)
      (codes " clickable accessibility elements. Pass `match_index` (0..")
    ++ codes ") to pick one, or `require_unique: false` to take the first:\n"
    ++ element_lines 8 0 es
    ++ more_line (length es)

unfoldable pub render_click_preview : ClickTextOp → TextMatch → ℕ → ℤ → ℤ → Text
render_click_preview op chosen total cx cy =
    codes "[dry_run] click_text would "
    ++ debug_button op.button
    ++ codes "-click `"
    ++ chosen.text
    ++ codes "` at compositor ("
    ++ show_i32 cx
    ++ codes ", "
    ++ show_i32 cy
    ++ codes ") (bbox "
    ++ box_text chosen.bbox.x chosen.bbox.y chosen.bbox.w chosen.bbox.h
    ++ codes ", conf "
    ++ show_i32 chosen.confidence
    ++ codes ", match "
    ++ show_ℕ op.match_index
    ++ codes "/"
    ++ show_ℕ total
    ++ codes ").\n\nPass `dry_run: false` to apply."

unfoldable pub render_a11y_click_preview : A11yClickOp → Element → ℕ → Client → ℤ → ℤ → Text
unfolding element_center
render_a11y_click_preview op chosen total window cx cy =
    codes "[dry_run] a11y_click would "
    ++ debug_button op.button
    ++ codes "-click "
    ++ chosen.role
    ++ codes " `"
    ++ chosen.name
    ++ codes "` at compositor ("
    ++ show_i32 cx
    ++ codes ", "
    ++ show_i32 cy
    ++ codes ").\nwindow `"
    ++ window.class
    ++ codes "` origin ("
    ++ show_i32 window.at.0
    ++ codes ", "
    ++ show_i32 window.at.1
    ++ codes ") + element window-relative centre ("
    ++ show_i32 (element_center chosen).0
    ++ codes ", "
    ++ show_i32 (element_center chosen).1
    ++ codes "); box "
    ++ box_text chosen.x chosen.y chosen.w chosen.h
    ++ codes "; match "
    ++ show_ℕ op.match_index
    ++ codes "/"
    ++ show_ℕ total
    ++ codes ".\n\nPass `dry_run: false` to apply."
