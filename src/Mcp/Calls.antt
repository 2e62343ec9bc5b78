-- ===== src/Mcp/Calls.antt =====
-- crates/hyprpilot-mcp/src/server.rs: how each outcome of `tools::dispatch` is carried out.
pub mod Outcomes
pub mod Harmless
use hypr_pilot.Prelude.{
  ℕ, ℤ, pos, negsuc, Bool, true, false, not, ◌&&◌, ◌||◌, Option, none, some, List, [], ◌∷◌, ◌++◌,
  filter, length, get_elem?, Text, codes, Result, ok, err, if◌then◌else◌, show_ℕ, show_i32, lt_ℤ,
  ltb, leb, ◌==◌, add_i32, is_empty, pos_part,
}
use hypr_pilot.Core.Types.{Client, Monitor}
use hypr_pilot.Daemon.Protocol.{
  Request, query_monitors, query_clients, query_active_window, a11y_find, input_mouse_move,
  input_mouse_click, snapshot_preview,
}
use hypr_pilot.Vision.Geometry.{Region, mime, ImageFormat, Psm}
use hypr_pilot.Input.Buttons.{MouseButton}
use hypr_pilot.Vision.TextSearch.{TextMatch, find_word_runs}
use hypr_pilot.Mcp.Rpc.{
  JsonRpcResponse, tool_execution, invalid_params, response_ok, called, Content,
}
use hypr_pilot.A11y.{Element, is_clickable, element_center}
use hypr_pilot.Mcp.Tools.Ops.{
  CaptureOp, full, OcrOp, screen, FindTextOp, ClickTextOp, A11yClickOp, Serde, Dispatch, forward,
  preview, preview_snapshot_restore, capture, ocr, find_text, click_text, a11y_click,
}
use hypr_pilot.Mcp.Session.{
  Host, Session, value, restore_preview, text_found, text_clicked, element_clicked, text_result,
  tool_error, Step, ◌>>=◌, ◌>>◌, give, fail, require, ask, run_input, or_malformed,
}
use hypr_pilot.Mcp.Clicks.{
  pick_scale, pick_window_for_pid, translate_all, click_point, render_ambiguity,
  render_a11y_ambiguity, render_click_preview, render_a11y_click_preview,
}

abbrev dry_run_text : Text → Text
dry_run_text text = codes "[dry_run] " ++ text ++ codes "\n\nPass `dry_run: false` to apply."

module _ {Value W : Type 0} (host : Host Value W) (id : Value) where
  -- A step of grim or tesseract, whose error is answered.
  unfoldable pub outside : {A : Type 0} → (W → Result A Text × W) → Step Value W A
  unfolding tool_error
  outside f s =
      let r = f s.world in
      let s' = record s { world = r.1 } in
      elim r.0 [ ok a ↦ (ok a, s') | err e ↦ (err (tool_error id tool_execution e), s') ]

  unfoldable pub forward_request : Request → Step Value W (JsonRpcResponse Value)
  unfolding ask
  forward_request request = do
    v ← ask host id request
    give (
        text_result id
          (if host.serde.is_null v then codes "ok" else host.to_string_pretty (value v)))

  unfoldable pub preview_restore : Text → Step Value W (JsonRpcResponse Value)
  unfolding ask or_malformed
  preview_restore name = do
    v ← ask host id (snapshot_preview name)
    p ← or_malformed id (codes "snapshot preview") (host.read_preview v)
    give (
        text_result id (
          dry_run_text
            (p.human_summary ++ codes "\n\n" ++ host.to_string_pretty (restore_preview p))))

  -- The focused window, which has to have a size.
  unfoldable pub region_of_window : Option Client → Step Value W Region
  unfolding tool_error
  region_of_window none = fail (
      tool_error id tool_execution
        (codes "no active window to scope to; focus a window or pass an explicit region"))
  region_of_window (some c) =
      require (lt_ℤ (pos 0) c.size.0 && lt_ℤ (pos 0) c.size.1) (
        tool_error id tool_execution (
          codes "active window `"
          ++ c.class
          ++ codes "` has no positive size ("
          ++ show_i32 c.size.0
          ++ codes "x"
          ++ show_i32 c.size.1
          ++ codes ")"))
      >> give (record { x = c.at.0; y = c.at.1; w = pos_part c.size.0; h = pos_part c.size.1 })

  unfoldable pub resolve_active_window_region : Step Value W Region
  unfolding ask or_malformed region_of_window
  resolve_active_window_region = do
    v ← ask host id query_active_window
    c ← or_malformed id (codes "active window") (host.read_active v)
    region_of_window c

  -- The region of a scan: the focused window, or the one that was given.
  unfoldable pub scan_region : Bool → Option Region → Step Value W (Option Region)
  unfolding resolve_active_window_region
  scan_region true region = do r ← resolve_active_window_region; give (some r)
  scan_region false region = give region

  unfoldable pub scan_for_matches :
      Option Region → Text → Bool → ℤ → Psm → Text → Step Value W (List TextMatch)
  unfolding outside translate_all
  scan_for_matches region query case_sensitive min_confidence psm lang = do
    words ← outside (host.ocr_words region lang psm min_confidence)
    give (translate_all region (find_word_runs words query case_sensitive))

  unfoldable pub handle_find_text : FindTextOp → Step Value W (JsonRpcResponse Value)
  unfolding scan_region scan_for_matches
  handle_find_text op = do
    region ← scan_region op.active_window op.region
    matches ← scan_for_matches region op.query op.case_sensitive op.min_confidence op.psm op.lang
    give (text_result id (host.to_string_pretty (text_found op.query matches)))

  unfoldable pub handle_capture : CaptureOp → ImageFormat → Step Value W (JsonRpcResponse Value)
  unfolding outside
  handle_capture op format = do
    bytes ← outside (host.grim op)
    give (response_ok id (called (Content.image (host.base64 bytes) (mime format) ∷ []) false))

  abbrev capture_format : CaptureOp → ImageFormat
  capture_format (full monitor cursor format) = format
  capture_format (CaptureOp.of_region region cursor format) = format

  unfoldable pub ocr_from : Option Region → Text → Psm → Step Value W (JsonRpcResponse Value)
  unfolding outside
  ocr_from region lang psm = do
    text ← outside (host.ocr_text region lang psm)
    give (text_result id text)

  unfoldable pub handle_ocr : OcrOp → Step Value W (JsonRpcResponse Value)
  unfolding ocr_from resolve_active_window_region
  handle_ocr (screen lang psm) = ocr_from none lang psm
  handle_ocr (OcrOp.of_region region lang psm) = ocr_from (some region) lang psm
  handle_ocr (OcrOp.active_window lang psm) = do
    r ← resolve_active_window_region
    ocr_from (some r) lang psm

  -- `let Some(a) = o else { return r }`
  abbrev unwrap : {A : Type 0} → Option A → JsonRpcResponse Value → Step Value W A
  unwrap none r = fail r
  unwrap (some a) r = give a

  -- The checks of a list of candidates, and the one that is chosen.
  unfoldable pub choose : {A : Type 0} → List A → Bool → ℕ → Text → Text → Text → Step Value W A
  unfolding tool_error
  choose candidates require_unique index nothing ambiguous out_of_bounds = do
    require (not (is_empty candidates)) (tool_error id tool_execution nothing)
    require (not (require_unique && (ltb 1 (length candidates) && index == 0)))
        (tool_error id tool_execution ambiguous)
    unwrap (get_elem? candidates index) (tool_error id invalid_params out_of_bounds)

  abbrev bounds_text : ℕ → ℕ → Text → Text → Text
  bounds_text index total what query =
      codes "match_index "
      ++ show_ℕ index
      ++ codes " out of bounds: only "
      ++ show_ℕ total
      ++ what
      ++ query
      ++ codes "`"

  -- The move and the click.
  unfoldable pub click_at : MouseButton → ℤ → ℤ → Step Value W Unit
  unfolding run_input
  click_at button x y = do
    run_input host id (input_mouse_move x y true)
    run_input host id (input_mouse_click button)

  unfoldable pub handle_click_text : ClickTextOp → Step Value W (JsonRpcResponse Value)
  unfolding scan_region scan_for_matches choose click_at ask or_malformed
  handle_click_text op = do
    region ← scan_region op.active_window op.region
    matches ← scan_for_matches region op.query op.case_sensitive op.min_confidence op.psm op.lang
    chosen ←
        choose matches op.require_unique op.match_index
          (codes "no on-screen text matched query `" ++ op.query ++ codes "`")
          (render_ambiguity op.query matches)
          (bounds_text op.match_index (length matches) (codes " match(es) for `") op.query)
    v ← ask host id query_monitors
    monitors ← or_malformed id (codes "monitors") (host.read_monitors v)
    let point = click_point host.divided (pick_scale host.divided monitors region) region chosen
    if op.dry_run
        then give (text_result id (render_click_preview op chosen (length matches) point.0 point.1))
        else (click_at op.button point.0 point.1
            >> give (
                text_result id
                  (host.to_string_pretty (text_clicked chosen point.0 point.1 (length matches)))))

  unfoldable pub handle_a11y_click : A11yClickOp → Step Value W (JsonRpcResponse Value)
  unfolding choose click_at ask or_malformed
  handle_a11y_click op = do
    found ← ask host id (a11y_find op.pid op.query op.role op.max_nodes)
    elements ← or_malformed id (codes "a11y elements") (host.read_elements found)
    let matches = filter is_clickable elements
    chosen ←
        choose matches op.require_unique op.match_index
          (codes "no clickable accessibility element matched `" ++ op.query ++ codes "`")
          (render_a11y_ambiguity op.query matches)
          (bounds_text op.match_index (length matches) (codes " clickable match(es) for `")
            op.query)
    pid ← unwrap (host.read_pid found) (
        tool_error id tool_execution
          (codes "daemon did not report a resolved pid to anchor the click"))
    v ← ask host id query_clients
    clients ← or_malformed id (codes "clients") (host.read_clients v)
    window ← unwrap (pick_window_for_pid clients pid) (
        tool_error id tool_execution
          (codes "no window found for pid " ++ show_i32 pid ++ codes " to anchor the click"))
    let cx = add_i32 window.at.0 (element_center chosen).0
    let cy = add_i32 window.at.1 (element_center chosen).1
    if op.dry_run
        then give
            (text_result id (render_a11y_click_preview op chosen (length matches) window cx cy))
        else (click_at op.button cx cy
            >> give (
                text_result id
                  (host.to_string_pretty (element_clicked chosen cx cy (length matches)))))

  -- The match on the outcome.
  unfoldable pub carry_out : Dispatch → Step Value W (JsonRpcResponse Value)
  unfolding forward_request preview_restore handle_capture handle_ocr handle_find_text
      handle_click_text handle_a11y_click
  carry_out (preview text) = give (text_result id (dry_run_text text))
  carry_out (forward request) = forward_request request
  carry_out (preview_snapshot_restore name) = preview_restore name
  carry_out (capture op) = handle_capture op (capture_format op)
  carry_out (ocr op) = handle_ocr op
  carry_out (find_text op) = handle_find_text op
  carry_out (click_text op) = handle_click_text op
  carry_out (a11y_click op) = handle_a11y_click op
