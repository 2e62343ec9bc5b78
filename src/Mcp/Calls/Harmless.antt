-- ===== src/Mcp/Calls/Harmless.antt =====
-- Carrying an outcome out: there is always an answer to the request, and an outcome that does not
-- act sends the daemon no request that acts.
use hypr_pilot.Prelude.{
  ℕ, ℤ, Bool, true, false, not, ◌≡◌, ◌⊎◌, inl, inr, refl, Option, none, some, List, filter,
  get_elem?, Text, codes, Result, arith, if◌then◌else◌,
}
use hypr_pilot.Core.Types.{Client}
use hypr_pilot.Input.Buttons.{MouseButton}
use hypr_pilot.Daemon.Protocol.{
  Request, query_monitors, query_clients, query_active_window, a11y_find, input_mouse_move,
  input_mouse_click, snapshot_preview,
}
use hypr_pilot.Vision.Geometry.{Region, Psm, ImageFormat}
use hypr_pilot.Mcp.Rpc.{JsonRpcResponse, RpcResult, response_ok, response_err}
use hypr_pilot.Mcp.Tools.DryRun.{acts, acts_request}
use hypr_pilot.Mcp.Tools.Ops.{
  CaptureOp, OcrOp, screen, FindTextOp, ClickTextOp, A11yClickOp, Dispatch, forward, preview,
  preview_snapshot_restore, capture, ocr, find_text, click_text, a11y_click,
}
use hypr_pilot.Mcp.Session.{Host, Step, ◌>>=◌, ◌>>◌, give, require, ask, or_malformed, tool_error}
use hypr_pilot.Mcp.Calls.{
  forward_request, preview_restore, region_of_window, resolve_active_window_region, scan_region,
  scan_for_matches, handle_find_text, handle_capture, ocr_from, handle_ocr, choose, click_at,
  handle_click_text, unwrap, handle_a11y_click, carry_out, capture_format,
}
use hypr_pilot.A11y.{is_clickable}
use hypr_pilot.Mcp.Clicks.{pick_window_for_pid}
use hypr_pilot.Mcp.Calls.Outcomes.{
  IsAnswer, plain, plain_error, response_ok-IsAnswer, chain, Keeps, Good, Any, give-Good, fail-Good,
  require-Good, ask-Good, run_input-Good, or_malformed-Good, outside-Good,
}

module _ {Value W : Type 0} (host : Host Value W) (free : Bool) (I : W → Type 0)
    (keeps : Keeps host free I) (id : Value) where
  abbrev Fine : {A : Type 0} → (A → Type 0) → Step Value W A → Type 0
  Fine = Good host free I keeps id

  abbrev AnyValue : {A : Type 0} → A → Type 0
  AnyValue = Any host free I keeps id

  abbrev Answers : JsonRpcResponse Value → Type 0
  Answers = IsAnswer id

  -- A step whose value does not matter, and then the rest.
  abbrev then_ :
      {A B : Type 0} {R : B → Type 0} {m : Step Value W A} {f : A → Step Value W B}
      → Fine AnyValue m
      → ((a : A) → Fine R (f a))
      → Fine R (m >>= f)
  then_ = chain host free I keeps id

  abbrev asked :
      (r : Request) → (free ≡ true) ⊎ (acts_request r ≡ false) → Fine AnyValue (ask host id r)
  asked = ask-Good host free I keeps id

  abbrev read :
      {A : Type 0} (what : Text) (r : Result A Text) → Fine AnyValue (or_malformed id what r)
  read = or_malformed-Good host free I keeps id

  abbrev needed :
      (b : Bool) (r : JsonRpcResponse Value) → IsAnswer id r → Fine AnyValue (require b r)
  needed = require-Good host free I keeps id

  given : {A : Type 0} (a : A) → Fine AnyValue (give a)
  given a = give-Good host free I keeps id a tt

  give-IsAnswer : (r : RpcResult) → Fine Answers (give (response_ok id r))
  give-IsAnswer r = give-Good host free I keeps id (response_ok id r) (response_ok-IsAnswer id r)

  forward_request-Good :
      (r : Request)
      → (free ≡ true) ⊎ (acts_request r ≡ false)
      → Fine Answers (forward_request host id r)
  unfolding forward_request
  forward_request-Good r q = then_ (asked r q) (λ v. give-IsAnswer _)

  preview_restore-Good : (name : Text) → Fine Answers (preview_restore host id name)
  unfolding preview_restore acts_request
  preview_restore-Good name =
      then_ (asked (snapshot_preview name) (inr refl))
        (λ v. then_ (read (codes "snapshot preview") (host.read_preview v)) (λ p. give-IsAnswer _))

  region_of_window-Good : (c : Option Client) → Fine AnyValue (region_of_window host id c)
  unfolding region_of_window tool_error response_ok
  region_of_window-Good none = fail-Good host free I keeps id _ plain
  region_of_window-Good (some c) = then_ (needed _ _ plain) (λ u. given _)

  region-Good : Fine AnyValue (resolve_active_window_region host id)
  unfolding resolve_active_window_region acts_request
  region-Good = then_ (asked query_active_window (inr refl)) (λ v.
      then_ (read (codes "active window") (host.read_active v)) (λ c. region_of_window-Good c))

  scan_region-Good : (b : Bool) (r : Option Region) → Fine AnyValue (scan_region host id b r)
  unfolding scan_region
  scan_region-Good true r = then_ region-Good (λ r. given _)
  scan_region-Good false r = given r

  scan-Good :
      (r : Option Region) (q : Text) (b : Bool) (c : ℤ) (p : Psm) (l : Text)
      → Fine AnyValue (scan_for_matches host id r q b c p l)
  unfolding scan_for_matches
  scan-Good r q b c p l =
      then_
        (outside-Good host free I keeps id (host.ocr_words r l p c) (keeps.ocr_words_keeps r l p c))
        (λ w. given _)

  handle_find_text-Good : (op : FindTextOp) → Fine Answers (handle_find_text host id op)
  unfolding handle_find_text
  handle_find_text-Good op = then_ (scan_region-Good op.active_window op.region) (λ r.
      then_ (scan-Good r op.query op.case_sensitive op.min_confidence op.psm op.lang)
        (λ m. give-IsAnswer _))

  handle_capture-Good :
      (op : CaptureOp) (f : ImageFormat) → Fine Answers (handle_capture host id op f)
  unfolding handle_capture
  handle_capture-Good op f =
      then_ (outside-Good host free I keeps id (host.grim op) (keeps.grim_keeps op))
        (λ b. give-IsAnswer _)

  ocr_from-Good : (r : Option Region) (l : Text) (p : Psm) → Fine Answers (ocr_from host id r l p)
  unfolding ocr_from
  ocr_from-Good r l p =
      then_ (outside-Good host free I keeps id (host.ocr_text r l p) (keeps.ocr_text_keeps r l p))
        (λ t. give-IsAnswer _)

  handle_ocr-Good : (op : OcrOp) → Fine Answers (handle_ocr host id op)
  unfolding handle_ocr
  handle_ocr-Good (screen l p) = ocr_from-Good none l p
  handle_ocr-Good (OcrOp.of_region r l p) = ocr_from-Good (some r) l p
  handle_ocr-Good (OcrOp.active_window l p) = then_ region-Good (λ r. ocr_from-Good (some r) l p)

  unwrap-Good :
      {A : Type 0} (o : Option A) (r : JsonRpcResponse Value)
      → IsAnswer id r
      → Fine AnyValue (unwrap host id o r)
  unwrap-Good none r a = fail-Good host free I keeps id r a
  unwrap-Good (some x) r a = given x

  choose-Good :
      {A : Type 0} (l : List A) (u : Bool) (i : ℕ) (n a b : Text)
      → Fine AnyValue (choose host id l u i n a b)
  unfolding choose tool_error response_ok response_err
  choose-Good l u i n a b =
      then_ (needed _ _ plain)
        (λ _. then_ (needed _ _ plain) (λ _. unwrap-Good (get_elem? l i) _ plain_error))

  click_at-Good : (b : MouseButton) (x y : ℤ) → free ≡ true → Fine AnyValue (click_at host id b x y)
  unfolding click_at
  click_at-Good b x y f =
      then_ (run_input-Good host free I keeps id (input_mouse_move x y true) (inl f))
        (λ _. run_input-Good host free I keeps id (input_mouse_click b) (inl f))

  -- The end of a click: the preview, or the clicks and their report.
  finish-Good :
      (dry : Bool) (b : MouseButton) (x y : ℤ) (p r : RpcResult)
      → (free ≡ true) ⊎ (not dry ≡ false)
      → Fine Answers (
          if dry
          then give (response_ok id p)
          else (click_at host id b x y >> give (response_ok id r)))
  finish-Good true b x y p r q = give-IsAnswer p
  finish-Good false b x y p r (inl f) = then_ (click_at-Good b x y f) (λ _. give-IsAnswer r)
  finish-Good false b x y p r (inr n) = absurd (ground (arith, n))

  handle_click_text-Good :
      (op : ClickTextOp)
      → (free ≡ true) ⊎ (not op.dry_run ≡ false)
      → Fine Answers (handle_click_text host id op)
  unfolding handle_click_text acts_request
  handle_click_text-Good op q = then_ (scan_region-Good op.active_window op.region) (λ r.
      then_ (scan-Good r op.query op.case_sensitive op.min_confidence op.psm op.lang) (λ m.
        then_ (choose-Good m op.require_unique op.match_index _ _ _) (λ c.
          then_ (asked query_monitors (inr refl)) (λ v.
            then_ (read (codes "monitors") (host.read_monitors v))
              (λ k. finish-Good op.dry_run op.button _ _ _ _ q)))))

  handle_a11y_click-Good :
      (op : A11yClickOp)
      → (free ≡ true) ⊎ (not op.dry_run ≡ false)
      → Fine Answers (handle_a11y_click host id op)
  unfolding handle_a11y_click acts_request tool_error response_ok
  handle_a11y_click-Good op q =
      then_ (asked (a11y_find op.pid op.query op.role op.max_nodes) (inr refl)) (λ v.
        then_ (read (codes "a11y elements") (host.read_elements v)) (λ es.
          then_ (choose-Good (filter is_clickable es) op.require_unique op.match_index _ _ _) (λ c.
            then_ (unwrap-Good (host.read_pid v) _ plain) (λ pid.
              then_ (asked query_clients (inr refl)) (λ w.
                then_ (read (codes "clients") (host.read_clients w)) (λ cs.
                  then_ (unwrap-Good (pick_window_for_pid cs pid) _ plain)
                    (λ win. finish-Good op.dry_run op.button _ _ _ _ q)))))))

  pub carry_out-Good :
      (d : Dispatch) → (free ≡ true) ⊎ (acts d ≡ false) → Fine Answers (carry_out host id d)
  unfolding carry_out acts
  carry_out-Good (preview t) q = give-IsAnswer _
  carry_out-Good (forward r) q = forward_request-Good r q
  carry_out-Good (preview_snapshot_restore n) q = preview_restore-Good n
  carry_out-Good (capture op) q = handle_capture-Good op (capture_format host id op)
  carry_out-Good (ocr op) q = handle_ocr-Good op
  carry_out-Good (find_text op) q = handle_find_text-Good op
  carry_out-Good (click_text op) q = handle_click_text-Good op q
  carry_out-Good (a11y_click op) q = handle_a11y_click-Good op q
