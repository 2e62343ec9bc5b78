-- ===== src/Mcp/Tools/Ops.antt =====
-- crates/hyprpilot-mcp/src/tools.rs: what a tool call comes to, and the checks of its arguments.
use hypr_pilot.Prelude.{
  ℕ, ℤ, Bool, ◌&&◌, Option, none, some, [], ◌∷◌, ◌++◌, ◌+◌, ◌-◌, Text, codes, Result, ok, err,
  map_err, ◌>>=◌, ltb, leb, ◌==◌, if◌then◌else◌, show_ℕ,
}
use hypr_pilot.Core.Connection as Core
use hypr_pilot.Core.Connection.{Direction, FullscreenMode}
use hypr_pilot.Input.Error.{to_string}
use hypr_pilot.Input.Keys
use hypr_pilot.Input.Keys.{KeyCombo}
use hypr_pilot.Input.Buttons.{MouseButton, left, right, middle, x1, x2, parse_button}
use hypr_pilot.Daemon.Protocol.{Request}
use hypr_pilot.Vision.Geometry.{
  Region, validate, ImageFormat, Psm, auto, single_block, single_line, sparse_text,
}
use hypr_pilot.Vision.Geometry as Vision
use hypr_pilot.Mcp.Tools.Args.{
  DirArg, l, r, u, d, FsModeArg, maximize, fullscreen, ImageFormatArg, png, jpeg,
}
use hypr_pilot.Mcp.Tools.Kinds.{Kind, Args}

pub data CaptureOp : Type 0 where
  full : (monitor : Option Text) (cursor : Bool) (format : ImageFormat) → CaptureOp
  of_region : (region : Region) (cursor : Bool) (format : ImageFormat) → CaptureOp

pub data OcrOp : Type 0 where
  screen : (lang : Text) (psm : Psm) → OcrOp
  of_region : (region : Region) (lang : Text) (psm : Psm) → OcrOp
  active_window : (lang : Text) (psm : Psm) → OcrOp

pub record FindTextOp : Type 0 where
  pub query : Text
  pub region : Option Region
  pub active_window : Bool
  pub case_sensitive : Bool
  pub min_confidence : ℤ
  pub psm : Psm
  pub lang : Text

pub record ClickTextOp : Type 0 where
  pub query : Text
  pub region : Option Region
  pub active_window : Bool
  pub case_sensitive : Bool
  pub min_confidence : ℤ
  pub psm : Psm
  pub lang : Text
  pub button : MouseButton
  pub match_index : ℕ
  pub require_unique : Bool
  pub dry_run : Bool

pub record A11yClickOp : Type 0 where
  pub query : Text
  pub role : Option Text
  pub pid : Option ℤ
  pub button : MouseButton
  pub match_index : ℕ
  pub require_unique : Bool
  pub max_nodes : Option ℕ
  pub dry_run : Bool

pub data Dispatch : Type 0 where
  forward : Request → Dispatch
  preview : Text → Dispatch
  preview_snapshot_restore : (name : Text) → Dispatch
  capture : CaptureOp → Dispatch
  ocr : OcrOp → Dispatch
  find_text : FindTextOp → Dispatch
  click_text : ClickTextOp → Dispatch
  a11y_click : A11yClickOp → Dispatch

pub data DispatchError : Type 0 where
  unknown_tool : Text → DispatchError
  invalid_args : (tool message : Text) → DispatchError

-- serde's reader of each struct; it fails with a message.
pub record Serde (Value : Type 0) : Type 0 where
  pub is_null : Value → Bool
  pub empty_object : Value
  pub from_value : (k : Kind) → Value → Result (Args k) Text

-- `null` stands for the empty object.
unfoldable pub parse_args :
    {Value : Type 0} → Serde Value → (k : Kind) → Text → Value → Result (Args k) DispatchError
parse_args serde k tool args =
    let given = if serde.is_null args then serde.empty_object else args in
    map_err (invalid_args tool) (serde.from_value k given)

unfoldable pub direction_of : DirArg → Direction
direction_of l = Core.left
direction_of r = Core.right
direction_of u = Core.up
direction_of d = Core.down

-- The derived `Debug`.
unfoldable pub debug_direction : DirArg → Text
debug_direction l = codes "L"
debug_direction r = codes "R"
debug_direction u = codes "U"
debug_direction d = codes "D"

unfoldable pub mode_of : FsModeArg → FullscreenMode
mode_of maximize = Core.maximize
mode_of fullscreen = Core.fullscreen

unfoldable pub mode_name : FsModeArg → Text
mode_name maximize = codes "maximize"
mode_name fullscreen = codes "fullscreen"

-- `unwrap_or_default` and `to_vision`
unfoldable pub format_of : Option ImageFormatArg → ImageFormat
format_of none = Vision.png
format_of (some png) = Vision.png
format_of (some jpeg) = Vision.jpeg

-- The derived `Debug`.
unfoldable pub debug_button : MouseButton → Text
debug_button left = codes "Left"
debug_button right = codes "Right"
debug_button middle = codes "Middle"
debug_button x1 = codes "X1"
debug_button x2 = codes "X2"

unfoldable pub parse_psm : Text → ℕ → Result Psm DispatchError
parse_psm tool n =
    if n == 3
    then ok auto
    else if n == 6
    then ok single_block
    else if n == 7
    then ok single_line
    else if n == 11
    then ok sparse_text
    else err (invalid_args tool (codes "psm must be one of 3, 6, 7, 11; got " ++ show_ℕ n))

-- `region.validate()` with its error made one of the tool.
unfoldable pub checked_region : Text → Region → Result Region DispatchError
checked_region tool region = map_err (invalid_args tool) (validate region) >>= λ _. ok region

unfoldable pub build_optional_region :
    Text → Option ℤ → Option ℤ → Option ℕ → Option ℕ → Result (Option Region) DispatchError
unfolding checked_region
build_optional_region tool none none none none = ok none
build_optional_region tool (some x) (some y) (some w) (some h) =
    checked_region tool (record { x = x; y = y; w = w; h = h }) >>= λ region. ok (some region)
build_optional_region tool _ _ _ _ =
    err (invalid_args tool (codes "region requires all of x, y, w, h (or none of them)"))

unfoldable pub reject_region_with_active_window : Text → Bool → Bool → Result Unit DispatchError
reject_region_with_active_window tool has_region scoped =
    if has_region && scoped
    then err (
        invalid_args tool
          (codes "active_window cannot be combined with an explicit x/y/w/h region"))
    else ok tt

unfoldable pub parse_combo : Text → Text → Result KeyCombo DispatchError
parse_combo tool s = map_err (λ e. invalid_args tool (to_string e)) (Keys.parse s)

-- `MouseButton::parse` with its error made one of the tool.
unfoldable pub tool_button : Text → Text → Result MouseButton DispatchError
tool_button tool s = map_err (λ e. invalid_args tool (to_string e)) (parse_button s)

-- A button that may be left out.
unfoldable pub optional_button : Text → Option Text → Result MouseButton DispatchError
unfolding tool_button
optional_button tool none = ok left
optional_button tool (some s) = tool_button tool s

-- The UTF-8 bytes of a character, and of a text.
unfoldable pub width : ℕ → ℕ
width c = if ltb c 0x80 then 1 else if ltb c 0x800 then 2 else if ltb c 0x10000 then 3 else 4

unfoldable pub byte_len : Text → ℕ
unfolding width
byte_len [] = 0
byte_len (c ∷ s) = width c + byte_len s

-- The longest beginning that ends at a character and has at most `max` bytes.
unfoldable pub floor_boundary : Text → ℕ → Text
unfolding width
floor_boundary [] max = []
floor_boundary (c ∷ s) max = if leb (width c) max then c ∷ floor_boundary s (max - width c) else []

unfoldable pub truncate : Text → ℕ → Text
unfolding byte_len floor_boundary
truncate s max = if leb (byte_len s) max then s else floor_boundary s max

unfoldable pub forward_or_preview : Bool → Request → Text → Result Dispatch DispatchError
forward_or_preview dry_run request text = ok (if dry_run then preview text else forward request)

unfoldable pub forward_or_preview_static : Bool → Request → Text → Dispatch
forward_or_preview_static dry_run request name =
    if dry_run then preview (codes "would invoke " ++ name) else forward request
