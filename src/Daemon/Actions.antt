-- ===== src/Daemon/Actions.antt =====
-- crates/hyprpilot-daemon/src/actions.rs: the action grammar of a rule's `do` list.
pub mod Grammar
pub mod Execute
pub mod ParseAll
use hypr_pilot.Prelude.{
  ℕ, suc, ℤ, Bool, Option, none, some, List, [], ◌∷◌, ◌||◌, Text, codes, eq_text, trim, split_once,
  words, is_whitespace, is_empty, length, Result, ok, err, map_ok, map_err, ◌>>=◌, ◌>>◌, parse_i32,
  show_error, if◌then◌else◌, ◌++◌,
}
use hypr_pilot.Core.Connection
use hypr_pilot.Core.Connection.{
  Io, Send, Direction, left, right, up, down, FullscreenMode, maximize, fullscreen,
}
use hypr_pilot.Core.WindowSelector
use hypr_pilot.Core.WindowSelector.{WindowSelector}
use hypr_pilot.Core.WorkspaceRef
use hypr_pilot.Core.WorkspaceRef.{WorkspaceRef}

pub data Action : Type 0 where
  focus_window close_window : WindowSelector → Action
  kill_active cycle_next cycle_prev : Action
  switch_workspace move_to_workspace move_to_workspace_silent : WorkspaceRef → Action
  toggle_floating : Action
  set_fullscreen : FullscreenMode → Action
  center_active pin_active : Action
  move_active : Direction → Action
  resize_active : ℤ → ℤ → Action
  swap_active : Direction → Action
  exec focus_monitor move_workspace_to_monitor : Text → Action

pub data ParseError : Type 0 where
  empty : ParseError
  unknown_verb : Text → ParseError
  -- the verb, the expected and the actual number
  wrong_arg_count : Text → ℕ → ℕ → ParseError
  -- the verb, the argument and the reason
  invalid_arg : Text → Text → Text → ParseError

unfoldable pub require_empty : Text → Text → Result Unit ParseError
require_empty verb rest =
    if is_empty rest then ok tt else err (wrong_arg_count verb 0 (length (words rest)))

unfoldable pub require_nonempty : Text → Text → Text → Result Unit ParseError
require_nonempty verb arg_name rest =
    if is_empty rest
    then err (invalid_arg verb arg_name (codes "missing required argument"))
    else ok tt

unfoldable pub parse_window : Text → Text → Result WindowSelector ParseError
parse_window verb s = map_err (invalid_arg verb s) (WindowSelector.parse s)

unfoldable pub parse_ws : Text → Text → Result WorkspaceRef ParseError
parse_ws verb s = map_err (invalid_arg verb s) (WorkspaceRef.parse s)

unfoldable pub parse_dir : Text → Text → Result Direction ParseError
parse_dir verb s =
    if eq_text s (codes "l") || eq_text s (codes "left")
    then ok left
    else if eq_text s (codes "r") || eq_text s (codes "right")
    then ok right
    else if eq_text s (codes "u") || eq_text s (codes "up")
    then ok up
    else if eq_text s (codes "d") || eq_text s (codes "down")
    then ok down
    else if is_empty s
    then err (invalid_arg verb [] (codes "missing direction (l/r/u/d)"))
    else err (invalid_arg verb s (codes "expected one of l/r/u/d"))

unfoldable pub parse_mode : Text → Text → Result FullscreenMode ParseError
parse_mode verb s =
    if eq_text s (codes "0") || eq_text s (codes "maximize")
    then ok maximize
    else if eq_text s (codes "1") || eq_text s (codes "fullscreen")
    then ok fullscreen
    else err (invalid_arg verb s (codes "expected `0`/`maximize` or `1`/`fullscreen`"))

parse_axis : Text → Text → Text → Result ℤ ParseError
parse_axis verb label s = map_err (λ e. invalid_arg verb s (label ++ show_error e)) (parse_i32 s)

-- The arguments of `resize_active`.
unfoldable pub parse_resize : Text → List Text → Result Action ParseError
unfolding parse_axis
parse_resize verb [] = err (wrong_arg_count verb 2 0)
parse_resize verb (dx ∷ []) = err (wrong_arg_count verb 2 1)
parse_resize verb (dx_s ∷ dy_s ∷ []) = do
  dx ← parse_axis verb (codes "dx: ") dx_s
  dy ← parse_axis verb (codes "dy: ") dy_s
  ok (resize_active dx dy)
parse_resize verb (dx ∷ dy ∷ more ∷ rest) = err (wrong_arg_count verb 2 3)

-- An action with no argument.
abbrev pub bare_arm : Text → Text → Action → Result Action ParseError
bare_arm verb rest a = map_ok (λ _. a) (require_empty verb rest)

abbrev pub window_arm : (WindowSelector → Action) → Text → Text → Result Action ParseError
window_arm make verb rest = do
  require_nonempty verb (codes "selector") rest
  sel ← parse_window verb rest
  ok (make sel)

abbrev pub workspace_arm : (WorkspaceRef → Action) → Text → Text → Result Action ParseError
workspace_arm make verb rest = do
  require_nonempty verb (codes "workspace") rest
  ws ← parse_ws verb rest
  ok (make ws)

abbrev pub text_arm : (Text → Action) → Text → Text → Text → Result Action ParseError
text_arm make verb arg_name rest = require_nonempty verb arg_name rest >> ok (make rest)

-- The match on the verb, first to last arm.
unfoldable pub parse_verb : Text → Text → Result Action ParseError
unfolding require_empty require_nonempty parse_window parse_ws parse_dir parse_mode parse_resize
parse_verb verb rest =
    if eq_text verb (codes "focus_window")
    then window_arm focus_window verb rest
    else if eq_text verb (codes "close_window")
    then window_arm close_window verb rest
    else if eq_text verb (codes "kill_active")
    then bare_arm verb rest kill_active
    else if eq_text verb (codes "cycle_next")
    then bare_arm verb rest cycle_next
    else if eq_text verb (codes "cycle_prev")
    then bare_arm verb rest cycle_prev
    else if eq_text verb (codes "switch_workspace")
    then workspace_arm switch_workspace verb rest
    else if eq_text verb (codes "move_to_workspace")
    then workspace_arm move_to_workspace verb rest
    else if eq_text verb (codes "move_to_workspace_silent")
    then workspace_arm move_to_workspace_silent verb rest
    else if eq_text verb (codes "toggle_floating")
    then bare_arm verb rest toggle_floating
    else if eq_text verb (codes "fullscreen")
    then (do
      require_nonempty verb (codes "mode") rest
      mode ← parse_mode verb rest
      ok (set_fullscreen mode))
    else if eq_text verb (codes "center_active")
    then bare_arm verb rest center_active
    else if eq_text verb (codes "pin") || eq_text verb (codes "pin_active")
    then bare_arm verb rest pin_active
    else if eq_text verb (codes "move_active")
    then map_ok move_active (parse_dir verb rest)
    else if eq_text verb (codes "swap_active")
    then map_ok swap_active (parse_dir verb rest)
    else if eq_text verb (codes "resize_active")
    then parse_resize verb (words rest)
    else if eq_text verb (codes "exec")
    then text_arm exec verb (codes "command") rest
    else if eq_text verb (codes "focus_monitor")
    then text_arm focus_monitor verb (codes "monitor") rest
    else if eq_text verb (codes "move_workspace_to_monitor")
    then text_arm move_workspace_to_monitor verb (codes "monitor") rest
    else err (unknown_verb verb)

-- `splitn(2, char::is_whitespace)` and the trimmed rest.
unfoldable pub parse : Text → Result Action ParseError
unfolding parse_verb
parse input =
    let trimmed = trim input in
    if is_empty trimmed then err empty else elim (split_once is_whitespace trimmed) [
      | none ↦ parse_verb trimmed []
      | some (verb, rest) ↦ parse_verb verb (trim rest)
    ]

-- `collect` over the enumerated results: the first error ends it, with its index.
unfoldable pub parse_from : ℕ → List Text → Result (List Action) (ℕ × ParseError)
parse_from i [] = ok []
parse_from i (s ∷ rest) = do
  a ← map_err (λ e. (i, e)) (parse s)
  as' ← parse_from (suc i) rest
  ok (a ∷ as')

unfoldable pub parse_all : List Text → Result (List Action) (ℕ × ParseError)
unfolding parse_from
parse_all actions = parse_from 0 actions

module _ {W : Type 0} (send_raw : Send W) where
  unfoldable pub execute : Action → Io W Unit
  execute (focus_window s) = Connection.focus_window send_raw s
  execute (close_window s) = Connection.close_window send_raw s
  execute kill_active = Connection.kill_active send_raw
  execute cycle_next = Connection.cycle_next send_raw
  execute cycle_prev = Connection.cycle_prev send_raw
  execute (switch_workspace w) = Connection.switch_workspace send_raw w
  execute (move_to_workspace w) = Connection.move_active_to_workspace send_raw w
  execute (move_to_workspace_silent w) = Connection.move_active_to_workspace_silent send_raw w
  execute toggle_floating = Connection.toggle_floating send_raw
  execute (set_fullscreen mode) = Connection.set_fullscreen send_raw mode
  execute center_active = Connection.center_active send_raw
  execute pin_active = Connection.pin_active send_raw
  execute (move_active d) = Connection.move_active send_raw d
  execute (resize_active dx dy) = Connection.resize_active send_raw dx dy
  execute (swap_active d) = Connection.swap_active send_raw d
  execute (exec cmd) = Connection.exec send_raw cmd
  execute (focus_monitor m) = Connection.focus_monitor send_raw m
  execute (move_workspace_to_monitor m) = Connection.move_workspace_to_monitor send_raw m
