-- ===== src/Core/Connection.antt =====
-- crates/hyprpilot-core/src/ipc.rs, `dispatch` and `keyword`, and the dispatcher methods of
-- crates/hyprpilot-core/src/dispatch.rs.
-- The transport `send_raw` is a parameter: it sends a command to Hyprland, whose state is `W`, and
-- returns the reply or a transport error.
pub mod Laws
use hypr_pilot.Prelude.{
  ℤ, negsuc, Bool, ◌++◌, [], ◌∷◌, Text, codes, eq_text, starts_with, trim, first_word, Result, ok,
  err, show_i32, if◌then◌else◌,
}
use hypr_pilot.Core.Error.{Error, rejected, unknown_dispatcher}
use hypr_pilot.Core.WindowSelector
use hypr_pilot.Core.WindowSelector.{WindowSelector}
use hypr_pilot.Core.WorkspaceRef
use hypr_pilot.Core.WorkspaceRef.{WorkspaceRef}

-- A request to Hyprland: the reply or an error, and Hyprland's new state.
abbrev pub Io : Type 0 → Type 0 → Type 0
Io W A = W → Result A Error × W

abbrev pub Send : Type 0 → Type 0
Send W = Text → Io W Text

-- `Ok(a)`, with nothing asked.
unfoldable pub done : {W A : Type 0} → A → Io W A
done a w = (ok a, w)

-- `?` between two requests.
unfoldable pub and_then : {W A B : Type 0} → Io W A → (A → Io W B) → Io W B
and_then m f w = let r = m w in elim r.0 [ ok a ↦ f a r.1 | err e ↦ (err e, r.1) ]

-- How `dispatch` reads the reply.
unfoldable pub read_reply : Text → Result Text Error → Result Unit Error
read_reply args (err e) = err e
read_reply args (ok raw) =
    let trimmed = trim raw in
    if eq_text trimmed (codes "ok")
    then ok tt
    else if starts_with (codes "Invalid dispatcher") trimmed
    then err (unknown_dispatcher (first_word args))
    else err (rejected (first_word args) trimmed)

unfoldable pub read_keyword_reply : Text → Result Text Error → Result Unit Error
read_keyword_reply key (err e) = err e
read_keyword_reply key (ok raw) =
    let trimmed = trim raw in
    if eq_text trimmed (codes "ok") then ok tt else err (rejected (codes "keyword " ++ key) trimmed)

pub data Direction : Type 0 where
  left right up down : Direction

abbrev pub as_letter : Direction → Text
as_letter left = codes "l"
as_letter right = codes "r"
as_letter up = codes "u"
as_letter down = codes "d"

pub data FullscreenMode : Type 0 where
  maximize fullscreen : FullscreenMode

-- `mode as u8`, printed
abbrev pub mode_number : FullscreenMode → Text
mode_number maximize = codes "0"
mode_number fullscreen = codes "1"

module _ {W : Type 0} (send_raw : Send W) where
  unfoldable pub dispatch : Text → Io W Unit
  unfolding read_reply
  dispatch args w =
      let (reply, w') = send_raw (codes "dispatch " ++ args) w in (read_reply args reply, w')

  unfoldable pub keyword : Text → Text → Io W Unit
  unfolding read_keyword_reply
  keyword key value w =
      let (reply, w') = send_raw (codes "keyword " ++ key ++ codes " " ++ value) w in
      (read_keyword_reply key reply, w')

  unfoldable pub focus_window : WindowSelector → Io W Unit
  focus_window sel = dispatch (codes "focuswindow " ++ WindowSelector.encode sel)

  unfoldable pub cycle_next : Io W Unit
  cycle_next = dispatch (codes "cyclenext")

  unfoldable pub cycle_prev : Io W Unit
  cycle_prev = dispatch (codes "cyclenext prev")

  unfoldable pub focus_monitor : Text → Io W Unit
  focus_monitor name_or_dir = dispatch (codes "focusmonitor " ++ name_or_dir)

  unfoldable pub kill_active : Io W Unit
  kill_active = dispatch (codes "killactive")

  unfoldable pub close_window : WindowSelector → Io W Unit
  close_window sel = dispatch (codes "closewindow " ++ WindowSelector.encode sel)

  unfoldable pub exec : Text → Io W Unit
  exec command = dispatch (codes "exec " ++ command)

  unfoldable pub switch_workspace : WorkspaceRef → Io W Unit
  switch_workspace ws = dispatch (codes "workspace " ++ WorkspaceRef.encode ws)

  unfoldable pub move_active_to_workspace : WorkspaceRef → Io W Unit
  move_active_to_workspace ws = dispatch (codes "movetoworkspace " ++ WorkspaceRef.encode ws)

  unfoldable pub move_active_to_workspace_silent : WorkspaceRef → Io W Unit
  move_active_to_workspace_silent ws =
      dispatch (codes "movetoworkspacesilent " ++ WorkspaceRef.encode ws)

  unfoldable pub move_workspace_to_monitor : Text → Io W Unit
  move_workspace_to_monitor monitor = dispatch (codes "movecurrentworkspacetomonitor " ++ monitor)

  unfoldable pub toggle_floating : Io W Unit
  toggle_floating = dispatch (codes "togglefloating")

  unfoldable pub set_fullscreen : FullscreenMode → Io W Unit
  set_fullscreen mode = dispatch (codes "fullscreen " ++ mode_number mode)

  unfoldable pub center_active : Io W Unit
  center_active = dispatch (codes "centerwindow")

  unfoldable pub pin_active : Io W Unit
  pin_active = dispatch (codes "pin")

  unfoldable pub move_active : Direction → Io W Unit
  move_active dir = dispatch (codes "movewindow " ++ as_letter dir)

  unfoldable pub resize_active : ℤ → ℤ → Io W Unit
  resize_active dx dy = dispatch (codes "resizeactive " ++ show_i32 dx ++ codes " " ++ show_i32 dy)

  unfoldable pub swap_active : Direction → Io W Unit
  swap_active dir = dispatch (codes "swapwindow " ++ as_letter dir)

  unfoldable pub move_window_pixel : WindowSelector → ℤ → ℤ → Io W Unit
  move_window_pixel sel x y = dispatch (
      codes "movewindowpixel exact "
      ++ show_i32 x
      ++ codes " "
      ++ show_i32 y
      ++ codes ","
      ++ WindowSelector.encode sel)

  unfoldable pub resize_window_pixel : WindowSelector → ℤ → ℤ → Io W Unit
  resize_window_pixel sel width height = dispatch (
      codes "resizewindowpixel exact "
      ++ show_i32 width
      ++ codes " "
      ++ show_i32 height
      ++ codes ","
      ++ WindowSelector.encode sel)

  unfoldable pub pin_window : WindowSelector → Io W Unit
  pin_window sel = dispatch (codes "pin " ++ WindowSelector.encode sel)

  unfoldable pub toggle_floating_window : WindowSelector → Io W Unit
  toggle_floating_window sel = dispatch (codes "togglefloating " ++ WindowSelector.encode sel)

  unfoldable pub set_fullscreen_state : WindowSelector → ℤ → ℤ → Io W Unit
  set_fullscreen_state sel internal external = dispatch (
      codes "fullscreenstate "
      ++ show_i32 internal
      ++ codes " "
      ++ show_i32 external
      ++ codes ","
      ++ WindowSelector.encode sel)
