-- ===== src/Mcp/Tools/Registry.antt =====
-- crates/hyprpilot-mcp/src/tools.rs, `registry`: the tools with their groups and descriptions, in
-- the order of the source. The JSON schema that schemars derives of an argument struct is a parameter.
use hypr_pilot.Prelude.{Bool, true, false, List, [], ◌∷◌, ◌++◌, Text, codes}
use hypr_pilot.Mcp.Capability.{
  ToolGroup, read, window, workspace, destructive, process, undo, snapshot, rules, input, vision,
  a11y, binds,
}
use hypr_pilot.Mcp.Server.{ToolDef}
use hypr_pilot.Mcp.Tools.Kinds.{
  Kind, no_args, mut_no_args, selector_args, workspace_args, direction_args, resize_args,
  fullscreen_args, focus_monitor_args, monitor_args, exec_args, snapshot_name_args, input_text_args,
  input_keys_args, input_shortcut_args, input_mouse_move_args, input_mouse_click_args,
  screenshot_args, screenshot_region_args, screenshot_monitor_args, ocr_screen_args,
  ocr_region_args, find_text_position_args, click_text_args, a11y_tree_args, a11y_find_args,
  a11y_click_args, run_bind_args, snapshot_mut_args,
}

module _ (schema_for : Kind → Text) where
  -- `def::<T>`
  unfoldable pub def : Kind → Text → ToolGroup → Bool → Text → ToolDef
  def kind name group mutating description = record {
    name = name;
    group = group;
    description = description;
    mutating = mutating;
    schema = schema_for kind;
  }

  unfoldable pub query_tools : List ToolDef
  query_tools =
      def no_args (codes "query_clients") read false (
        codes
          "List all open windows managed by Hyprland. Returns a JSON array of clients with address, class, title, workspace, monitor, geometry, pid, and floating/fullscreen state. Read-only.")
      ∷ def no_args (codes "query_workspaces") read false (
          codes
            "List all workspaces with id, name, monitor, window count, and whether any window is currently fullscreen on them. Read-only.")
      ∷ def no_args (codes "query_monitors") read false (
          codes
            "List physical monitors with name, geometry, scale, refresh rate, and which workspace is currently active on each. Read-only.")
      ∷ def no_args (codes "query_active_window") read false (
          codes "Return the currently focused window, or `null` if no window has focus. Read-only.")
      ∷ def no_args (codes "query_active_workspace") read false
          (codes "Return the currently focused workspace. Read-only.")
      ∷ def no_args (codes "query_version") read false (
          codes
            "Return the live Hyprland version, commit, and build tag. Use this to detect compositor-version-specific behaviour. Read-only.")
      ∷ def no_args (codes "query_cursor_pos") read false
          (codes "Return the cursor's screen-space (x, y) position in pixels. Read-only.")
      ∷ def no_args (codes "query_binds") read false (
          codes
            "List the user's live Hyprland keybinds: decoded modifier names (`mods`: e.g. `[\"SUPER\"]`), key, dispatcher, and arg, plus submap and flags. Read from the running compositor (always current), so prefer this over parsing ~/.config/hypr or asking the user. Use it to discover what a chord does (e.g. find the terminal bind) before triggering it with `input_keys`. Read-only.")
      ∷ []

  unfoldable pub window_tools : List ToolDef
  window_tools =
      def selector_args (codes "focus_window") window true (
        codes
          "Move keyboard focus to a window. Reversible by focusing the previously-focused window. Not recorded in the undo stack (focus changes are too frequent to be useful there).")
      ∷ def mut_no_args (codes "cycle_next") window true (
          codes
            "Cycle focus to the next tiled window in the focused workspace. No state mutation beyond focus.")
      ∷ def mut_no_args (codes "cycle_prev") window true
          (codes "Cycle focus to the previous tiled window in the focused workspace.")
      ∷ def mut_no_args (codes "toggle_floating") window true (
          codes
            "Toggle floating mode on the focused window. Reversible by calling again. Not in undo stack.")
      ∷ def fullscreen_args (codes "set_fullscreen") window true (
          codes
            "Set fullscreen mode on the focused window. `maximize` covers the monitor while respecting gaps and bars; `fullscreen` is true exclusive. Reversible by calling with the same mode again.")
      ∷ def mut_no_args (codes "center_active") window true (
          codes
            "Center the focused window on its monitor. Floating windows only — has no effect on tiled windows.")
      ∷ def mut_no_args (codes "pin_active") window true (
          codes
            "Toggle the pinned (sticky-across-workspaces) state of the focused window. Floating windows only.")
      ∷ def direction_args (codes "move_active") window true (
          codes
            "Move the focused window in a direction (`l`, `r`, `u`, `d`). For tiled windows this swaps with the neighbour; for floating, it nudges by a fixed amount configured in Hyprland.")
      ∷ def resize_args (codes "resize_active") window true (
          codes
            "Resize the focused window by (dx, dy) pixels. Negative values shrink. For tiled windows this adjusts the split ratio.")
      ∷ def direction_args (codes "swap_active") window true (
          codes
            "Swap the focused window with its neighbour in the given direction. Tiled windows only.")
      ∷ []

  unfoldable pub workspace_tools : List ToolDef
  workspace_tools =
      def workspace_args (codes "switch_workspace") workspace true
        (codes "Switch the active workspace on the focused monitor. Does not move any windows.")
      ∷ def workspace_args (codes "move_to_workspace") workspace true (
          codes
            "Move the focused window to the target workspace and follow it. Recorded in the undo stack: undo will move the window back to its prior workspace and re-focus it.")
      ∷ def workspace_args (codes "move_to_workspace_silent") workspace true (
          codes
            "Move the focused window to the target workspace without changing focus or visible workspace. Recorded in the undo stack.")
      ∷ def focus_monitor_args (codes "focus_monitor") workspace true
          (codes "Focus a monitor by name (e.g. `eDP-1`) or direction (`l`, `r`, `u`, `d`).")
      ∷ def monitor_args (codes "move_workspace_to_monitor") workspace true
          (codes "Move the focused workspace to a named monitor. Windows go with it.")
      ∷ []

  unfoldable pub process_tools : List ToolDef
  process_tools =
      def mut_no_args (codes "kill_active") destructive true (
        codes
          "Close the currently focused window. DESTRUCTIVE: the application receives a close signal and loses unsaved state. The daemon captures the killed process's command line; undo will re-spawn a fresh instance (state is NOT restored). Requires `dry_run=false` to actually execute.")
      ∷ def selector_args (codes "close_window") destructive true (
          codes
            "Close a specific window matched by selector. DESTRUCTIVE — same caveats as `kill_active`. Recorded in the undo stack when a matching window is found at call time.")
      ∷ def exec_args (codes "exec") process true (
          codes
            "Spawn an external process via Hyprland's exec dispatcher. POTENTIALLY DANGEROUS: this runs an arbitrary shell command with the user's full privileges. Not in the undo stack — spawned processes are not tracked. Requires `dry_run=false`.")
      ∷ def mut_no_args (codes "undo") undo true (
          codes
            "Reverse the most recent reversible operation recorded by the daemon. May fail if the inverse cannot be applied (e.g. a window that was moved no longer exists). `dry_run=true` reports which entry would be undone without applying it.")
      ∷ def no_args (codes "undo_list") undo false (
          codes
            "List the daemon's undo stack: index, timestamp, and description of each reversible entry. The most recent entry has index 0. Read-only.")
      ∷ []

  unfoldable pub snapshot_tools : List ToolDef
  snapshot_tools =
      def snapshot_name_args (codes "snapshot_save") snapshot true (
        codes
          "Capture the current Hyprland state (windows + workspaces + monitors) as a named snapshot on disk. Use to mark a known-good layout before experimenting. The snapshot can be restored later via `snapshot_restore`.")
      ∷ def no_args (codes "snapshot_list") snapshot false
          (codes "List all on-disk snapshot names. Read-only.")
      ∷ def snapshot_name_args (codes "snapshot_diff") snapshot false (
          codes
            "Show what a `snapshot_restore` of this snapshot would change: which windows would move, which would toggle floating, which are missing, and which exist now but weren't in the snapshot. Read-only. Use this to preview a restore before applying.")
      ∷ def snapshot_mut_args (codes "snapshot_restore") snapshot true (
          codes
            "Restore a named snapshot. Best-effort: matches live windows to snapshot entries by address, then pid, then (initial_class, initial_title). For each match, restores workspace, floating state, floating geometry, fullscreen mode, and pin. Re-spawn of missing windows is NOT supported — those are reported and skipped. With `dry_run: true` (default) the response is a rich preview: a plain-English summary, per-category counts, the list of actions that would be applied, and the list that would be skipped. With `dry_run: false` the preview is still included alongside the per-action apply outcomes. Before applying, the current state is auto-saved as `_pre-restore-<unix_ts>` so this op is itself reversible.")
      ∷ def snapshot_name_args (codes "snapshot_delete") snapshot true (
          codes
            "Delete a snapshot file from disk. Idempotent. Does not affect live Hyprland state.")
      ∷ def no_args (codes "rules_list") rules false (
          codes
            "List the rules from the daemon's configured rules.toml. Returns the rules array as declared in the file. The daemon reads the file fresh on each call, so this reflects current on-disk state; if you edit rules.toml after the daemon started, the engine still uses the version it loaded at startup — restart the daemon to reload. Read-only.")
      ∷ def no_args (codes "rules_validate") rules false (
          codes
            "Parse and compile the rules.toml file. Returns `{ ok: true, rules: N }` on success, or a structured error with the offending rule label and action index. Use this to check a config change before restarting the daemon. Read-only.")
      ∷ def no_args (codes "rules_path") rules false (
          codes
            "Return the on-disk path the daemon reads rules from. Useful for opening the file in an editor without guessing the XDG resolution. Read-only.")
      ∷ []

  unfoldable pub input_tools : List ToolDef
  input_tools =
      def input_text_args (codes "input_type") input true (
        codes
          "Type free-form text into the focused window via wtype. VERY DANGEROUS: any focused terminal will execute the typed text as shell commands. Verify the focused window with `query_active_window` before applying. Daemon requires HYPRPILOT_DANGEROUS_INPUT_OK=1; this tool also requires the `input` capability group, which is NOT in the default profile.")
      ∷ def input_keys_args (codes "input_keys") input true (
          codes
            "Press a key chord in the focused window (e.g. `ctrl+shift+t`). Uses wtype, so the chord goes wherever focus is. Same safety gates as `input_type`.")
      ∷ def input_shortcut_args (codes "input_shortcut") input true (
          codes
            "Send a key chord to a specific window via Hyprland's sendshortcut dispatcher. Does not require wtype and does not change focus — the target window receives the chord even if it is hidden on another workspace. Safer than `input_keys` because it cannot accidentally fire in a terminal you didn't mean, but still subject to the same capability + env-var gates.")
      ∷ def input_mouse_move_args (codes "input_mouse_move") input true (
          codes
            "Move the mouse cursor via ydotool. With `absolute=true`, moves to screen coordinates (x, y); otherwise moves by delta. Requires ydotoold running with input-device access. Same capability + env-var gates as the rest of the input surface.")
      ∷ def input_mouse_click_args (codes "input_mouse_click") input true (
          codes
            "Click a mouse button at the current cursor position via ydotool. Button names: left, right, middle, x1/back, x2/forward. Same gates as input_mouse_move.")
      ∷ []

  unfoldable pub vision_tools : List ToolDef
  vision_tools =
      def screenshot_args (codes "screenshot") vision false (
        codes
          "Capture a screenshot of the entire compositor (or a single monitor if `monitor` is set). Returns the raw image bytes as a single MCP `image` content block, base64-encoded. Defaults: full compositor, no cursor, PNG. Privacy: this captures whatever is on screen, including potentially sensitive content; the `vision` capability group is NOT in the default profile.")
      ∷ def screenshot_region_args (codes "screenshot_region") vision false (
          codes
            "Capture a rectangular region of the compositor in pixel coordinates. `(x, y)` is the top-left corner; `w` and `h` are the dimensions. Coordinates may be negative (multi-monitor layouts). Returns the image as a base64 MCP `image` block. Same privacy caveats as `screenshot`.")
      ∷ def screenshot_monitor_args (codes "screenshot_monitor") vision false (
          codes
            "Capture a specific monitor by name (e.g. `eDP-1`). Shortcut equivalent to `screenshot` with `monitor` set. Returns the image as a base64 MCP `image` block.")
      ∷ def ocr_screen_args (codes "ocr_screen") vision false (
          codes
            "Run tesseract OCR over the entire compositor capture and return the extracted text. Defaults: language `eng`, PSM 6 (single uniform block). Returns a `text` content block — empty if tesseract found no text.")
      ∷ def ocr_region_args (codes "ocr_region") vision false (
          codes
            "Capture a rectangular region of the compositor and run OCR over it. Useful for reading a single dialog or panel without OCR noise from the rest of the screen.")
      ∷ def find_text_position_args (codes "find_text_position") vision false (
          codes
            "Capture the screen (or a region) and find on-screen text matching `query`. Returns an array of matches with the bounding box (in compositor pixel coordinates) and tesseract confidence for each. Multi-word queries match a run of consecutive OCR'd words. Read-only. Useful as the first half of click-by-label flows.")
      ∷ def click_text_args (codes "click_text") input true (
          codes
            "Scan the screen (or a region) for text matching `query` and click the centre of the first match. Composite of `find_text_position` + `input_mouse_move` + `input_mouse_click`. dry_run defaults to true: returns the match and target coordinates without moving the cursor. VERY DANGEROUS for the same reasons as `input_mouse_click` — OCR noise or off-by-one matches can fire a click in an unexpected place. Requires the `input` capability group (NOT in the default profile) and the daemon's HYPRPILOT_DANGEROUS_INPUT_OK=1 gate.")
      ∷ def a11y_tree_args (codes "a11y_tree") a11y false (
          codes
            "Read the accessibility (AT-SPI) tree of an application as a flat list of elements: role, accessible name, inline text, and a window-relative bounding box for each. Structured UI content WITHOUT a screenshot or OCR — prefer this over `ocr_screen` for reading app content when the app exposes accessibility. `pid` defaults to the focused window. Coverage is toolkit-dependent (GTK/Qt/Firefox expose rich trees; terminals, games, and some Electron apps expose little) — fall back to vision when empty. Read-only. The `a11y` capability group is NOT in the default profile (a field's text may be sensitive).")
      ∷ []

  unfoldable pub a11y_tools : List ToolDef
  a11y_tools =
      def a11y_find_args (codes "a11y_find") a11y false (
        codes
          "Find accessibility elements whose name or text matches `query` (and, optionally, whose role equals `role` — GTK reports `button`, Qt may report `push button`; omit if unsure). Returns matches with window-relative bounding boxes. The structured, OCR-free analogue of `find_text_position`, and the first half of a click-by-label flow. `pid` defaults to the focused window. Read-only.")
      ∷ def a11y_click_args (codes "a11y_click") input true (
          codes
            "Find an accessibility element by label/role and click its centre. Composite of `a11y_find` + window geometry + `input_mouse_move` + `input_mouse_click` — no OCR, exact target box. dry_run defaults to true: returns the matched element and the computed screen coordinates (window origin + element box) without moving the cursor, so you can verify the target first. Requires the `input` capability group (NOT in the default profile) and the daemon's HYPRPILOT_DANGEROUS_INPUT_OK=1 gate.")
      ∷ def run_bind_args (codes "run_bind") binds true (
          codes
            "Run the user's keybind for a chord (e.g. `super+1`, `super+return`) by dispatching the action it is bound to directly in the compositor — the way a human just presses the chord. Unlike `input_keys` this needs no key synthesis (no ydotool, no focus/timing fragility) and does NOT require the HYPRPILOT_DANGEROUS_INPUT_OK gate, because it is bounded to actions the user already configured. Discover chords with `query_binds`. dry_run defaults to true: returns the action that would be dispatched. NOTE: a bound action can be `exec`, so this can launch whatever the user bound; the `binds` capability group is NOT in the default profile.")
      ∷ []

  unfoldable pub registry : List ToolDef
  unfolding query_tools window_tools workspace_tools process_tools snapshot_tools input_tools
      vision_tools a11y_tools
  registry =
      query_tools
      ++ (window_tools
          ++ (workspace_tools
              ++ (process_tools
                  ++ (snapshot_tools ++ (input_tools ++ (vision_tools ++ a11y_tools))))))
