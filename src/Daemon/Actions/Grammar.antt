-- ===== src/Daemon/Actions/Grammar.antt =====
-- The action grammar as a printer, and the parser against it.
use hypr_pilot.Prelude.{
  ◌≡◌, ◌≢◌, refl, ℤ, true, false, [], ◌∷◌, ◌++◌, Text, codes, eq_text, trim, split_once, words,
  split_once-append, is_whitespace, is_empty, Lacks-of_all, ok, show_i32, InRange32,
  parse_i32-show_i32, IsTrimmed, trim-IsTrimmed, IsTrimmed-append, Lacks-IsTrimmed, show_i32-Lacks,
  show_i32-ne-nil, words-append, words-Lacks, all, not, ◌∙◌,
}
use hypr_pilot.Core.Connection.{as_letter, mode_number, left, right, up, down, maximize, fullscreen}
use hypr_pilot.Core.WindowSelector
use hypr_pilot.Core.WindowSelector.RoundTrip as WindowRoundTrip
use hypr_pilot.Core.WorkspaceRef
use hypr_pilot.Core.WorkspaceRef.RoundTrip as WorkspaceRoundTrip
use hypr_pilot.Daemon.Actions.{
  Action, focus_window, close_window, kill_active, cycle_next, cycle_prev, switch_workspace,
  move_to_workspace, move_to_workspace_silent, toggle_floating, set_fullscreen, center_active,
  pin_active, move_active, resize_active, swap_active, exec, focus_monitor,
  move_workspace_to_monitor, parse, parse_verb, parse_resize, window_arm, workspace_arm, text_arm,
  require_nonempty, parse_window, parse_ws,
}

-- The documented spelling of each action.
pub show : Action → Text
show (focus_window s) = codes "focus_window" ++ b' ' ∷ WindowSelector.encode s
show (close_window s) = codes "close_window" ++ b' ' ∷ WindowSelector.encode s
show kill_active = codes "kill_active"
show cycle_next = codes "cycle_next"
show cycle_prev = codes "cycle_prev"
show (switch_workspace w) = codes "switch_workspace" ++ b' ' ∷ WorkspaceRef.encode w
show (move_to_workspace w) = codes "move_to_workspace" ++ b' ' ∷ WorkspaceRef.encode w
show (move_to_workspace_silent w) = codes "move_to_workspace_silent" ++ b' ' ∷ WorkspaceRef.encode w
show toggle_floating = codes "toggle_floating"
show (set_fullscreen mode) = codes "fullscreen" ++ b' ' ∷ mode_number mode
show center_active = codes "center_active"
show pin_active = codes "pin"
show (move_active d) = codes "move_active" ++ b' ' ∷ as_letter d
show (resize_active dx dy) = codes "resize_active" ++ b' ' ∷ (show_i32 dx ++ b' ' ∷ show_i32 dy)
show (swap_active d) = codes "swap_active" ++ b' ' ∷ as_letter d
show (exec cmd) = codes "exec" ++ b' ' ∷ cmd
show (focus_monitor m) = codes "focus_monitor" ++ b' ' ∷ m
show (move_workspace_to_monitor m) = codes "move_workspace_to_monitor" ++ b' ' ∷ m

-- What an action is read back as: window addresses gain their `0x`.
abbrev pub canonical : Action → Action
canonical (focus_window s) = focus_window (WindowRoundTrip.canonical s)
canonical (close_window s) = close_window (WindowRoundTrip.canonical s)
canonical a = a

abbrev OnWindow : WindowSelector.WindowSelector → Type 0
OnWindow s = WindowRoundTrip.IsValid s × IsTrimmed (WindowSelector.encode s)

abbrev OnWorkspace : WorkspaceRef.WorkspaceRef → Type 0
OnWorkspace w = WorkspaceRoundTrip.IsValid w × IsTrimmed (WorkspaceRef.encode w)

-- Numbers have 32 bits, an absolute workspace id is not negative, and an argument is not empty and
-- has no white space at its ends.
abbrev pub IsWritable : Action → Type 0
IsWritable (focus_window s) = OnWindow s
IsWritable (close_window s) = OnWindow s
IsWritable (switch_workspace w) = OnWorkspace w
IsWritable (move_to_workspace w) = OnWorkspace w
IsWritable (move_to_workspace_silent w) = OnWorkspace w
IsWritable (resize_active dx dy) = InRange32 dx × InRange32 dy
IsWritable (exec cmd) = IsTrimmed cmd
IsWritable (focus_monitor m) = IsTrimmed m
IsWritable (move_workspace_to_monitor m) = IsTrimmed m
IsWritable a = Unit

-- A verb, one space and a trimmed argument reach the match on the verb as they are. The premises
-- on the verb hold by computation at a literal.
parse-append :
    (verb : Text) {rest : Text}
    → is_empty verb ≡ false
    → all (λ c. not (is_whitespace c)) verb ≡ true
    → IsTrimmed rest
    → parse (verb ++ b' ' ∷ rest) ≡ parse_verb verb rest
unfolding is_whitespace
parse-append [] n a h = cc
parse-append (c ∷ verb) {rest} n a h =
    let l = Lacks-of_all is_whitespace (c ∷ verb) a in
    let whole = trim-IsTrimmed (IsTrimmed-append (c ∷ verb) (cc) l h) in
    let cut = split_once-append is_whitespace (c ∷ verb) b' ' rest l refl in
    unfold parse in rw (whole, cut, trim-IsTrimmed h)

is_empty-IsTrimmed : {t : Text} → IsTrimmed t → is_empty t ≡ false
is_empty-IsTrimmed {t} h = on t h.nonempty
  where
    on : (t : Text) → t ≢ [] → is_empty t ≡ false
    on [] n = absurd (n refl)
    on (c ∷ t) n = refl

window_arm-encode :
    (verb : Text) (make : WindowSelector.WindowSelector → Action)
    (s : WindowSelector.WindowSelector)
    → OnWindow s
    → window_arm make verb (WindowSelector.encode s) ≡ ok (make (WindowRoundTrip.canonical s))
unfolding require_nonempty parse_window
window_arm-encode verb make s (v, t) = rw (is_empty-IsTrimmed t, WindowRoundTrip.parse-encode s v)

workspace_arm-encode :
    (verb : Text) (make : WorkspaceRef.WorkspaceRef → Action) (w : WorkspaceRef.WorkspaceRef)
    → OnWorkspace w
    → workspace_arm make verb (WorkspaceRef.encode w) ≡ ok (make w)
unfolding require_nonempty parse_ws
workspace_arm-encode verb make w (v, t) =
    rw (is_empty-IsTrimmed t, WorkspaceRoundTrip.parse-encode_workspace w v)

text_arm-IsTrimmed :
    (verb arg_name : Text) (make : Text → Action) (t : Text)
    → IsTrimmed t
    → text_arm make verb arg_name t ≡ ok (make t)
unfolding require_nonempty
text_arm-IsTrimmed verb arg_name make t h = rw (is_empty-IsTrimmed h)

parse-show_window :
    (s : WindowSelector.WindowSelector)
    → OnWindow s
    → (parse (show (focus_window s)) ≡ ok (canonical (focus_window s)))
      × (parse (show (close_window s)) ≡ ok (canonical (close_window s)))
unfolding show is_whitespace parse_verb eq_text
parse-show_window s h = (
  parse-append (codes "focus_window") refl refl h.1 ∙ window_arm-encode _ focus_window s h,
  parse-append (codes "close_window") refl refl h.1 ∙ window_arm-encode _ close_window s h,
)

parse-show_workspace :
    (w : WorkspaceRef.WorkspaceRef)
    → OnWorkspace w
    → (parse (show (switch_workspace w)) ≡ ok (switch_workspace w))
      × (parse (show (move_to_workspace w)) ≡ ok (move_to_workspace w))
      × (parse (show (move_to_workspace_silent w)) ≡ ok (move_to_workspace_silent w))
unfolding show is_whitespace parse_verb eq_text
parse-show_workspace w h = (
  parse-append (codes "switch_workspace") refl refl h.1
      ∙ workspace_arm-encode _ switch_workspace w h,
  parse-append (codes "move_to_workspace") refl refl h.1
      ∙ workspace_arm-encode _ move_to_workspace w h,
  parse-append (codes "move_to_workspace_silent") refl refl h.1
      ∙ workspace_arm-encode _ move_to_workspace_silent w h,
)

parse-show_text :
    (t : Text)
    → IsTrimmed t
    → (parse (show (exec t)) ≡ ok (exec t))
      × (parse (show (focus_monitor t)) ≡ ok (focus_monitor t))
      × (parse (show (move_workspace_to_monitor t)) ≡ ok (move_workspace_to_monitor t))
unfolding show is_whitespace parse_verb eq_text
parse-show_text t h = (
  parse-append (codes "exec") refl refl h ∙ text_arm-IsTrimmed _ (codes "command") exec t h,
  parse-append (codes "focus_monitor") refl refl h
      ∙ text_arm-IsTrimmed _ (codes "monitor") focus_monitor t h,
  parse-append (codes "move_workspace_to_monitor") refl refl h
      ∙ text_arm-IsTrimmed _ (codes "monitor") move_workspace_to_monitor t h,
)

pair_IsTrimmed : (dx dy : ℤ) → IsTrimmed (show_i32 dx ++ b' ' ∷ show_i32 dy)
pair_IsTrimmed dx dy =
    IsTrimmed-append (show_i32 dx) (show_i32-ne-nil dx) (show_i32-Lacks dx)
      (Lacks-IsTrimmed (show_i32-ne-nil dy) (show_i32-Lacks dy))

words_pair :
    (dx dy : ℤ) → words (show_i32 dx ++ b' ' ∷ show_i32 dy) ≡ show_i32 dx ∷ show_i32 dy ∷ []
words_pair dx dy = rw (
  words-append (show_i32 dx) (show_i32 dy) (show_i32-ne-nil dx) (show_i32-Lacks dx),
  words-Lacks (show_i32 dy) (show_i32-ne-nil dy) (show_i32-Lacks dy),
)

parse_resize-show :
    (verb : Text) (dx dy : ℤ)
    → InRange32 dx
    → InRange32 dy
    → parse_resize verb (show_i32 dx ∷ show_i32 dy ∷ []) ≡ ok (resize_active dx dy)
unfolding parse_resize
parse_resize-show verb dx dy hx hy = rw (parse_i32-show_i32 dx hx, parse_i32-show_i32 dy hy)

parse-show_resize :
    (dx dy : ℤ)
    → InRange32 dx
    → InRange32 dy
    → parse (show (resize_active dx dy)) ≡ ok (resize_active dx dy)
unfolding show is_whitespace parse_verb eq_text
parse-show_resize dx dy hx hy =
    parse-append (codes "resize_active") refl refl (pair_IsTrimmed dx dy)
    ∙ (rw (words_pair dx dy) (parse_resize-show _ dx dy hx hy))

-- The documented spelling of every action is parsed to that action, with an address selector in
-- its 0x form, if the numbers of the action have 32 bits, an absolute workspace id is not
-- negative, and an argument is not empty and has no white space at its ends.
pub parse-show : (a : Action) → IsWritable a → parse (show a) ≡ ok (canonical a)
unfolding show parse eq_text is_whitespace split_once trim
parse-show (focus_window s) h = (parse-show_window s h).0
parse-show (close_window s) h = (parse-show_window s h).1
parse-show (switch_workspace w) h = (parse-show_workspace w h).0
parse-show (move_to_workspace w) h = (parse-show_workspace w h).1
parse-show (move_to_workspace_silent w) h = (parse-show_workspace w h).2
parse-show (set_fullscreen maximize) h = refl
parse-show (set_fullscreen fullscreen) h = refl
parse-show (move_active left) h = refl
parse-show (move_active right) h = refl
parse-show (move_active up) h = refl
parse-show (move_active down) h = refl
parse-show (swap_active left) h = refl
parse-show (swap_active right) h = refl
parse-show (swap_active up) h = refl
parse-show (swap_active down) h = refl
parse-show (resize_active dx dy) h = parse-show_resize dx dy h.0 h.1
parse-show (exec t) h = (parse-show_text t h).0
parse-show (focus_monitor t) h = (parse-show_text t h).1
parse-show (move_workspace_to_monitor t) h = (parse-show_text t h).2
parse-show _ h = refl
