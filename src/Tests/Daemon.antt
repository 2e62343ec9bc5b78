-- ===== src/Tests/Daemon.antt =====
-- crates/hyprpilot-daemon, less the engine: the theorems at concrete inputs.
use hypr_pilot.Prelude.{
  ℕ, suc, ◌≡◌, ◌≢◌, refl, ◌↔◌, true, false, none, some, List, [], ◌∷◌, ◌++◌, map, Text, codes, ok,
  Result, pos, negsuc, arith, Distinct, distinct_nil, distinct_cons, eq_text, trim, Lacks-of_all,
  ◌==◌, All,
}
use hypr_pilot.Core.Connection.{Send}
use hypr_pilot.Core.Connection.Laws.{IsAccepted}
use hypr_pilot.Core.Events.{Event}
use hypr_pilot.Core.Types.{Client}
use hypr_pilot.Daemon.Actions.{resize_active, kill_active, parse, execute}
use hypr_pilot.Daemon.Actions.Grammar.{show, canonical, parse-show}
use hypr_pilot.Daemon.Actions.Execute.{command, execute-ok_iff}
use hypr_pilot.Daemon.Shell.{quote_all, read_proc_cmdline}
use hypr_pilot.Daemon.Shell.Words.{sh_words, outside, sh_command}
use hypr_pilot.Daemon.Shell.Cmdline.{cmdline, IsArgument, nonempty, read_proc_cmdline-sh_words}
use hypr_pilot.Daemon.Undo.{UndoEntry, Disk, missing, spawn, with_capacity}
use hypr_pilot.Daemon.Undo.History.{IsBounded}
use hypr_pilot.Daemon.Undo.Ops.{Op, recorded, undone, run, recall, shown, shown-run}
use hypr_pilot.Daemon.Undo.Restart.{
  AllWritten, done, after_record, after_undo, started, started-run,
}
use hypr_pilot.Daemon.Cache.{inner_default, get, one_of, apply_event, patch_title, write_clients}
use hypr_pilot.Daemon.Cache.Titles.{address_of, retitle, patch_title-map}
use hypr_pilot.Daemon.Cache.Invalidation.{client_kinds}
use hypr_pilot.Daemon.Cache.Table.{Follows, apply_event-Follows}
use hypr_pilot.Daemon.Cache.Reads.{write_clients-stale}

parse-show_example :
    parse (show (resize_active (pos 10) (negsuc 4)))
    ≡ ok (canonical (resize_active (pos 10) (negsuc 4)))
parse-show_example = parse-show (resize_active (pos 10) (negsuc 4)) (omega arith, omega arith)

-- A Hyprland that accepts every command and counts them, and one that knows no command.
abbrev accepts : Send ℕ
accepts text w = (ok (codes "ok"), suc w)

abbrev refuses : Send ℕ
refuses text w = (ok (codes "Invalid dispatcher"), w)

execute-ok_iff_example :
    ((execute accepts kill_active 0).0 ≡ ok tt
      ↔ IsAccepted (accepts (codes "dispatch " ++ command kill_active) 0).0)
    × ((execute accepts kill_active 0).1 ≡ (accepts (codes "dispatch " ++ command kill_active) 0).1)
execute-ok_iff_example = execute-ok_iff accepts kill_active 0

not_ok : eq_text (trim (codes "Invalid dispatcher")) (codes "ok") ≡ false
unfolding eq_text trim
not_ok = refl

abbrev texts : List Text
texts = codes "kill_active" ∷ codes "fly" ∷ []

-- An argument with `=` is left bare, and is no word of the command.
quoted_assignment : quote_all (codes "A=b" ∷ []) ≡ some (codes "A=b")
unfolding quote_all
quoted_assignment = refl

refused_assignment : sh_command (codes "A=b") ≡ none
unfolding sh_command
refused_assignment = refl

-- The bytes of an ASCII text are its characters.
abbrev decode : List ℕ → Text
decode s = s

abbrev argv : List (List ℕ)
argv = codes "grep" ∷ [] ∷ codes "a b" ∷ []

argv-IsArgument : All IsArgument argv
argv-IsArgument = (
  Lacks-of_all (λ c. c == 0) (codes "grep") refl,
  (tt, (Lacks-of_all (λ c. c == 0) (codes "a b") refl, tt)),
)

argv-nonempty : nonempty argv ≢ []
argv-nonempty h = cc

read_proc_cmdline-sh_words_example :
    (line : Text) × (read_proc_cmdline decode (some (cmdline argv)) ≡ some line)
    × (sh_words outside line ≡ some (map decode (nonempty argv)))
read_proc_cmdline-sh_words_example =
    read_proc_cmdline-sh_words decode argv argv-IsArgument argv-nonempty

-- A serialisation that keeps the entries as they are.
abbrev to_vec : List UndoEntry → List UndoEntry
to_vec es = es

abbrev from_slice : List UndoEntry → Result (List UndoEntry) Text
from_slice es = ok es

abbrev ops : List Op
ops =
    recorded true (pos 1) (codes "a") (spawn (codes "kitty"))
    ∷ recorded true (pos 2) (codes "b") (spawn (codes "foot"))
    ∷ undone true
    ∷ undone true
    ∷ []

abbrev no_disk : Disk (List UndoEntry)
no_disk path = missing

one-IsBounded : IsBounded (with_capacity 1)
unfolding with_capacity
one-IsBounded = record { positive = omega arith; fits = omega arith }

shown-run_example : shown (run to_vec ops (with_capacity 1, no_disk)) ≡ recall 1 ops []
unfolding with_capacity
shown-run_example = shown-run to_vec ops (with_capacity 1) no_disk one-IsBounded

-- The second entry takes the first one's place, so the second undo finds nothing.
forgets_oldest :
    (recall 1 ops []).0
    ≡ some
        (record { timestamp_unix = pos 2; description = codes "b"; inverse = spawn (codes "foot") })
      ∷ none
      ∷ []
unfolding recall
forgets_oldest = refl

from_slice-to_vec : (es : List UndoEntry) → from_slice (to_vec es) ≡ ok es
from_slice-to_vec es = refl

ops-AllWritten : AllWritten ops
ops-AllWritten =
    after_record (pos 1) (codes "a") (spawn (codes "kitty")) _
      (after_record (pos 2) (codes "b") (spawn (codes "foot")) _ (after_undo _ (after_undo _ done)))

started-run_example :
    started to_vec from_slice from_slice-to_vec
      (codes "undo.json")
      1
      (run to_vec ops
        (started to_vec from_slice from_slice-to_vec (codes "undo.json") 1 no_disk, no_disk)).1.1
    ≡ (run to_vec ops
        (started to_vec from_slice from_slice-to_vec (codes "undo.json") 1 no_disk, no_disk)).1.0
started-run_example =
    started-run to_vec from_slice from_slice-to_vec (codes "undo.json") 1 no_disk (omega arith)
      ops-AllWritten

abbrev event : Text → Event
event k = record { kind = k; fields = []; raw = record { name = k; data_text = [] } }

abbrev client : Text → Client
client address = record {
  address = address;
  mapped = true;
  hidden = false;
  at = (pos 0, pos 0);
  size = (pos 1, pos 1);
  workspace = record { id = pos 1; name = codes "1" };
  floating = false;
  monitor = pos 0;
  class = codes "kitty";
  title = codes "sh";
  initial_class = codes "kitty";
  initial_title = codes "sh";
  pid = pos 1;
  xwayland = false;
  pinned = false;
  fullscreen = pos 0;
  grouped = [];
  tags = [];
  focus_history_id = pos 0;
}

abbrev clients : List Client
clients = client (codes "0x1") ∷ client (codes "0x2") ∷ []

clients-Distinct : Distinct (map address_of clients)
unfolding eq_text
clients-Distinct =
    distinct_cons (codes "0x1") (codes "0x2" ∷ []) refl
      (distinct_cons (codes "0x2") [] refl distinct_nil)

patch_title-map_example :
    patch_title (codes "0x2") (codes "vim") clients
    ≡ map (retitle (codes "0x2") (codes "vim")) clients
patch_title-map_example = patch_title-map (codes "0x2") (codes "vim") clients clients-Distinct

apply_event-Follows_example : Follows 5 inner_default (event (codes "pin"))
apply_event-Follows_example = apply_event-Follows 5 inner_default (event (codes "pin"))

pin_kind : one_of client_kinds (codes "pin") ≡ true
unfolding eq_text
pin_kind = refl

write_clients-stale_example :
    (get 5 (apply_event inner_default (event (codes "pin"))).clients ≡ none)
    × (get 5 (write_clients 5 clients (apply_event inner_default (event (codes "pin")))).clients
        ≡ some clients)
write_clients-stale_example =
    write_clients-stale 5 clients inner_default (event (codes "pin")) pin_kind
