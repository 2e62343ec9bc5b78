-- ===== src/Tests/Desktop.antt =====
-- The tool server over the daemon, at a concrete input. The world counts what is dispatched and typed.
use hypr_pilot.Prelude.{
  ℕ, ◌≡◌, refl, ◌∙◌, true, false, none, List, [], Text, codes, Result, ok, err,
}
use hypr_pilot.Daemon.Undo.{UndoEntry}
use hypr_pilot.Daemon.Replies.{Response}
use hypr_pilot.Daemon.Services.{State}
use hypr_pilot.Mcp.Session.{Host, Session, ClientError}
use hypr_pilot.Mcp.Calls.Outcomes.{Keeps}
use hypr_pilot.Mcp.Handle.{call_params, handle_call_tool}
use hypr_pilot.Mcp.Handle.Quiet.{AsksToAct}
use hypr_pilot.Mcp.Desktop.{through}
use hypr_pilot.Mcp.Desktop.Calm.{Stays, Calm}
use hypr_pilot.Mcp.Desktop.Preview.{call_tool-world}
use hypr_pilot.Tests.Server.{services, idle}
use hypr_pilot.Tests.Tools.{Value, test_serde, undo_name, open_server, undo_call, none-Quiet}

abbrev Daemon : Type 0
Daemon = State ℕ (List UndoEntry)

-- Nothing was dispatched or typed.
abbrev Untouched : ℕ → Type 0
Untouched n = n ≡ 0

same : {A : Type 0} {m : ℕ → A × ℕ} → ((n : ℕ) → (m n).1 ≡ n) → Stays Untouched m
same h = record { holds = λ n i. h n ∙ i }

services-Calm : Calm services Untouched
services-Calm = record {
  cached_clients = same (λ n. refl);
  cached_workspaces = same (λ n. refl);
  cached_monitors = same (λ n. refl);
  cached_active_window = same (λ n. refl);
  cached_active_workspace = same (λ n. refl);
  cached_version = same (λ n. refl);
  cached_binds = same (λ n. refl);
  cursor_position = same (λ n. refl);
  version = same (λ n. refl);
  clients = same (λ n. refl);
  workspaces = same (λ n. refl);
  monitors = same (λ n. refl);
  active_window = same (λ n. refl);
  active_workspace = same (λ n. refl);
  create_dir_all = same (λ n. refl);
  write = λ p r. same (λ n. refl);
  rename = λ p q. same (λ n. refl);
  remove_file = λ p. same (λ n. refl);
  connect_a11y = same (λ n. refl);
  snapshot_app = λ p n. same (λ n. refl);
  find_elements = λ p q r n. same (λ n. refl);
}

abbrev answered : Response → Result Value ClientError
answered r = ok none

abbrev base : Host Value Daemon
base = record {
  serde = test_serde;
  null = none;
  read_call = λ v. ok (undo_name, v);
  to_string_pretty = λ v. [];
  read_preview = λ v. err [];
  read_monitors = λ v. ok [];
  read_clients = λ v. ok [];
  read_active = λ v. ok none;
  read_pid = λ v. none;
  read_elements = λ v. ok [];
  debug = λ t. t;
  divided = λ n s. n;
  connect_daemon = λ w. (ok tt, w);
  call = λ r w. (ok none, w);
  grim = λ op w. (err [], w);
  base64 = λ b. [];
  ocr_text = λ r l p w. (err [], w);
  ocr_words = λ r l p c w. (ok [], w);
  server_version = codes "0.1.0";
}

base-Keeps : Keeps base false (λ st. Untouched st.recorded.hypr)
base-Keeps = record {
  connect_keeps = λ w i. i;
  call_keeps = λ r w q i. i;
  grim_keeps = λ op w i. i;
  ocr_text_keeps = λ r l p w i. i;
  ocr_words_keeps = λ r l p c w i. i;
}

undo_call-Quiet :
    (name : Text) (args : Value)
    → call_params (through services answered base) undo_call.params ≡ ok (name, args)
    → ¬ AsksToAct (through services answered base) name args
unfolding call_params through
undo_call-Quiet name args e (arm, found, p, parsed, dry) =
    none-Quiet arm.kind name args p (cc e) parsed dry

abbrev session : Session Daemon
session = record { server = open_server; connected = true; world = idle }

call_tool-world_example :
    Untouched
      (handle_call_tool (through services answered base) undo_call session).1.world.recorded.hypr
call_tool-world_example =
    call_tool-world services Untouched services-Calm answered base undo_call session base-Keeps
      undo_call-Quiet refl
