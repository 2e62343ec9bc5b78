-- ===== src/Mcp/Desktop/Calm.antt =====
-- Requests that do not act change nothing that reads, and the snapshot files, do not change.
use hypr_pilot.Prelude.{ℤ, ℕ, Option, Text, Result, ok, err, map_err}
use hypr_pilot.Core.Error.{Error, json}
use hypr_pilot.Core.Connection.{Io, done, and_then}
use hypr_pilot.Core.Snapshot.{Snapshot}
use hypr_pilot.Core.Snapshot.Capture.{capture}
use hypr_pilot.Core.Snapshot.Files.{
  io_step, pure_step, tmp_path, snapshot_path, replace, pack, save, save_to, save_named,
}
use hypr_pilot.Daemon.Services.{Services}

-- The step keeps `I`.
pub record Stays {W A : Type 0} (I : W → Type 0) (m : W → A × W) : Type 0 where
  pub holds : (w : W) → I w → I (m w).1

-- What the reads, the accessibility bus and the snapshot files keep. Nothing is said of dispatches and
-- of input.
pub record Calm {W R : Type 0} (svc : Services W R) (I : W → Type 0) : Type 0 where
  pub cached_clients : Stays I svc.cached_clients
  pub cached_workspaces : Stays I svc.cached_workspaces
  pub cached_monitors : Stays I svc.cached_monitors
  pub cached_active_window : Stays I svc.cached_active_window
  pub cached_active_workspace : Stays I svc.cached_active_workspace
  pub cached_version : Stays I svc.cached_version
  pub cached_binds : Stays I svc.cached_binds
  pub cursor_position : Stays I svc.cursor_position
  pub version : Stays I svc.queried.version
  pub clients : Stays I svc.queried.clients
  pub workspaces : Stays I svc.queried.workspaces
  pub monitors : Stays I svc.queried.monitors
  pub active_window : Stays I svc.queried.active_window
  pub active_workspace : Stays I svc.queried.active_workspace
  pub create_dir_all : Stays I svc.files.create_dir_all
  pub write : (p : Text) (r : R) → Stays I (svc.files.write p r)
  pub rename : (p q : Text) → Stays I (svc.files.rename p q)
  pub remove_file : (p : Text) → Stays I (svc.files.remove_file p)
  pub connect_a11y : Stays I svc.connect_a11y
  pub snapshot_app : (p : ℤ) (n : ℕ) → Stays I (svc.snapshot_app p n)
  pub find_elements :
      (p : ℤ) (q : Text) (r : Option Text) (n : ℕ) → Stays I (svc.find_elements p q r n)

module _ {W : Type 0} (I : W → Type 0) where
  then_at :
      {A B : Type 0} (f : A → Io W B)
      → ((a : A) → Stays I (f a))
      → (r : Result A Error × W) → I r.1
      → I (and_then (λ _. r) f r.1).1
  unfolding and_then
  then_at f h (ok a, w) i = (h a).holds w i
  then_at f h (err e, w) i = i

  and_then-Stays :
      {A B : Type 0} {m : Io W A} {f : A → Io W B}
      → Stays I m
      → ((a : A) → Stays I (f a))
      → Stays I (and_then m f)
  unfolding and_then
  and_then-Stays {m = m} {f = f} g h = record { holds = λ w i. then_at f h (m w) (g.holds w i) }

  io_step-Stays : {f : W → Result Unit Text × W} → Stays I f → Stays I (io_step f)
  io_step-Stays g = record { holds = λ w i. g.holds w i }

  pure_step-Stays : {A : Type 0} (r : Result A Error) → Stays I (pure_step r)
  pure_step-Stays r = record { holds = λ w i. i }

  done-Stays : {A : Type 0} (a : A) → Stays I (done a)
  unfolding done
  done-Stays a = record { holds = λ w i. i }

module _ {W R : Type 0} (svc : Services W R) (I : W → Type 0) (calm : Calm svc I) where
  pub capture-Stays : (name : Text) (now : ℤ) → Stays I (capture svc.queried name now)
  unfolding capture
  capture-Stays name now = and_then-Stays I calm.version (λ _. and_then-Stays I calm.clients (λ _.
      and_then-Stays I calm.workspaces (λ _. and_then-Stays I calm.monitors (λ _.
        and_then-Stays I calm.active_window
          (λ _. and_then-Stays I calm.active_workspace (λ _. done-Stays I _))))))

  replace-Stays : (p : Text) (r : R) → Stays I (replace svc.files p r)
  unfolding replace
  replace-Stays p r =
      and_then-Stays I (io_step-Stays I (calm.write (tmp_path svc.files p) r))
        (λ u. io_step-Stays I (calm.rename (tmp_path svc.files p) p))

  pub save_named-Stays : (s : Snapshot) → Stays I (save_named svc.files s)
  unfolding save_named save_to save pack
  save_named-Stays s = and_then-Stays I (pure_step-Stays I (snapshot_path svc.files s.name)) (λ p.
      and_then-Stays I
        (and_then-Stays I (io_step-Stays I calm.create_dir_all) (λ u.
          and_then-Stays I (pure_step-Stays I (map_err json (svc.files.to_vec_pretty s)))
            (λ r. replace-Stays p r)))
        (λ u. pure_step-Stays I (ok p)))
