-- ===== src/Core/Snapshot/Files.antt =====
-- crates/hyprpilot-core/src/snapshot.rs, the files of the snapshots. The operations of the file system
-- and of serde are the fields of a record; a file holds an `R`.
pub mod Reading
use hypr_pilot.Prelude.{Bool, List, ◌++◌, Text, codes, Result, ok, err, map_err, if◌then◌else◌}
use hypr_pilot.Core.Error.{Error, io, json, not_found}
use hypr_pilot.Core.Connection.{Io, and_then}
use hypr_pilot.Core.Snapshot.{Snapshot, validate_name}

-- `dir` is the directory of the snapshots.
pub record FileSystem (W R : Type 0) : Type 0 where
  pub dir : Text
  pub create_dir_all : W → Result Unit Text × W
  pub exists : Text → W → Bool
  pub read : Text → W → Result R Text
  pub write : Text → R → W → Result Unit Text × W
  pub rename : (from to : Text) → W → Result Unit Text × W
  pub remove_file : Text → W → Result Unit Text × W
  pub to_vec_pretty : Snapshot → Result R Text
  pub from_slice : R → Result Snapshot Text

-- `map_err(Error::Io)`
abbrev pub io_step : {W : Type 0} → (W → Result Unit Text × W) → Io W Unit
io_step f w = let r = f w in (map_err io r.0, r.1)

-- A result that needs nothing of the world.
abbrev pub pure_step : {W A : Type 0} → Result A Error → Io W A
pure_step r w = (r, w)

-- `snapshots_dir().join(…)`
abbrev pub file_path : Text → Text → Text
file_path dir name = dir ++ codes "/" ++ name ++ codes ".json"

module _ {W R : Type 0} (fs : FileSystem W R) where
  unfoldable pub snapshot_path : Text → Result Text Error
  unfolding validate_name
  snapshot_path name = elim (validate_name name) [
    | ok u ↦ ok (file_path fs.dir name)
    | err e ↦ err e
  ]

  -- The rename over the file; `path.with_extension("json.tmp")` of a path that ends in `.json`.
  abbrev pub tmp_path : Text → Text
  tmp_path path = path ++ codes ".tmp"

  unfoldable pub replace : Text → R → Io W Unit
  unfolding and_then
  replace path buf =
      and_then (io_step (fs.write (tmp_path path) buf))
        λ u. io_step (fs.rename (tmp_path path) path)

  unfoldable pub pack : Snapshot → Text → Io W Unit
  unfolding and_then replace
  pack s path = and_then (pure_step (map_err json (fs.to_vec_pretty s))) λ buf. replace path buf

  unfoldable pub save : Snapshot → Text → Io W Unit
  unfolding and_then pack
  save s path = and_then (io_step fs.create_dir_all) λ u. pack s path

  unfoldable pub load : Text → W → Result Snapshot Error
  load path w = elim (fs.read path w) [
    | err e ↦ err (io e)
    | ok raw ↦ map_err json (fs.from_slice raw)
  ]

  unfoldable pub save_to : Snapshot → Text → Io W Text
  unfolding save and_then
  save_to s path = and_then (save s path) λ u. pure_step (ok path)

  unfoldable pub save_named : Snapshot → Io W Text
  unfolding snapshot_path save_to and_then
  save_named s = and_then (pure_step (snapshot_path s.name)) λ path. save_to s path

  unfoldable pub load_at : Text → Result Text Error → W → Result Snapshot Error
  unfolding load
  load_at name (err e) w = err e
  load_at name (ok path) w =
      if fs.exists path w
      then load path w
      else err (not_found (codes "snapshot `" ++ name ++ codes "`"))

  unfoldable pub load_named : Text → W → Result Snapshot Error
  unfolding snapshot_path load_at
  load_named name w = load_at name (snapshot_path name) w

  unfoldable pub delete_at : Result Text Error → Io W Unit
  delete_at (err e) w = (err e, w)
  delete_at (ok path) w = if fs.exists path w then io_step (fs.remove_file path) w else (ok tt, w)

  unfoldable pub delete_named : Text → Io W Unit
  unfolding snapshot_path delete_at
  delete_named name w = delete_at (snapshot_path name) w
