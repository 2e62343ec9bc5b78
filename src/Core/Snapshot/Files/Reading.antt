-- ===== src/Core/Snapshot/Files/Reading.antt =====
-- A snapshot that was saved is the one that is loaded.
use hypr_pilot.Prelude.{
  ◌≡◌, refl, sym, ap, ◌∙◌, true, Text, Result, ok, err, map_err, ok-injective, arith,
}
use hypr_pilot.Core.Error.{Error, io, json}
use hypr_pilot.Core.Connection.{Io, and_then}
use hypr_pilot.Core.Snapshot.{Snapshot}
use hypr_pilot.Core.Snapshot.Files.{
  FileSystem, io_step, pure_step, tmp_path, snapshot_path, replace, pack, save, load, save_to,
  save_named, load_at, load_named,
}

-- What is documented of a file system and of serde: a write that succeeds is read back, a rename that
-- succeeds moves what was read, and a file that exists after it, and the encoding is decoded.
pub record Stores {W R : Type 0} (fs : FileSystem W R) : Type 0 where
  pub read-write :
      (p : Text) (r : R) (w : W) → (fs.write p r w).0 ≡ ok tt → fs.read p (fs.write p r w).1 ≡ ok r
  pub read-rename :
      (p q : Text) (w : W)
      → (fs.rename p q w).0 ≡ ok tt
      → (fs.read q (fs.rename p q w).1 ≡ fs.read p w) × (fs.exists q (fs.rename p q w).1 ≡ true)
  pub from_slice-to_vec :
      (s : Snapshot) (r : R) → fs.to_vec_pretty s ≡ ok r → fs.from_slice r ≡ ok s

-- A chain of two requests that succeeds.
split_at :
    {W A B : Type 0} (f : A → Io W B) (r : Result A Error × W) {b : B} {w' : W}
    → and_then (λ _. r) f r.1 ≡ (ok b, w')
    → (a : A) × (w1 : W) × (r ≡ (ok a, w1)) × (f a w1 ≡ (ok b, w'))
unfolding and_then
split_at f (ok a, w1) h = (a, w1, refl, h)
split_at f (err e, w1) h = absurd (ground (arith, ap (λ p. p.0) h))

and_then-ok :
    {W A B : Type 0} (m : Io W A) (f : A → Io W B) (w : W) {b : B} {w' : W}
    → and_then m f w ≡ (ok b, w')
    → (a : A) × (w1 : W) × (m w ≡ (ok a, w1)) × (f a w1 ≡ (ok b, w'))
unfolding and_then
and_then-ok m f w h = split_at f (m w) h

io_step-ok :
    {W : Type 0} (r : Result Unit Text × W) {w' : W}
    → ◌≡◌ {A = Result Unit Error × W} (map_err io r.0, r.1) (ok tt, w')
    → (r.0 ≡ ok tt) × (r.1 ≡ w')
io_step-ok (ok u, w1) h = (refl, ap (λ p. p.1) h)
io_step-ok (err e, w1) h = absurd (ground (arith, ap (λ p. p.0) h))

module _ {W R : Type 0} (fs : FileSystem W R) (stores : Stores fs) where
  replace-reads :
      (path : Text) (r : R) (w w' : W)
      → replace fs path r w ≡ (ok tt, w')
      → (fs.exists path w' ≡ true) × (fs.read path w' ≡ ok r)
  unfolding replace
  replace-reads path r w w' h =
      let wrote =
        and_then-ok (io_step (fs.write (tmp_path fs path) r))
          (λ u. io_step (fs.rename (tmp_path fs path) path)) w h in
      let w1 = io_step-ok (fs.write (tmp_path fs path) r w) wrote.2 in
      let w2 = io_step-ok (fs.rename (tmp_path fs path) path wrote.1) wrote.3 in
      let there = stores.read-rename (tmp_path fs path) path wrote.1 w2.0 in
      let kept : fs.read (tmp_path fs path) wrote.1 ≡ ok r =
        ap (fs.read (tmp_path fs path)) (sym w1.1)
        ∙ stores.read-write (tmp_path fs path) r w w1.0 in
      (ap (fs.exists path) (sym w2.1) ∙ there.1, ap (fs.read path) (sym w2.1) ∙ (there.0 ∙ kept))

  packed-ok :
      {A : Type 0} (r : Result A Text) (w : W) {a : A} {w' : W}
      → pure_step (map_err json r) w ≡ (ok a, w')
      → (r ≡ ok a) × (w ≡ w')
  packed-ok (ok x) w {a = a} h = (ap ok (ok-injective x a (ap (λ p. p.0) h)), ap (λ p. p.1) h)
  packed-ok (err e) w h = absurd (ground (arith, ap (λ p. p.0) h))

  pack-reads :
      (s : Snapshot) (path : Text) (w w' : W)
      → pack fs s path w ≡ (ok tt, w')
      → (fs.exists path w' ≡ true) × (load fs path w' ≡ ok s)
  unfolding pack load
  pack-reads s path w w' h =
      let packed =
        and_then-ok (pure_step (map_err json (fs.to_vec_pretty s))) (λ buf. replace fs path buf) w
          h in
      let bytes = packed-ok (fs.to_vec_pretty s) w packed.2 in
      let there = replace-reads path packed.0 packed.1 w' packed.3 in
      (there.0, rw (load, there.1, stores.from_slice-to_vec s packed.0 bytes.0))

  -- After a save, the path holds the encoding.
  save-reads :
      (s : Snapshot) (path : Text) (w w' : W)
      → save fs s path w ≡ (ok tt, w')
      → (fs.exists path w' ≡ true) × (load fs path w' ≡ ok s)
  unfolding save
  save-reads s path w w' h =
      let made = and_then-ok (io_step fs.create_dir_all) (λ u. pack fs s path) w h in
      pack-reads s path made.1 w' made.3

  same_path :
      (r : Result Text Error) (w w1 : W) (path : Text) → pure_step r w ≡ (ok path, w1) → r ≡ ok path
  same_path r w w1 path h = ap (λ p. p.0) h

  -- A snapshot whose save succeeds is loaded by its name afterwards, if a write is read back, a
  -- rename moves what it renames, and serde decodes what it encodes.
  pub load_named-save_named :
      (s : Snapshot) (path : Text) (w w' : W)
      → save_named fs s w ≡ (ok path, w')
      → load_named fs s.name w' ≡ ok s
  unfolding save_named save_to load_named load_at
  load_named-save_named s path w w' h =
      let named = and_then-ok (pure_step (snapshot_path fs s.name)) (λ p. save_to fs s p) w h in
      let saved = and_then-ok (save fs s named.0) (λ u. pure_step (ok named.0)) named.1 named.3 in
      let there = save-reads s named.0 named.1 saved.1 saved.2 in
      let last : saved.1 ≡ w' = ap (λ p. p.1) saved.3 in
      let name = same_path (snapshot_path fs s.name) w named.1 named.0 named.2 in
      rw name (rw (sym last, there.0) (there.1))
