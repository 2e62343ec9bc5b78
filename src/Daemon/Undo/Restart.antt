-- ===== src/Daemon/Undo/Restart.antt =====
-- A daemon that restarts finds the undo stack it had.
use hypr_pilot.Prelude.{
  ℕ, ℤ, ◌≤◌, ◌<◌, ◌≡◌, refl, sym, ap, ◌∙◌, true, false, none, some, List, [], ◌∷◌, length,
  length-append, Text, eq_text_refl, arith, Result, ok, err, ltb, inl, inr,
}
use hypr_pilot.Daemon.Undo.{
  UndoEntry, UndoStack, InverseAction, Disk, File, missing, unreadable, holds, with_capacity,
  drop_oldest, read, load, enable_persistence, persist, push, pop, pop_back,
}
use hypr_pilot.Daemon.Undo.History.{IsBounded, last-cases, pop_back-snoc}
use hypr_pilot.Daemon.Undo.Ops.{Op, recorded, undone, run, push-Pushed, pop-nil}

drop_oldest-fits : (cap : ℕ) (es : List UndoEntry) → length es ≤ cap → drop_oldest cap es ≡ es
unfolding drop_oldest
drop_oldest-fits cap [] h = refl
drop_oldest-fits cap (x ∷ xs) h =
    let fits : ltb cap (length (x ∷ xs)) ≡ false = ground arith in rw fits refl

length-drop_oldest : (cap : ℕ) (es : List UndoEntry) → length (drop_oldest cap es) ≤ cap
unfolding drop_oldest
length-drop_oldest cap [] = omega arith
length-drop_oldest cap (x ∷ xs) = ground (arith, length-drop_oldest cap xs)

-- Every operation's write succeeds.
pub data AllWritten : List Op → Type 0 where
  done : AllWritten []
  after_record :
      (now : ℤ) (text : Text) (inv : InverseAction) (ops : List Op)
      → AllWritten ops
      → AllWritten (recorded true now text inv ∷ ops)
  after_undo : (ops : List Op) → AllWritten ops → AllWritten (undone true ∷ ops)

module _ {R : Type 0} (to_vec : List UndoEntry → R) (from_slice : R → Result (List UndoEntry) Text)
    (from_slice-to_vec : (es : List UndoEntry) → from_slice (to_vec es) ≡ ok es) (path : Text) where
  -- The stack that a daemon with this capacity starts with.
  abbrev pub started : ℕ → Disk R → UndoStack
  started cap disk = (enable_persistence from_slice path disk (with_capacity cap)).0

  record IsSaved (cap : ℕ) (s : UndoStack) (disk : Disk R) : Type 0 where
    saved : started cap disk ≡ s
    here : s.persist_path ≡ some path
    same : s.capacity ≡ cap
    fits : length s.entries ≤ cap

  -- A decoded file replaces the entries, cut to the capacity.
  record Loads (cap : ℕ) (s : UndoStack) : Type 0 where
    same : s.capacity ≡ cap
    fits : length s.entries ≤ cap

  load_raw-Loads :
      (cap : ℕ) (raw : R) (r : Result (List UndoEntry) Text)
      → from_slice raw ≡ r
      → Loads cap (load from_slice (holds raw) (with_capacity cap)).0
  unfolding load with_capacity read
  load_raw-Loads cap raw (err e) h = rw (h, load, read) (record { same = refl; fits = omega arith })
  load_raw-Loads cap raw (ok es) h =
      rw (h, load, read) (record { same = refl; fits = length-drop_oldest cap es })

  load-Loads : (cap : ℕ) (file : File R) → Loads cap (load from_slice file (with_capacity cap)).0
  unfolding load with_capacity read
  load-Loads cap missing = record { same = refl; fits = omega arith }
  load-Loads cap (unreadable e) = record { same = refl; fits = omega arith }
  load-Loads cap (holds raw) = load_raw-Loads cap raw (from_slice raw) refl

  started-IsSaved : (cap : ℕ) (disk : Disk R) → IsSaved cap (started cap disk) disk
  unfolding enable_persistence
  started-IsSaved cap disk = record {
    saved = refl;
    here = refl;
    same = (load-Loads cap (disk path)).same;
    fits = (load-Loads cap (disk path)).fits;
  }

  load-to_vec :
      (cap : ℕ) (es : List UndoEntry)
      → length es ≤ cap
      → (load from_slice (holds (to_vec es)) (with_capacity cap)).0
        ≡ record { entries = es; capacity = cap; persist_path = none }
  unfolding load with_capacity read
  load-to_vec cap es f = rw (from_slice-to_vec es, load, read, drop_oldest-fits cap es f) refl

  persist-here :
      (s : UndoStack) (disk : Disk R)
      → s.persist_path ≡ some path
      → persist to_vec true s disk path ≡ holds (to_vec s.entries)
  unfolding persist
  persist-here s disk h = rw (h, persist, eq_text_refl path) refl

  -- A stack that fits and was written is found again.
  written-IsSaved :
      (cap : ℕ) (s : UndoStack) (disk : Disk R)
      → s.persist_path ≡ some path
      → s.capacity ≡ cap
      → length s.entries ≤ cap
      → IsSaved cap s (persist to_vec true s disk)
  unfolding enable_persistence persist load read with_capacity
  written-IsSaved cap s disk h c f =
      let kept : UndoStack → UndoStack =
        λ t. record { entries = t.entries; capacity = t.capacity; persist_path = some path } in
      let eta : kept (record { entries = s.entries; capacity = cap; persist_path = none }) ≡ s =
        λ i. record { entries = s.entries; capacity = sym c i; persist_path = sym h i } in
      let found =
        ap (λ file. kept (load from_slice file (with_capacity cap)).0) (persist-here s disk h)
        ∙ ap kept (load-to_vec cap s.entries f)
        ∙ eta in
      record { saved = found; here = h; same = c; fits = f }

  push-IsSaved :
      (cap : ℕ) (now : ℤ) (text : Text) (inv : InverseAction) (s : UndoStack) (disk : Disk R)
      → 0 < cap
      → IsSaved cap s disk
      → IsSaved cap
          (push to_vec true now text inv (s, disk)).0
          (push to_vec true now text inv (s, disk)).1
  push-IsSaved cap now text inv s disk p v =
      let b : IsBounded s = record {
        positive = omega (arith, p, v.same);
        fits = omega (arith, v.fits, v.same);
      } in
      let r = push-Pushed to_vec true now text inv s disk b in
      let s' = (push to_vec true now text inv (s, disk)).0 in
      unfold push in
      written-IsSaved cap s' disk v.here v.same (omega (arith, r.bounded.fits, r.same, v.same))

  pop-IsSaved :
      (cap : ℕ) (s : UndoStack) (disk : Disk R)
      → IsSaved cap s disk
      → IsSaved cap (pop to_vec true (s, disk)).1.0 (pop to_vec true (s, disk)).1.1
  unfolding pop
  pop-IsSaved cap s disk v = elim (last-cases s.entries) [
    | inl e ↦ rw (pop-nil to_vec true s disk e) v
    | inr (last, rest, e) ↦
        let found : pop_back s.entries ≡ some (last, rest) = rw e (pop_back-snoc rest last) in
        let n = ap length e ∙ length-append rest (last ∷ []) in
        rw (found, pop)
          (written-IsSaved cap
            (record { entries = rest; capacity = s.capacity; persist_path = s.persist_path }) disk
            v.here v.same (omega (arith, n, v.fits)))
  ]

  run-IsSaved :
      (cap : ℕ) {ops : List Op} (s : UndoStack) (disk : Disk R)
      → 0 < cap
      → AllWritten ops
      → IsSaved cap s disk
      → IsSaved cap (run to_vec ops (s, disk)).1.0 (run to_vec ops (s, disk)).1.1
  unfolding run
  run-IsSaved cap s disk p done v = v
  run-IsSaved cap s disk p (after_record now text inv ops a) v =
      let c = push to_vec true now text inv (s, disk) in
      run-IsSaved cap c.0 c.1 p a (push-IsSaved cap now text inv s disk p v)
  run-IsSaved cap s disk p (after_undo ops a) v =
      let c = (pop to_vec true (s, disk)).1 in
      run-IsSaved cap c.0 c.1 p a (pop-IsSaved cap s disk v)

  -- If the decoder reads back what the encoder writes, a daemon that starts on any disk with a
  -- positive capacity, records and undoes with every write succeeding, and starts again with the
  -- same capacity and file, has the same stack again.
  pub started-run :
      (cap : ℕ) {ops : List Op} (disk : Disk R)
      → 0 < cap
      → AllWritten ops
      → started cap (run to_vec ops (started cap disk, disk)).1.1
        ≡ (run to_vec ops (started cap disk, disk)).1.0
  started-run cap disk p a =
      (run-IsSaved cap (started cap disk) disk p a (started-IsSaved cap disk)).saved
