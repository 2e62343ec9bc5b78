-- ===== src/Daemon/Undo/Ops.antt =====
-- The undo stack refines a bounded history under every sequence of operations.
use hypr_pilot.Prelude.{
  ℕ, ℤ, zero, suc, ◌≤◌, ◌<◌, ◌≡◌, refl, sym, ap, ◌∙◌, Bool, Option, none, some, List, [], ◌∷◌, ◌++◌,
  length, length-append, reverse, Text, arith, inl, inr,
}
use mathlib.Core.List.{reverse-append}
use hypr_pilot.Daemon.Undo.{UndoEntry, UndoStack, InverseAction, Disk, pop_back, push, pop}
use hypr_pilot.Daemon.Undo.History.{
  take, length-reverse, history, pop_back-snoc, last-cases, IsBounded, make_room, reverse-make_room,
}

-- What the clients do with the stack: an operation records its inverse, or an undo takes the
-- newest one. `wrote` is whether the write of the file succeeds.
pub data Op : Type 0 where
  recorded : (wrote : Bool) (now : ℤ) (text : Text) (inv : InverseAction) → Op
  undone : (wrote : Bool) → Op

-- The specification: a history, newest first, cut to the capacity.
abbrev pub latest : List UndoEntry → Option UndoEntry × List UndoEntry
latest [] = (none, [])
latest (x ∷ xs) = (some x, xs)

latest-nil : (h : List UndoEntry) → h ≡ [] → (none, h) ≡ latest h
latest-nil h e = rw e refl

unfoldable pub recall : ℕ → List Op → List UndoEntry → List (Option UndoEntry) × List UndoEntry
recall cap [] h = ([], h)
recall cap (recorded wrote now text inv ∷ ops) h =
    recall cap ops
      (take cap (record { timestamp_unix = now; description = text; inverse = inv } ∷ h))
recall cap (undone wrote ∷ ops) h =
    let r = latest h in let more = recall cap ops r.1 in (r.0 ∷ more.0, more.1)

-- What a run shows: the popped entries and the history it ends with.
abbrev pub shown :
    {R : Type 0}
    → List (Option UndoEntry) × (UndoStack × Disk R)
    → List (Option UndoEntry) × List UndoEntry
shown r = (r.0, history r.1.0)

module _ {R : Type 0} (to_vec : List UndoEntry → R) where
  -- The code's run, with what each undo popped.
  unfoldable pub run : List Op → UndoStack × Disk R → List (Option UndoEntry) × (UndoStack × Disk R)
  run [] c = ([], c)
  run (recorded wrote now text inv ∷ ops) c = run ops (push to_vec wrote now text inv c)
  run (undone wrote ∷ ops) c =
      let r = pop to_vec wrote c in let more = run ops r.1 in (r.0 ∷ more.0, more.1)

  -- A push onto a bounded stack.
  pub record Pushed (s s' : UndoStack) (entry : UndoEntry) : Type 0 where
    pub pushed : history s' ≡ take s.capacity (entry ∷ history s)
    pub same : s'.capacity ≡ s.capacity
    pub bounded : IsBounded s'

  push-entries :
      (wrote : Bool) (now : ℤ) (text : Text) (inv : InverseAction) (s : UndoStack) (disk : Disk R)
      → (push to_vec wrote now text inv (s, disk)).0.entries
        ≡ make_room s.capacity s.entries
          ++ (record { timestamp_unix = now; description = text; inverse = inv } ∷ [])
  unfolding push make_room
  push-entries wrote now text inv s disk = refl

  reverse-pushed :
      (cap : ℕ) (es : List UndoEntry) (entry : UndoEntry)
      → 0 < cap
      → length es ≤ cap
      → reverse (make_room cap es ++ (entry ∷ [])) ≡ take cap (entry ∷ reverse es)
  reverse-pushed zero es entry p h = absurd (omega arith)
  reverse-pushed (suc cap) es entry p h =
      reverse-append (make_room (suc cap) es) (entry ∷ [])
      ∙ ap (λ t. entry ∷ t) (reverse-make_room cap es h)

  length-take : (n : ℕ) (xs : List UndoEntry) → length (take n xs) ≤ n
  length-take zero xs = omega arith
  length-take (suc n) [] = omega arith
  length-take (suc n) (x ∷ xs) = omega (arith, length-take n xs)

  pub push-Pushed :
      (wrote : Bool) (now : ℤ) (text : Text) (inv : InverseAction) (s : UndoStack) (disk : Disk R)
      → IsBounded s
      → Pushed s
          (push to_vec wrote now text inv (s, disk)).0
          (record { timestamp_unix = now; description = text; inverse = inv })
  push-Pushed wrote now text inv s disk b =
      let entry : UndoEntry = record { timestamp_unix = now; description = text; inverse = inv } in
      let s' = (push to_vec wrote now text inv (s, disk)).0 in
      let e : history s' ≡ take s.capacity (entry ∷ history s) =
        ap reverse (push-entries wrote now text inv s disk)
        ∙ reverse-pushed s.capacity s.entries entry b.positive b.fits in
      let same : s'.capacity ≡ s.capacity = unfold push in refl in
      let fits : length s'.entries ≤ s.capacity = omega (
        arith,
        length-reverse s'.entries,
        ap length e,
        length-take s.capacity (entry ∷ history s),
      ) in
      record {
        pushed = e;
        same = same;
        bounded = record {
          positive = omega (arith, b.positive, same);
          fits = omega (arith, fits, same);
        };
      }

  -- A pop of any stack.
  pub record Popped (s s' : UndoStack) (out : Option UndoEntry) : Type 0 where
    pub popped : (out, history s') ≡ latest (history s)
    pub same : s'.capacity ≡ s.capacity
    pub shorter : length s'.entries ≤ length s.entries

  pub pop-nil :
      (wrote : Bool) (s : UndoStack) (disk : Disk R)
      → s.entries ≡ []
      → pop to_vec wrote (s, disk) ≡ (none, (s, disk))
  unfolding pop pop_back
  pop-nil wrote s disk e = rw e refl

  pop-snoc :
      (wrote : Bool) (s : UndoStack) (disk : Disk R) (last : UndoEntry) (rest : List UndoEntry)
      → s.entries ≡ rest ++ (last ∷ [])
      → Popped s (pop to_vec wrote (s, disk)).1.0 (pop to_vec wrote (s, disk)).0
  unfolding pop
  pop-snoc wrote s disk last rest e =
      let found : pop_back s.entries ≡ some (last, rest) = rw e (pop_back-snoc rest last) in
      rw (found, pop)
        (record {
          popped = sym (ap latest (ap reverse e ∙ reverse-append rest (last ∷ [])));
          same = refl;
          shorter = omega (arith, length-append rest (last ∷ []), ap length e);
        })

  pub pop-Popped :
      (wrote : Bool) (s : UndoStack) (disk : Disk R)
      → Popped s (pop to_vec wrote (s, disk)).1.0 (pop to_vec wrote (s, disk)).0
  pop-Popped wrote s disk = elim (last-cases s.entries) [
    | inl e ↦ rw (pop-nil wrote s disk e) (record {
      popped = latest-nil (history s) (ap reverse e);
      same = refl;
      shorter = omega arith;
    })
    | inr (last, rest, e) ↦ pop-snoc wrote s disk last rest e
  ]

  -- From a stack within its positive capacity, every sequence of records and undos pops the
  -- entries, and ends with the history, of a history that is newest first and cut to the capacity.
  pub shown-run :
      (ops : List Op) (s : UndoStack) (disk : Disk R)
      → IsBounded s
      → shown (run ops (s, disk)) ≡ recall s.capacity ops (history s)
  unfolding run recall
  shown-run [] s disk b = refl
  shown-run (recorded wrote now text inv ∷ ops) s disk b =
      let c = push to_vec wrote now text inv (s, disk) in
      let p = push-Pushed wrote now text inv s disk b in
      shown-run ops c.0 c.1 p.bounded
      ∙ ap (λ t. recall c.0.capacity ops t) p.pushed
      ∙ ap
          (λ n. recall n ops (
            take s.capacity
              (record { timestamp_unix = now; description = text; inverse = inv } ∷ history s)))
          p.same
  shown-run (undone wrote ∷ ops) s disk b =
      let r = pop to_vec wrote (s, disk) in
      let p = pop-Popped wrote s disk in
      let b' : IsBounded r.1.0 = record {
        positive = omega (arith, b.positive, p.same);
        fits = omega (arith, b.fits, p.shorter, p.same);
      } in
      let rest = shown-run ops r.1.0 r.1.1 b' ∙ ap (λ n. recall n ops (history r.1.0)) p.same in
      ap (λ (t : List (Option UndoEntry) × List UndoEntry). (r.0 ∷ t.0, t.1)) rest
      ∙ ap
          (λ (t : Option UndoEntry × List UndoEntry).
            (t.0 ∷ (recall s.capacity ops t.1).0, (recall s.capacity ops t.1).1))
          p.popped
