-- ===== src/Core/Snapshot/Matching.antt =====
-- The window that `match_live_window` of crates/hyprpilot-core/src/snapshot.rs gives.
use hypr_pilot.Prelude.{
  ◌≡◌, refl, Bool, true, false, Option, none, some, List, [], ◌∷◌, filter, not, ◌&&◌, Text, eq_text,
  eq_text_iff, or_option, arith, All, All-filter, All-filter_keeps, Every, find, find-Every,
  find-Every_holds, if◌then◌else◌, eq_ℤ, eq_ℤ_iff, is_empty, and-both, Among, inl, inr,
}
use hypr_pilot.Core.Snapshot.{WindowSnapshot}
use hypr_pilot.Core.Snapshot.Diff.{
  unmatched, only, match_address, match_pid, match_identity, match_live_window, is_positive,
}

module _ (P : WindowSnapshot → Type 0) where
  only-Every : (xs : List WindowSnapshot) → All P xs → Every P (only xs)
  only-Every [] h = tt
  only-Every (x ∷ []) h = h.0
  only-Every (x ∷ y ∷ xs) h = tt

  guard-Every : (b : Bool) (o : Option WindowSnapshot) → Every P o → Every P (if b then o else none)
  guard-Every true o h = h
  guard-Every false o h = tt

  or-Every : (o o' : Option WindowSnapshot) → Every P o → Every P o' → Every P (or_option o o')
  or-Every none o' h h' = h'
  or-Every (some x) o' h h' = h

  match_pid-Every :
      (snap : WindowSnapshot) (free : List WindowSnapshot)
      → All P free
      → Every P (match_pid snap free)
  unfolding match_pid
  match_pid-Every snap free h =
      let same_pid : WindowSnapshot → Bool = λ w. eq_ℤ w.pid snap.pid in
      guard-Every (is_positive snap.pid) (only (filter same_pid free))
        (only-Every (filter same_pid free) (All-filter_keeps P same_pid free h))

  match_identity-Every :
      (snap : WindowSnapshot) (free : List WindowSnapshot)
      → All P free
      → Every P (match_identity snap free)
  unfolding match_identity
  match_identity-Every snap free h =
      let same : WindowSnapshot → Bool = λ w.
        eq_text w.initial_class snap.initial_class && eq_text w.initial_title snap.initial_title in
      guard-Every (not (is_empty snap.initial_class)) (only (filter same free))
        (only-Every (filter same free) (All-filter_keeps P same free h))

-- A live window that is matched has what all unmatched ones have.
pub match_live_window-Every :
    (P : WindowSnapshot → Type 0) (snap : WindowSnapshot) (live : List WindowSnapshot)
    (matched : List Text)
    → All P (filter (unmatched matched) live)
    → Every P (match_live_window snap live matched)
unfolding match_live_window match_address
match_live_window-Every P snap live matched h =
    let free = filter (unmatched matched) live in
    or-Every P (match_address snap free)
      (or_option (match_pid snap free) (match_identity snap free))
      (find-Every P (λ (w : WindowSnapshot). eq_text w.address snap.address) free h)
      (or-Every P (match_pid snap free) (match_identity snap free) (match_pid-Every P snap free h)
        (match_identity-Every P snap free h))

-- Why a live window may be taken for a window of a snapshot.
pub data Fits (snap w : WindowSnapshot) : Type 0 where
  same_address : w.address ≡ snap.address → Fits snap w
  same_process : is_positive snap.pid ≡ true → w.pid ≡ snap.pid → Fits snap w
  same_identity :
      is_empty snap.initial_class ≡ false
      → w.initial_class ≡ snap.initial_class
      → w.initial_title ≡ snap.initial_title
      → Fits snap w

Every-map :
    (P Q : WindowSnapshot → Type 0) (o : Option WindowSnapshot)
    → ((w : WindowSnapshot) → P w → Q w)
    → Every P o
    → Every Q o
Every-map P Q none f h = tt
Every-map P Q (some w) f h = f w h

-- Under its guard, the only window that passes a test has what follows from both.
guard-Fits :
    (snap : WindowSnapshot) (b : Bool) (p : WindowSnapshot → Bool) (free : List WindowSnapshot)
    → (b ≡ true → (w : WindowSnapshot) → p w ≡ true → Fits snap w)
    → Every (Fits snap) (if b then only (filter p free) else none)
guard-Fits snap false p free f = tt
guard-Fits snap true p free f =
    Every-map (λ w. p w ≡ true) (Fits snap) (only (filter p free)) (f refl)
      (only-Every (λ w. p w ≡ true) (filter p free) (All-filter p free))

match_address-Fits :
    (snap : WindowSnapshot) (free : List WindowSnapshot)
    → Every (Fits snap) (match_address snap free)
unfolding match_address
match_address-Fits snap free =
    let same : WindowSnapshot → Bool = λ w. eq_text w.address snap.address in
    Every-map (λ w. same w ≡ true) (Fits snap) (find same free)
      (λ w h. same_address ((eq_text_iff w.address snap.address).0 h)) (find-Every_holds same free)

match_pid-Fits :
    (snap : WindowSnapshot) (free : List WindowSnapshot) → Every (Fits snap) (match_pid snap free)
unfolding match_pid
match_pid-Fits snap free =
    guard-Fits snap (is_positive snap.pid) (λ w. eq_ℤ w.pid snap.pid) free
      (λ e w h. same_process e ((eq_ℤ_iff w.pid snap.pid).0 h))

match_identity-Fits :
    (snap : WindowSnapshot) (free : List WindowSnapshot)
    → Every (Fits snap) (match_identity snap free)
unfolding match_identity
match_identity-Fits snap free =
    guard-Fits snap (not (is_empty snap.initial_class))
      (λ w.
        eq_text w.initial_class snap.initial_class && eq_text w.initial_title snap.initial_title)
      free
      (λ e w h.
        let r =
          and-both (eq_text w.initial_class snap.initial_class)
            (eq_text w.initial_title snap.initial_title) h in
        same_identity (ground arith) ((eq_text_iff w.initial_class snap.initial_class).0 r.0)
          ((eq_text_iff w.initial_title snap.initial_title).0 r.1))

-- A live window that is matched fits, by its address, its process or its class and title.
pub match_live_window-Fits :
    (snap : WindowSnapshot) (live : List WindowSnapshot) (matched : List Text)
    → Every (Fits snap) (match_live_window snap live matched)
unfolding match_live_window
match_live_window-Fits snap live matched =
    let free = filter (unmatched matched) live in
    or-Every (Fits snap) (match_address snap free)
      (or_option (match_pid snap free) (match_identity snap free)) (match_address-Fits snap free)
      (or-Every (Fits snap) (match_pid snap free) (match_identity snap free)
        (match_pid-Fits snap free) (match_identity-Fits snap free))

pub All-Among : (xs : List WindowSnapshot) → All (λ w. Among w xs) xs
All-Among xs = tails xs (λ w m. m)
  where
    tails :
        (ys : List WindowSnapshot)
        → ((w : WindowSnapshot) → Among w ys → Among w xs)
        → All (λ w. Among w xs) ys
    tails [] f = tt
    tails (y ∷ ys) f = (f y (inl refl), tails ys (λ w m. f w (inr m)))
