-- ===== src/Daemon/Engine/Reentrance.antt =====
-- The reentrance guard over every interleaving of events and decays.
use hypr_pilot.Prelude.{◌≤◌, ◌<◌, ◌≡◌, refl, List, [], ◌∷◌, arith}
use native.Mathlib.Decide.{dec_lt}
use hypr_pilot.Core.Connection.{Send}
use hypr_pilot.Core.Events.{Event}
use hypr_pilot.Daemon.Engine.{
  CompiledRule, Guard, new_guard, bump, drop_bump, wake, Handled, handle_event,
}
use hypr_pilot.Daemon.Engine.Matching.{
  fired, idle, FirstMatch, Chooses, fires, skips, handle_event-Chooses, handle_event-first,
}

-- The counter is the number of pending decrements, and at most one.
pub record IsValid (g : Guard) : Type 0 where
  pub counted : g.depth ≡ g.sleeping
  pub single : g.depth ≤ 1

wake-IsValid : (g : Guard) → 0 < g.sleeping → IsValid g → IsValid (wake g)
unfolding wake
wake-IsValid g h v = ground arith

drop_bump-IsValid : (g : Guard) → g.depth ≡ 0 → IsValid g → IsValid (drop_bump (bump g))
unfolding bump drop_bump
drop_bump-IsValid g h v = ground arith

module _ {W : Type 0} (send_raw : Send W) (rules : List CompiledRule) where
  -- The engine's task handles an event, or a sleeping task wakes up; Hyprland may change at any time.
  pub data Step : Guard × W → Guard × W → Type 0 where
    handle :
        (g : Guard) (w : W) (event : Event)
        → Step
            (g, w)
            (
              (handle_event send_raw rules event g w).guard,
              (handle_event send_raw rules event g w).world,
            )
    decay : (g : Guard) (w : W) → 0 < g.sleeping → Step (g, w) (wake g, w)
    outside : (g : Guard) (w w' : W) → Step (g, w) (g, w')

  pub data Reach : Guard × W → Type 0 where
    start : (w : W) → Reach (new_guard, w)
    next : {s t : Guard × W} → Reach s → Step s t → Reach t

  Chooses-IsValid :
      (event : Event) (g : Guard) (w : W) {h : Handled send_raw}
      → g.depth ≡ 0
      → IsValid g
      → Chooses send_raw event g w rules h
      → IsValid h.guard
  Chooses-IsValid event g w d v (fires rule f e) = rw e (drop_bump-IsValid g d v)
  Chooses-IsValid event g w d v (skips a e) = rw e v

  handle_event-inhibited :
      (event : Event) (g : Guard) (w : W)
      → 0 < g.depth
      → handle_event send_raw rules event g w ≡ idle send_raw g w
  unfolding handle_event
  handle_event-inhibited event g w h = ground arith

  handle-IsValid :
      (event : Event) (g : Guard) (w : W)
      → IsValid g
      → IsValid (handle_event send_raw rules event g w).guard
  handle-IsValid event g w v = elim (dec_lt 0 g.depth) [
    | yes h ↦ rw (handle_event-inhibited event g w h) v
    | no h ↦
        let d : g.depth ≡ 0 = omega arith in
        Chooses-IsValid event g w d v (handle_event-Chooses send_raw event g w rules d)
  ]

  Step-IsValid : {s t : Guard × W} → Step s t → IsValid s.0 → IsValid t.0
  Step-IsValid (handle g w event) v = handle-IsValid event g w v
  Step-IsValid (decay g w h) v = wake-IsValid g h v
  Step-IsValid (outside g w w') v = v

  -- In every reachable state the counter of the guard equals the number of pending decrements and
  -- is at most one, so it neither overflows nor wraps below zero, and every bump is undone.
  pub Reach-IsValid : {s : Guard × W} → Reach s → IsValid s.0
  Reach-IsValid (start w) = record { counted = refl; single = omega arith }
  Reach-IsValid (next r st) = Step-IsValid st (Reach-IsValid r)

  -- A run of events with no decay between them.
  pub handle_all : List Event → Guard → W → Guard × W
  handle_all [] g w = (g, w)
  handle_all (event ∷ events) g w =
      let h = handle_event send_raw rules event g w in handle_all events h.guard h.world

  handle_all-inhibited :
      (events : List Event) (g : Guard) (w : W) → 0 < g.depth → handle_all events g w ≡ (g, w)
  unfolding handle_all
  handle_all-inhibited [] g w h = refl
  handle_all-inhibited (event ∷ events) g w h =
      rw (handle_event-inhibited event g w h) (handle_all-inhibited events g w h)

  fired-guard : (g : Guard) → g.depth ≡ 0 → 0 < (drop_bump (bump g)).depth
  unfolding bump drop_bump
  fired-guard g d = ground arith

  -- After an event that fires a rule while the guard is down, no event before the decay does
  -- anything, whatever the rules are: the events that the actions cause cannot fire rules in a
  -- loop.
  pub handle_all-fired :
      (event : Event) (events : List Event) (g : Guard) (w : W) (rule : CompiledRule)
      → g.depth ≡ 0
      → FirstMatch event rule rules
      → handle_all (event ∷ events) g w
        ≡ ((fired send_raw rule g w).guard, (fired send_raw rule g w).world)
  unfolding handle_all
  handle_all-fired event events g w rule d f =
      rw (handle_event-first send_raw event g w rule rules d f) (
        handle_all-inhibited events (fired send_raw rule g w).guard (fired send_raw rule g w).world
          (fired-guard g d))
