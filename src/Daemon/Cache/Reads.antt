-- ===== src/Daemon/Cache/Reads.antt =====
-- Reads through the cache, alone and with an event in the middle.
use hypr_pilot.Prelude.{
  ℕ, ◌-◌, ◌≡◌, refl, true, Option, none, some, List, Result, ok, err, arith, ltb,
}
use hypr_pilot.Core.Error.{Error}
use hypr_pilot.Core.Events.{Event}
use hypr_pilot.Core.Types.{Client}
use hypr_pilot.Daemon.Cache.{
  set, get, max_age, Inner, write_clients, refresh_clients, read_clients, one_of, apply_event,
}
use hypr_pilot.Daemon.Cache.Invalidation.{client_kinds, get-client_kinds}

get-write_clients :
    (done : ℕ) (v : List Client) (i : Inner) → get done (write_clients done v i).clients ≡ some v
unfolding get write_clients set
get-write_clients done v i =
    let young : ltb (done - done) max_age ≡ true = ground arith in rw young refl

-- What a read leaves behind.
pub data Leaves (done : ℕ) (i i' : Inner) : Result (List Client) Error → Type 0 where
  cached : (v : List Client) → get done i'.clients ≡ some v → Leaves done i i' (ok v)
  failed : (e : Error) → i' ≡ i → Leaves done i i' (err e)

refresh_clients-Leaves :
    (done : ℕ) (o : Option (List Client)) (asked : Result (List Client) Error) (i : Inner)
    → get done i.clients ≡ o
    → Leaves done i (refresh_clients done o asked i).1 (refresh_clients done o asked i).0
unfolding refresh_clients
refresh_clients-Leaves done (some v) asked i h = cached v h
refresh_clients-Leaves done none (err e) i h = failed e refl
refresh_clients-Leaves done none (ok v) i h = cached v (get-write_clients done v i)

-- A read of the windows with no event in the middle leaves a cache that serves what it returned,
-- and a read that fails leaves the cache as it was.
pub read_clients-Leaves :
    (done : ℕ) (asked : Result (List Client) Error) (i : Inner)
    → Leaves done i (read_clients done done asked i).1 (read_clients done done asked i).0
unfolding read_clients
read_clients-Leaves done asked i = refresh_clients-Leaves done (get done i.clients) asked i refl

-- An event of a kind that changes the windows leaves nothing to serve; but when it comes between
-- the query and the write of a read, the write ends the invalidation, and the cache serves the
-- list from before the event.
pub write_clients-stale :
    (done : ℕ) (old : List Client) (i : Inner) (ev : Event)
    → one_of client_kinds ev.kind ≡ true
    → (get done (apply_event i ev).clients ≡ none)
      × (get done (write_clients done old (apply_event i ev)).clients ≡ some old)
write_clients-stale done old i ev h =
    (get-client_kinds done i ev h, get-write_clients done old (apply_event i ev))
