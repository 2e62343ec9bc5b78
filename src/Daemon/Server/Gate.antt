-- ===== src/Daemon/Server/Gate.antt =====
-- Without the environment's leave no input is synthesised.
use hypr_pilot.Prelude.{Bool, true, false, ◌≡◌, refl, if◌then◌else◌, arith}
use hypr_pilot.Daemon.Protocol as P
use hypr_pilot.Daemon.Protocol.{Request}
use hypr_pilot.Daemon.Services.{Services, State}
use hypr_pilot.Daemon.Server.{
  input_disabled_response, input_type, input_keys, input_shortcut, input_mouse_move,
  input_mouse_click,
}
use hypr_pilot.Daemon.Server.Requests.{handle_request}

-- The requests that synthesise input.
unfoldable pub is_input : Request → Bool
is_input (P.input_type t) = true
is_input (P.input_keys c) = true
is_input (P.input_shortcut c s) = true
is_input (P.input_mouse_move x y a) = true
is_input (P.input_mouse_click b) = true
is_input _ = false

if-off : {A : Type 0} (b : Bool) (x y : A) → b ≡ false → (if b then x else y) ≡ y
if-off true x y h = absurd (ground (arith, h))
if-off false x y h = refl

module _ {W R : Type 0} (svc : Services W R) where
  -- When the daemon runs without leave for input, every request to type, press keys, send a
  -- shortcut, move the pointer or click is refused, and nothing changes: neither the daemon nor
  -- the world.
  pub handle_request_disabled :
      (r : Request) (st : State W R)
      → is_input r ≡ true
      → st.input_enabled ≡ false
      → handle_request svc r st ≡ (input_disabled_response, st)
  unfolding handle_request is_input input_type input_keys input_shortcut input_mouse_move
      input_mouse_click
  handle_request_disabled (P.input_type t) st i e = if-off st.input_enabled _ _ e
  handle_request_disabled (P.input_keys c) st i e = if-off st.input_enabled _ _ e
  handle_request_disabled (P.input_shortcut c s) st i e = if-off st.input_enabled _ _ e
  handle_request_disabled (P.input_mouse_move x y a) st i e = if-off st.input_enabled _ _ e
  handle_request_disabled (P.input_mouse_click b) st i e = if-off st.input_enabled _ _ e
  handle_request_disabled _ st i e = absurd (ground (arith, i))
