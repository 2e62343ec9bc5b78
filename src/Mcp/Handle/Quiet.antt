-- ===== src/Mcp/Handle/Quiet.antt =====
-- A call that does not say `dry_run: false` sends the daemon nothing that acts.
use hypr_pilot.Prelude.{
  true, false, ◌≡◌, refl, inl, inr, some, Text, eq_text, find, Result, ok, err, Bool-cases,
}
use hypr_pilot.Mcp.Rpc.{JsonRpcRequest, ErrorCode}
use hypr_pilot.Mcp.Server.{ToolDef, check_call}
use hypr_pilot.Mcp.Tools.Kinds.{Args, dry_run_of}
use hypr_pilot.Mcp.Tools.Ops.{Dispatch, DispatchError, unknown_tool, invalid_args, parse_args}
use hypr_pilot.Mcp.Tools.Arms.{Arm}
use hypr_pilot.Mcp.Tools.Table.{arms, dispatch}
use hypr_pilot.Mcp.Tools.DryRun.{acts}
use hypr_pilot.Mcp.Tools.DryRun.Each.{dispatch-acts}
use hypr_pilot.Mcp.Session.{Host, Session}
use hypr_pilot.Mcp.Calls.Outcomes.{Keeps}
use hypr_pilot.Mcp.Calls.Harmless.{carry_out-Good}
use hypr_pilot.Mcp.Handle.{
  id_or, refused, dispatched, checked, call_params, called_with, handle_call_tool,
}

module _ {Value W : Type 0} (host : Host Value W) where
  -- The arguments of the call are read as asking for the action.
  abbrev pub AsksToAct : Text → Value → Type 0
  AsksToAct name args =
      (arm : Arm) × (find (λ (a : Arm). eq_text a.name name) (arms host.debug) ≡ some arm)
      × (p : Args arm.kind) × (parse_args host.serde arm.kind name args ≡ ok p)
      × (dry_run_of arm.kind p ≡ some false)

module _ {Value W : Type 0} (host : Host Value W) (I : W → Type 0)
    (keeps : Keeps host false I) where
  carried :
      (id : Value) (d : Dispatch) (s : Session W)
      → acts d ≡ false
      → I s.world
      → I (dispatched host id (ok d) s).1.world
  unfolding dispatched
  carried id d s h i = ((carry_out-Good host false I keeps id d (inr h)).holds s i).1

  dispatched-keeps :
      (id : Value) (r : Result Dispatch DispatchError) (s : Session W)
      → ((d : Dispatch) → r ≡ ok d → ¬ (acts d ≡ true))
      → I s.world
      → I (dispatched host id r s).1.world
  unfolding dispatched refused
  dispatched-keeps id (ok d) s h i = elim (Bool-cases (acts d)) [
    | inl a ↦ absurd (h d refl a)
    | inr n ↦ carried id d s n i
  ]
  dispatched-keeps id (err (unknown_tool n)) s h i = i
  dispatched-keeps id (err (invalid_args t m)) s h i = i

  checked-keeps :
      (id : Value) (name : Text) (args : Value) (r : Result ToolDef (ErrorCode × Text))
      (s : Session W)
      → ¬ AsksToAct host name args
      → I s.world
      → I (checked host id name args r s).1.world
  unfolding checked refused
  checked-keeps id name args (err e) s h i = i
  checked-keeps id name args (ok t) s h i =
      dispatched-keeps id (dispatch host.serde host.debug name args) s
        (λ d e a. h (dispatch-acts host.serde host.debug name args d e a)) i

  called_with-keeps :
      (id : Value) (r : Result (Text × Value) Text) (s : Session W)
      → ((name : Text) (args : Value) → r ≡ ok (name, args) → ¬ AsksToAct host name args)
      → I s.world
      → I (called_with host id r s).1.world
  unfolding called_with
  called_with-keeps id (err e) s h i = i
  called_with-keeps id (ok (name, args)) s h i =
      checked-keeps id name args (check_call s.server name) s (h name args refl) i

  -- If every tool call with arguments that the params of a request hold has arguments that the
  -- found arm does not read as `dry_run: false`, then the handling of the request keeps whatever
  -- grim, tesseract, the connecting and the daemon requests that do not act keep, on every path: a
  -- call that is not told to act sends the daemon no request that acts.
  pub handle_call_tool-keeps :
      (req : JsonRpcRequest Value) (s : Session W)
      → ((name : Text) (args : Value)
          → call_params host req.params ≡ ok (name, args)
          → ¬ AsksToAct host name args)
      → I s.world
      → I (handle_call_tool host req s).1.world
  unfolding handle_call_tool
  handle_call_tool-keeps req s =
      called_with-keeps (id_or host.null req.id) (call_params host req.params) s
