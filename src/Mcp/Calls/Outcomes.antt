-- ===== src/Mcp/Calls/Outcomes.antt =====
-- What every step of a handler keeps, and what its answers look like.
use hypr_pilot.Prelude.{
  ℤ, Bool, true, false, ◌≡◌, ◌⊎◌, refl, Option, none, some, Text, codes, Result, ok, err,
  if◌then◌else◌,
}
use hypr_pilot.Daemon.Protocol.{Request}
use hypr_pilot.Mcp.Rpc.{
  JsonRpcResponse, JsonRpcError, RpcResult, ErrorCode, parse_error, invalid_request,
  method_not_found, invalid_params, internal_error, tool_execution, capability_denied, response_ok,
  response_err,
}
use hypr_pilot.Mcp.Tools.DryRun.{acts_request}
use hypr_pilot.Mcp.Session.{
  ClientError, Host, Session, Step, ◌>>=◌, give, fail, require, tool_error, classify_daemon_error,
  call_connected, call_after_connect, call_daemon, or_tool_error, ask, run_input, or_malformed,
}
use hypr_pilot.Vision.Geometry.{Region, Psm}
use hypr_pilot.Mcp.Tools.Ops.{CaptureOp}
use hypr_pilot.Mcp.Calls.{outside}

-- An answer to the request `id`: it has the id, and either a result or an error.
abbrev pub OneOf : {A B : Type 0} → Option A → Option B → Type 0
OneOf (some a) none = Unit
OneOf none (some b) = Unit
OneOf _ _ = ⊥

pub record IsAnswer {Value : Type 0} (id : Value) (r : JsonRpcResponse Value) : Type 0 where
  pub same_id : r.id ≡ id
  pub one_of : OneOf r.result r.error

-- An answer whose fields are known.
abbrev pub plain :
    {Value : Type 0} {id : Value} {r : RpcResult}
    → IsAnswer id (record { jsonrpc = codes "2.0"; id = id; result = some r; error = none })
plain = record { same_id = refl; one_of = tt }

abbrev pub plain_error :
    {Value : Type 0} {id : Value} {e : JsonRpcError Value}
    → IsAnswer id (record { jsonrpc = codes "2.0"; id = id; result = none; error = some e })
plain_error = record { same_id = refl; one_of = tt }

pub response_ok-IsAnswer :
    {Value : Type 0} (id : Value) (r : RpcResult) → IsAnswer id (response_ok id r)
unfolding response_ok
response_ok-IsAnswer id r = record { same_id = refl; one_of = tt }

pub response_err-IsAnswer :
    {Value : Type 0} (id : Value) (c : ErrorCode) (m : Text) → IsAnswer id (response_err id c m)
unfolding response_err
response_err-IsAnswer id c m = record { same_id = refl; one_of = tt }

pub tool_error-IsAnswer :
    {Value : Type 0} (id : Value) (c : ErrorCode) (m : Text) → IsAnswer id (tool_error id c m)
unfolding tool_error
tool_error-IsAnswer id tool_execution m = response_ok-IsAnswer id _
tool_error-IsAnswer id parse_error m = response_err-IsAnswer id parse_error m
tool_error-IsAnswer id invalid_request m = response_err-IsAnswer id invalid_request m
tool_error-IsAnswer id method_not_found m = response_err-IsAnswer id method_not_found m
tool_error-IsAnswer id invalid_params m = response_err-IsAnswer id invalid_params m
tool_error-IsAnswer id internal_error m = response_err-IsAnswer id internal_error m
tool_error-IsAnswer id capability_denied m = response_err-IsAnswer id capability_denied m

-- What the world keeps through grim, tesseract and the connection, and through the requests that do
-- not act; with `free`, through all requests.
pub record Keeps {Value W : Type 0} (host : Host Value W) (free : Bool) (I : W → Type 0)
    : Type 0 where
  pub connect_keeps : (w : W) → I w → I (host.connect_daemon w).1
  pub call_keeps :
      (r : Request) (w : W) → (free ≡ true) ⊎ (acts_request r ≡ false) → I w → I (host.call r w).1
  pub grim_keeps : (op : CaptureOp) (w : W) → I w → I (host.grim op w).1
  pub ocr_text_keeps :
      (r : Option Region) (l : Text) (p : Psm) (w : W) → I w → I (host.ocr_text r l p w).1
  pub ocr_words_keeps :
      (r : Option Region) (l : Text) (p : Psm) (c : ℤ) (w : W)
      → I w
      → I (host.ocr_words r l p c w).1

module _ {Value W : Type 0} (host : Host Value W) (free : Bool) (I : W → Type 0)
    (keeps : Keeps host free I) (id : Value) where
  -- The result has the property, or it is an answer to the request.
  abbrev pub Outcome : {A : Type 0} → (A → Type 0) → Result A (JsonRpcResponse Value) → Type 0
  Outcome Q (ok a) = Q a
  Outcome Q (err r) = IsAnswer id r

  pub record Good {A : Type 0} (Q : A → Type 0) (m : Step Value W A) : Type 0 where
    pub holds : (s : Session W) → I s.world → Outcome Q (m s).0 × I (m s).1.world

  abbrev pub Any : {A : Type 0} → A → Type 0
  Any a = Unit

  bind_at :
      {A B : Type 0} {Q : A → Type 0} {R : B → Type 0} (f : A → Step Value W B)
      → ((a : A) → Q a → Good R (f a))
      → (r : Result A (JsonRpcResponse Value) × Session W) → Outcome Q r.0
      → I r.1.world
      → Outcome R ((◌>>=◌ {Value = Value} {W = W} (λ _. r) f) r.1).0
        × I ((◌>>=◌ {Value = Value} {W = W} (λ _. r) f) r.1).1.world
  unfolding ◌>>=◌
  bind_at f g (ok a, s) q i = (g a q).holds s i
  bind_at f g (err e, s) q i = (q, i)

  pub bind-Good :
      {A B : Type 0} {Q : A → Type 0} {R : B → Type 0} {m : Step Value W A} {f : A → Step Value W B}
      → Good Q m
      → ((a : A) → Q a → Good R (f a))
      → Good R (m >>= f)
  unfolding ◌>>=◌
  bind-Good {m = m} {f = f} g h = record {
    holds = λ s i. let r = g.holds s i in bind_at f h (m s) r.0 r.1;
  }

  -- A step whose value does not matter, and then the rest.
  pub chain :
      {A B : Type 0} {R : B → Type 0} {m : Step Value W A} {f : A → Step Value W B}
      → Good Any m
      → ((a : A) → Good R (f a))
      → Good R (m >>= f)
  chain g h = bind-Good g (λ a _. h a)

  pub give-Good : {A : Type 0} {Q : A → Type 0} (a : A) → Q a → Good Q (give a)
  unfolding give
  give-Good a q = record { holds = λ s i. (q, i) }

  pub fail-Good :
      {A : Type 0} {Q : A → Type 0} (r : JsonRpcResponse Value) → IsAnswer id r → Good Q (fail r)
  unfolding fail
  fail-Good r a = record { holds = λ s i. (a, i) }

  pub require-Good : (b : Bool) (r : JsonRpcResponse Value) → IsAnswer id r → Good Any (require b r)
  unfolding require give fail
  require-Good true r a = give-Good tt tt
  require-Good false r a = fail-Good r a

  connected_at :
      (r : Request)
      → (free ≡ true) ⊎ (acts_request r ≡ false)
      → (c : Result Unit ClientError × W) (s : Session W) → I c.1
      → I (call_after_connect host r c s).1.world
  unfolding call_after_connect call_connected
  connected_at r q (ok u, w) s i = keeps.call_keeps r w q i
  connected_at r q (err e, w) s i = i

  called_at :
      (r : Request)
      → (free ≡ true) ⊎ (acts_request r ≡ false)
      → (b : Bool) (s : Session W) → I s.world
      → I
          (if b
            then call_connected host r s
            else call_after_connect host r (host.connect_daemon s.world) s).1.world
  unfolding call_connected
  called_at r q true s i = keeps.call_keeps r s.world q i
  called_at r q false s i =
      connected_at r q (host.connect_daemon s.world) s (keeps.connect_keeps s.world i)

  call_daemon-keeps :
      (r : Request)
      → (free ≡ true) ⊎ (acts_request r ≡ false)
      → (s : Session W) → I s.world
      → I (call_daemon host r s).1.world
  unfolding call_daemon
  call_daemon-keeps r q s i = called_at r q s.connected s i

  or_tool_error-Good :
      {A : Type 0} (r : Result A ClientError × Session W)
      → I r.1.world
      → Outcome Any (or_tool_error host id r).0 × I (or_tool_error host id r).1.world
  unfolding or_tool_error
  or_tool_error-Good (ok v, s) i = (tt, i)
  or_tool_error-Good (err e, s) i =
      let c = classify_daemon_error e in (tool_error-IsAnswer id c.0 c.1, i)

  pub ask-Good : (r : Request) → (free ≡ true) ⊎ (acts_request r ≡ false) → Good Any (ask host id r)
  unfolding ask
  ask-Good r q = record {
    holds = λ s i. or_tool_error-Good (call_daemon host r s) (call_daemon-keeps r q s i);
  }

  pub run_input-Good :
      (r : Request) → (free ≡ true) ⊎ (acts_request r ≡ false) → Good Any (run_input host id r)
  unfolding run_input
  run_input-Good r q = chain (ask-Good r q) (λ v. give-Good tt tt)

  pub or_malformed-Good :
      {A : Type 0} (what : Text) (r : Result A Text) → Good Any (or_malformed id what r)
  unfolding or_malformed tool_error response_ok
  or_malformed-Good what (ok a) = give-Good a tt
  or_malformed-Good what (err e) = fail-Good _ plain

  outside_at :
      {A : Type 0} (r : Result A Text × W) (s : Session W)
      → I r.1
      → Outcome Any (outside host id (λ _. r) s).0 × I (outside host id (λ _. r) s).1.world
  unfolding outside tool_error response_ok
  outside_at (ok a, w) s i = (tt, i)
  outside_at (err e, w) s i = (plain, i)

  pub outside-Good :
      {A : Type 0} (f : W → Result A Text × W)
      → ((w : W) → I w → I (f w).1)
      → Good Any (outside host id f)
  unfolding outside
  outside-Good f k = record { holds = λ s i. outside_at (f s.world) s (k s.world i) }
