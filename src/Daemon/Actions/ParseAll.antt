-- ===== src/Daemon/Actions/ParseAll.antt =====
-- `parse_all`: all actions, or the first one that is refused.
use hypr_pilot.Prelude.{
  ℕ, zero, suc, ◌+◌, ◌≡◌, refl, List, [], ◌∷◌, Text, Result, ok, err, map_err, ◌>>=◌, arith,
}
use hypr_pilot.Daemon.Actions.{Action, ParseError, parse, parse_from, parse_all}

-- Each text is parsed to the action at its place.
pub data AllParse : List Text → List Action → Type 0 where
  done : AllParse [] []
  more :
      {s : Text} {a : Action} {ss : List Text} {as' : List Action}
      → parse s ≡ ok a
      → AllParse ss as'
      → AllParse (s ∷ ss) (a ∷ as')

-- The text at `i` is refused with `e`, and all before it are parsed.
pub data FirstError : List Text → ℕ → ParseError → Type 0 where
  here : {s : Text} {ss : List Text} {e : ParseError} → parse s ≡ err e → FirstError (s ∷ ss) zero e
  later :
      {s : Text} {a : Action} {ss : List Text} {i : ℕ} {e : ParseError}
      → parse s ≡ ok a
      → FirstError ss i e
      → FirstError (s ∷ ss) (suc i) e

-- What `parse_from i` returns, as a description of the list.
abbrev pub Describes : ℕ → List Text → Result (List Action) (ℕ × ParseError) → Type 0
Describes i ss (ok as') = AllParse ss as'
Describes i ss (err (j, e)) = (k : ℕ) × (j ≡ i + k) × FirstError ss k e

step-Describes :
    (i : ℕ) (s : Text) (ss : List Text) (r : Result Action ParseError)
    (rest : Result (List Action) (ℕ × ParseError))
    → parse s ≡ r
    → Describes (suc i) ss rest
    → Describes i (s ∷ ss) (map_err (λ e. (i, e)) r >>= λ a. rest >>= λ as'. ok (a ∷ as'))
step-Describes i s ss (err e) rest h d = (0, omega arith, here h)
step-Describes i s ss (ok a) (ok as') h d = more h d
step-Describes i s ss (ok a) (err (j, e)) h (k, eq, f) = (suc k, omega arith, later h f)

parse_from-Describes : (i : ℕ) (ss : List Text) → Describes i ss (parse_from i ss)
unfolding parse_from
parse_from-Describes i [] = done
parse_from-Describes i (s ∷ ss) =
    step-Describes i s ss (parse s) (parse_from (suc i) ss) refl (parse_from-Describes (suc i) ss)

-- Parsing a list of texts gives the actions of all of them, or the index and the error of the
-- first one that is refused.
pub parse_all-Describes : (ss : List Text) → Describes 0 ss (parse_all ss)
unfolding parse_all
parse_all-Describes ss = parse_from-Describes 0 ss
