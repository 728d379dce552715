-- ===== src/Program/Runs.antt =====
-- cmd/web-form/main.go: what a run of the program does to its surroundings, and how it ends.
use web_form.Program.Router.{Server}
use web_form.Prelude.{Text, [], ◌∷◌, ◌++◌, List, Error, Result, ok, err}

-- A task that `run` starts.
pub data Task : Type 0 where
  deliver_webhooks : Task
  publish_messages : Task
  listen : Server → Task
  close_at_end : Task

-- What is opened, changed, started and closed, in order.
pub data Event : Type 0 where
  opened_sessions : Text → Event  -- the pool of Redis
  closed_sessions : Event
  opened_storage : Event
  migrated : Text → Event
  closed_storage : Event
  started : Task → Event

pub data Ended {ℓ} (A : Type ℓ) : Type ℓ where
  finished : A → Ended A
  failed : Error → Ended A
  panicked : Ended A

pub record Run {ℓ} (A : Type ℓ) : Type ℓ where
  pub events : List Event
  pub ended : Ended A

module _ {ℓ} {A : Type ℓ} where
  abbrev pub return : A → Run A
  return a = record { events = []; ended = finished a }

  abbrev pub fail : Error → Run A
  fail e = record { events = []; ended = failed e }

  abbrev pub panic : Run A
  panic = record { events = []; ended = panicked }

  abbrev pub attempt : Result A → Run A
  attempt (ok a) = return a
  attempt (err e) = fail e

  -- An event before a run.
  abbrev pub after : Event → Run A → Run A
  after e r = record { events = e ∷ r.events; ended = r.ended }

  -- An event at the end of a run, however it ends.
  abbrev pub deferring : Event → Run A → Run A
  deferring e r = record { events = r.events ++ e ∷ []; ended = r.ended }

abbrev pub continue {ℓ κ} : {A : Type ℓ} {B : Type κ} → List Event → Ended A → (A → Run B) → Run B
continue events (finished a) next = record {
  events = events ++ (next a).events;
  ended = (next a).ended;
}
continue events (failed e) next = record { events = events; ended = failed e }
continue events panicked next = record { events = events; ended = panicked }

infixl 5 ◌>>=◌
abbrev pub ◌>>=◌ {ℓ κ} : {A : Type ℓ} {B : Type κ} → Run A → (A → Run B) → Run B
r >>= next = continue r.events r.ended next
