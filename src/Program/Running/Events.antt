-- ===== src/Program/Running/Events.antt =====
-- What is open behind the events of a run, and which parts of `run` open and close nothing.
use web_form.Prelude.{
  leb, if_elim, [], ◌∷◌, ◌++◌, Bool, true, false, List, Option, none, some, Result, ok, err, ◌≡◌,
  refl, Text-comparable, ℕ, zero, suc,
}
use web_form.Prelude.Int.{ℤ, pos, negsuc}
use web_form.Schema.Types.{Form}
use web_form.Engine.Config.{Store}
use web_form.Engine.Server.{Mux}
use web_form.Engine.Server.Views.{parse_views}
use web_form.Program.Settings.{Settings}
use web_form.Program.Router.{Server, Login}
use web_form.Program.Runs.{
  Run, Event, Ended, attempt, finished, failed, panicked, continue, started, opened_sessions,
  listen, closed_sessions, opened_storage, closed_storage,
}
use web_form.Program.Running.{
  Host, make_channel, start_workers, build_engine, engine_for, run_tasks, run_stored,
}

-- What is opened and closed.
pub data Resource : Type 0 where
  sessions : Resource
  storage : Resource
  listener : Resource

-- Whether it is open behind an event.
abbrev pub is_left_open : Resource → Event → Bool → Bool
is_left_open sessions (opened_sessions url) b = true
is_left_open sessions closed_sessions b = false
is_left_open storage opened_storage b = true
is_left_open storage closed_storage b = false
is_left_open listener (started (listen server)) b = true
is_left_open r e b = b

abbrev pub is_open : Resource → Bool → List Event → Bool
is_open r b [] = b
is_open r b (e ∷ es) = is_open r (is_left_open r e b) es

pub is_open-append :
    (r : Resource) (b : Bool) (es fs : List Event)
    → is_open r b (es ++ fs) ≡ is_open r (is_open r b es) fs
is_open-append r b [] fs = refl
is_open-append r b (e ∷ es) fs = is_open-append r (is_left_open r e b) es fs

-- A run that neither opens nor closes it.
pub record IsQuiet {ℓ} {A : Type ℓ} (r : Resource) (x : Run A) : Type 0 where
  pub quiet : (b : Bool) → is_open r b x.events ≡ b

module _ (r : Resource) where
  pub bind-IsQuiet {ℓ κ} :
      {A : Type ℓ} {B : Type κ} (es : List Event) (ended : Ended A) (next : A → Run B)
      → IsQuiet r (record { events = es; ended = ended })
      → ((a : A) → IsQuiet r (next a))
      → IsQuiet r (continue es ended next)
  bind-IsQuiet es (finished a) next q q' = record {
    quiet = λ b. rw (is_open-append, q.quiet, (q' a).quiet) refl;
  }
  bind-IsQuiet es (failed e) next q q' = record { quiet = q.quiet }
  bind-IsQuiet es panicked next q q' = record { quiet = q.quiet }

  pub attempt-IsQuiet {ℓ} : {A : Type ℓ} (x : Result A) → IsQuiet r (attempt x)
  attempt-IsQuiet (ok a) = record { quiet = λ b. refl }
  attempt-IsQuiet (err e) = record { quiet = λ b. refl }

  pub make_channel-IsQuiet : (limit : ℕ) (z : ℤ) → IsQuiet r (make_channel limit z)
  make_channel-IsQuiet limit (pos n) =
      if_elim (IsQuiet r) (leb n limit) _ _ (λ _. record { quiet = λ b. refl })
        (λ _. record { quiet = λ b. refl })
  make_channel-IsQuiet limit (negsuc n) = record { quiet = λ b. refl }

pub start_workers-quiet : (r : Resource) (n : ℕ) (b : Bool) → is_open r b (start_workers n) ≡ b
unfolding start_workers
start_workers-quiet r zero b = refl
start_workers-quiet sessions (suc n) b = start_workers-quiet sessions n b
start_workers-quiet listener (suc n) b = start_workers-quiet listener n b
start_workers-quiet storage (suc n) b = start_workers-quiet storage n b

module _ {ℓ} {T : Type ℓ} (h : Host T) (cfg : Settings) where
  pub sessions-IsQuiet : (server : Server) → IsQuiet sessions (run_tasks h cfg server)
  unfolding run_tasks
  sessions-IsQuiet server = record {
    quiet = λ b. rw (is_open-append sessions, start_workers-quiet sessions) refl;
  }

  pub storage-IsQuiet : (server : Server) → IsQuiet storage (run_tasks h cfg server)
  unfolding run_tasks
  storage-IsQuiet server = record {
    quiet = λ b. rw (is_open-append storage, start_workers-quiet storage) refl;
  }

  pub build_engine-IsQuiet :
      (r : Resource) (views : Option (T × List T)) (mux : Option (Result Mux))
      → IsQuiet r (build_engine h views mux)
  build_engine-IsQuiet r none mux = record { quiet = λ b. refl }
  build_engine-IsQuiet r (some views) none = record { quiet = λ b. refl }
  build_engine-IsQuiet r (some views) (some mux) = attempt-IsQuiet r _

  pub run_stored-IsQuiet :
      (r : Resource) (login : Option Login) (forms : List Form) (store : Store)
      → ((server : Server) → IsQuiet r (run_tasks h cfg server))
      → IsQuiet r (run_stored h cfg login forms store)
  unfolding run_stored engine_for
  run_stored-IsQuiet r login forms store tasks =
      bind-IsQuiet r _ _ _ (make_channel-IsQuiet r _ cfg.webhooks_buffer) λ webhooks.
        bind-IsQuiet r _ _ _ (make_channel-IsQuiet r _ cfg.amqp.buffer) λ broker.
          bind-IsQuiet r _ _ _ (build_engine-IsQuiet r (parse_views h.views) _) λ mux. tasks _
