-- ===== src/Notifications/Broker/Pool.antt =====
-- internal/notifications/amqp/amqp.go, cmd/web-form/main.go: the publishers that take messages of one
-- channel side by side. What the channel accepts and what is taken is kept in the order in which it
-- happens.
pub mod Invariant
use mathlib.Core.Path.{subst}
use web_form.Prelude.{
  [], ◌∷◌, ◌++◌, Bool, List, ℕ, zero, suc, ◌+◌, ◌<◌, ◌≤◌, ◌≡◌, refl, sym, ap, arith, ◌∙◌, inl,
  length, length-append, append_assoc, append-nil, All,
}
use web_form.Notifications.Broker.{Task}
use web_form.Notifications.Broker.Connections.{Worker, Broker, send_task, close, new_worker}
use web_form.Notifications.Broker.Workers.{IsSound, IsReset, close-IsSound}

-- What a `Run` is at: its `select`, a message, or its end.
pub data Stage : Type 0 where
  waiting : Worker → Stage
  sending : Worker → Task → Stage
  returned : Worker → Stage

pub record Pool : Type 0 where
  pub buffer : ℕ
  pub tasks : List Task
  pub accepted : List Task
  pub taken : List Task
  pub finished : List Task
  pub workers : List Stage

abbrev pub repeat {ℓ} : {A : Type ℓ} → ℕ → A → List A
repeat zero a = []
repeat (suc n) a = a ∷ repeat n a

-- `New`, and the loop of `run` that starts the workers.
unfoldable pub new_pool : ℕ → ℕ → Pool
new_pool buffer workers = record {
  buffer = buffer;
  tasks = [];
  accepted = [];
  taken = [];
  finished = [];
  workers = repeat workers (waiting new_worker);
}

-- A step of the callers of `Dispatch` and of the workers: the channel takes a message while it has
-- room; a waiting worker receives the oldest one, or one straight from a caller; a worker is done with
-- its message; `Run` returns from its `select` when the context ends.
pub data Step : Pool → Pool → Type 0 where
  accepts :
      {s : Pool} (t : Task)
      → length s.tasks < s.buffer
      → Step s (record s { tasks = s.tasks ++ t ∷ []; accepted = s.accepted ++ t ∷ [] })
  receives :
      {s : Pool} (t : Task) (ts : List Task) (before after : List Stage) (w : Worker)
      → s.tasks ≡ t ∷ ts
      → s.workers ≡ before ++ waiting w ∷ after
      → Step s (record s {
        tasks = ts;
        taken = s.taken ++ t ∷ [];
        workers = before ++ sending w t ∷ after;
      })
  hands :
      {s : Pool} (t : Task) (before after : List Stage) (w : Worker)
      → s.tasks ≡ []
      → s.workers ≡ before ++ waiting w ∷ after
      → Step s (record s {
        accepted = s.accepted ++ t ∷ [];
        taken = s.taken ++ t ∷ [];
        workers = before ++ sending w t ∷ after;
      })
  finishes :
      {s : Pool} (t : Task) (before after : List Stage) (w : Worker) (broker : ℕ → Broker)
      (stops : ℕ → Bool)
      → s.workers ≡ before ++ sending w t ∷ after
      → Step s (record s {
        finished = s.finished ++ t ∷ [];
        workers = before ++ waiting (send_task broker stops t w).worker ∷ after;
      })
  returns :
      {s : Pool} (before after : List Stage) (w : Worker)
      → s.workers ≡ before ++ waiting w ∷ after
      → Step s (record s { workers = before ++ returned (close w) ∷ after })

-- The states that a pool may come to.
pub data Reached (buffer workers : ℕ) : Pool → Type 0 where
  new_one : Reached buffer workers (new_pool buffer workers)
  later : {s t : Pool} → Reached buffer workers s → Step s t → Reached buffer workers t
