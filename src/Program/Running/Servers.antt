-- ===== src/Program/Running/Servers.antt =====
-- The servers that a run starts.
use mathlib.Core.List.{Memᴰ}
use mathlib.Core.Path.{subst}
use web_form.Prelude.{
  leb, [], ◌∷◌, Bool, true, false, List, Option, none, some, Error, Result, ok, err, codes, ◌≡◌,
  refl, sym, if_elim, ◌==◌, Text-comparable, All, All-append, Bool-cases, inl, inr, is_empty, ℕ,
  zero, suc,
}
use web_form.Prelude.Int.{ℤ, pos, negsuc}
use web_form.Engine.Config.{Store}
use web_form.Engine.Server.{Mux}
use web_form.Storage.Databases.{Database}
use web_form.Storage.Files.{Closable}
use web_form.Program.Settings.{Settings}
use web_form.Program.Startup.{Backends, create_storage, prepare_db, migrate_db}
use web_form.Program.Login.{SessionStore, in_memory, in_redis}
use web_form.Program.Router.{Server}
use web_form.Program.Runs.{
  Run, Event, Ended, attempt, finished, failed, panicked, continue, started, listen,
  opened_sessions, ◌>>=◌,
}
use web_form.Program.Running.{
  Host, make_channel, start_workers, workers_of, build_engine, login_for, run_tasks, run_logged,
  run, use_storage,
}

-- A predicate of every server that is started.
abbrev pub IsOf : (Server → Type 0) → Event → Type 0
IsOf P (started (listen s)) = P s
IsOf P e = Unit

pub record AllServers {ℓ} {A : Type ℓ} (P : Server → Type 0) (x : Run A) : Type 0 where
  pub every : All (IsOf P) x.events

module _ (P : Server → Type 0) where
  pub bind-AllServers {ℓ κ} :
      {A : Type ℓ} {B : Type κ} (es : List Event) (ended : Ended A) (next : A → Run B)
      → AllServers P (record { events = es; ended = ended })
      → ((a : A) → ended ≡ finished a → AllServers P (next a))
      → AllServers P (continue es ended next)
  bind-AllServers es (finished a) next q q' = record {
    every = All-append (IsOf P) es (next a).events q.every (q' a refl).every;
  }
  bind-AllServers es (failed e) next q q' = record { every = q.every }
  bind-AllServers es panicked next q q' = record { every = q.every }

  pub attempt-AllServers {ℓ} : {A : Type ℓ} (x : Result A) → AllServers P (attempt x)
  attempt-AllServers (ok a) = record { every = tt }
  attempt-AllServers (err e) = record { every = tt }

  pub make_channel-AllServers : (limit : ℕ) (z : ℤ) → AllServers P (make_channel limit z)
  make_channel-AllServers limit (pos n) =
      if_elim (AllServers P) (leb n limit) _ _ (λ _. record { every = tt })
        (λ _. record { every = tt })
  make_channel-AllServers limit (negsuc n) = record { every = tt }

  pub start_workers-servers : (n : ℕ) → All (IsOf P) (start_workers n)
  unfolding start_workers
  start_workers-servers zero = tt
  start_workers-servers (suc n) = (tt, start_workers-servers n)

pub every_server :
    (es : List Event) (s : Server) (P : Server → Type 0)
    → All (IsOf P) es
    → Memᴰ (started (listen s)) es
    → P s
every_server [] s P q m = elim m [ ]
every_server (e ∷ es) s P (q, qs) (Memᴰ.head x) = subst (IsOf P) (sym x) q
every_server (e ∷ es) s P (q, qs) (Memᴰ.tail m) = every_server es s P qs m

module _ (b : Backends) (cfg : Settings) (P : Server → Type 0) where
  migrate_db-AllServers : (db : Database) (o : Option Bool) → AllServers P (migrate_db b cfg db o)
  migrate_db-AllServers db none = record { every = tt }
  migrate_db-AllServers db (some false) = record { every = tt }
  migrate_db-AllServers db (some true) = record { every = (tt, tt) }

  prepare_db-AllServers : (db : Database) → AllServers P (prepare_db b cfg db)
  unfolding prepare_db
  prepare_db-AllServers db = record { every = (tt, (migrate_db-AllServers db _).every) }

  pub create_storage-AllServers : AllServers P (create_storage b cfg)
  unfolding create_storage
  create_storage-AllServers =
      if_elim (AllServers P) (cfg.storage == codes "files") _ _ (λ _. record { every = (tt, tt) })
        λ _.
          if_elim (AllServers P) (cfg.storage == codes "database") _ _
            (λ _.
              bind-AllServers P _ _ _ (attempt-AllServers P _) (λ db e. prepare_db-AllServers db))
            λ _.
              if_elim (AllServers P) (cfg.storage == codes "dump") _ _
                (λ _. record { every = (tt, tt) }) λ _. record { every = tt }

module _ {ℓ} {T : Type ℓ} (h : Host T) (cfg : Settings) (P : Server → Type 0) where
  pub run_tasks-AllServers : (s : Server) → P s → AllServers P (run_tasks h cfg s)
  unfolding run_tasks
  run_tasks-AllServers s q = record {
    every = (
      tt,
      All-append (IsOf P) (start_workers (workers_of cfg.amqp.workers)) _
          (start_workers-servers P (workers_of cfg.amqp.workers)) (q, (tt, tt)),
    );
  }

  pub build_engine-AllServers :
      (views : Option (T × List T)) (mux : Option (Result Mux))
      → AllServers P (build_engine h views mux)
  build_engine-AllServers none mux = record { every = tt }
  build_engine-AllServers (some views) none = record { every = tt }
  build_engine-AllServers (some views) (some mux) = attempt-AllServers P _

  pub use_storage-AllServers :
      (next : Store → Run (List Error)) (out : Closable Store × Option Error)
      → ((s : Store) → AllServers P (next s))
      → AllServers P (use_storage h next out)
  use_storage-AllServers next (s, none) q = record {
    every = All-append (IsOf P) (next s.store).events _ (q s.store).every (tt, tt);
  }
  use_storage-AllServers next (s, some e) q = record { every = tt }

  pub run-AllServers :
      (cfg.oidc.enable ≡ false → AllServers P (run_logged h cfg none))
      → ((place : SessionStore)
          → cfg.oidc.enable ≡ true
          → AllServers P (login_for h cfg place >>= λ l. run_logged h cfg (some l)))
      → AllServers P (run h cfg)
  unfolding run
  run-AllServers without with_login = elim (Bool-cases cfg.oidc.enable) [
    | inr off ↦ rw off (without off)
    | inl on ↦ elim (Bool-cases (is_empty cfg.oidc.redis_url)) [
      | inl memory ↦ rw (on, memory) (with_login in_memory on)
      | inr redis ↦
          let inner = with_login (in_redis cfg.oidc.redis_url) on in
          rw (on, redis)
            (record {
              every =
                  All-append (IsOf P)
                    (opened_sessions cfg.oidc.redis_url
                      ∷ (login_for h cfg (in_redis cfg.oidc.redis_url) >>= λ l.
                          run_logged h cfg (some l)).events)
                    _ (tt, inner.every) (tt, tt);
            })
    ]
  ]
