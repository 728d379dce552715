-- ===== src/Program/Running/Settled.antt =====
-- How a run that starts a server returns.
use web_form.Prelude.{
  wrapped, All-append, [], ◌∷◌, not, List, Option, none, some, Error, Result, ok, err, ◌≡◌, refl,
  if_elim, is_empty, codes,
}
use web_form.Schema.Types.{Form}
use web_form.Engine.Config.{Store}
use web_form.Storage.Files.{Closable}
use web_form.Program.Settings.{Settings}
use web_form.Program.Startup.{create_storage}
use web_form.Program.Login.{create_auth, SessionStore, in_memory, in_redis}
use web_form.Program.Router.{Server, Login, new_router}
use web_form.Program.Runs.{
  Run, Event, attempt, return, Ended, finished, failed, panicked, continue, opened_sessions, ◌>>=◌,
}
use web_form.Program.Running.Servers.{
  IsOf, AllServers, attempt-AllServers, make_channel-AllServers, create_storage-AllServers,
  run_tasks-AllServers, build_engine-AllServers,
}
use web_form.Engine.Server.Views.{parse_views}
use web_form.Program.Running.{
  Host, server_of, gather, login_for, serve_task, run_tasks, run_stored, run_logged, run,
  use_storage, make_channel, engine_for, read_forms, in_creation,
}

attempted-AllServers {ℓ κ} :
    {A : Type ℓ} {B : Type κ} (P : Server → Type 0) (r : Result A) (f : A → B)
    → AllServers P (attempt r >>= λ a. return (f a))
attempted-AllServers P (ok a) f = record { every = tt }
attempted-AllServers P (err e) f = record { every = tt }

module _ {ℓ} {T : Type ℓ} (h : Host T) (cfg : Settings) where
  -- The errors of the tasks of a server.
  abbrev pub errors_of : Server → List Error
  errors_of s = gather (serve_task h cfg s ∷ h.close_server ∷ [])

  -- A run that starts a server returns by itself, with the errors of the server's tasks.
  abbrev pub IsEnd : Ended (List Error) → Server → Type 0
  IsEnd e s = e ≡ finished (errors_of s)

  abbrev pub Settles : Run (List Error) → Type 0
  Settles x = AllServers (IsEnd x.ended) x

  continue-Settles {κ} :
      {A : Type κ} (events : List Event) (ended : Ended A) (next : A → Run (List Error))
      → ((P : Server → Type 0) → AllServers P (record { events = events; ended = ended }))
      → ((a : A) → Settles (next a))
      → Settles (continue events ended next)
  continue-Settles events (finished a) next q q' = record {
    every =
        All-append (IsOf (IsEnd (next a).ended)) events (next a).events
          (q (IsEnd (next a).ended)).every (q' a).every;
  }
  continue-Settles events (failed x) next q q' = record { every = (q _).every }
  continue-Settles events panicked next q q' = record { every = (q _).every }

  bind-Settles {κ} :
      {A : Type κ} (x : Run A) (next : A → Run (List Error))
      → ((P : Server → Type 0) → AllServers P x)
      → ((a : A) → Settles (next a))
      → Settles (x >>= next)
  bind-Settles x next q q' =
      continue-Settles x.events x.ended next (λ P. record { every = (q P).every }) q'

  run_stored-Settles :
      (login : Option Login) (forms : List Form) (store : Store)
      → Settles (run_stored h cfg login forms store)
  unfolding run_stored engine_for run_tasks
  run_stored-Settles login forms store =
      bind-Settles (make_channel h.webhooks_limit cfg.webhooks_buffer) _
        (λ P. make_channel-AllServers P h.webhooks_limit cfg.webhooks_buffer)
        λ webhooks.
          bind-Settles (make_channel h.broker_limit cfg.amqp.buffer) _
            (λ P. make_channel-AllServers P h.broker_limit cfg.amqp.buffer)
            λ broker.
              bind-Settles (engine_for h cfg forms store) _
                (λ P. build_engine-AllServers h cfg P (parse_views h.views) _)
                λ mux.
                  let server = server_of cfg (new_router cfg login mux) in
                  run_tasks-AllServers h cfg (IsEnd (finished (errors_of server))) server refl

  use_storage-Settles :
      (next : Store → Run (List Error)) (out : Closable Store × Option Error)
      → ((s : Store) → Settles (next s))
      → Settles (use_storage h next out)
  use_storage-Settles next (s, none) q = record {
    every =
        All-append (IsOf (IsEnd (next s.store).ended)) (next s.store).events _ (q s.store).every
          (tt, tt);
  }
  use_storage-Settles next (s, some e) q = record { every = tt }

  run_logged-Settles : (login : Option Login) → Settles (run_logged h cfg login)
  unfolding run_logged
  run_logged-Settles login =
      bind-Settles (attempt (read_forms h cfg)) _ (λ P. attempt-AllServers P _)
        λ forms.
          bind-Settles (in_creation h (create_storage h.backends cfg)) _
            (λ P. record { every = (create_storage-AllServers h.backends cfg P).every })
            λ out.
              use_storage-Settles (run_stored h cfg login forms) out
                (run_stored-Settles login forms)

  login-Settles :
      (place : SessionStore) → Settles (login_for h cfg place >>= λ l. run_logged h cfg (some l))
  unfolding login_for
  login-Settles place =
      bind-Settles (login_for h cfg place) _
        (λ P.
          attempted-AllServers P
            (wrapped (codes "create auth: %w") [] (create_auth h.new_oidc cfg place))
            (λ secure. record {
              prefix = h.login_prefix;
              sessions = place;
              loads = h.loads place;
              secure = secure;
            }))
        λ l. run_logged-Settles (some l)

  pub run-Settles : Settles (run h cfg)
  unfolding run
  run-Settles =
      if_elim Settles (not cfg.oidc.enable) _ _ (λ _. run_logged-Settles none)
        λ _.
          if_elim Settles (is_empty cfg.oidc.redis_url) _ _ (λ _. login-Settles in_memory)
            λ _.
              let inner = login-Settles (in_redis cfg.oidc.redis_url) in
              record {
                every =
                    All-append
                      (IsOf (
                        IsEnd
                          (login_for h cfg (in_redis cfg.oidc.redis_url) >>= λ l.
                            run_logged h cfg (some l)).ended))
                      (opened_sessions cfg.oidc.redis_url
                        ∷ (login_for h cfg (in_redis cfg.oidc.redis_url) >>= λ l.
                            run_logged h cfg (some l)).events)
                      _ (tt, inner.every) (tt, tt);
              }
