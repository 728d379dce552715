-- ===== src/Program/Running.antt =====
-- cmd/web-form/main.go: `run` and `main`.
pub mod Events
pub mod Closing
pub mod Prepared
pub mod Settled
pub mod Exit
pub mod Servers
pub mod Served
use web_form.Prelude.{
  Text, [], ◌∷◌, ◌++◌, if◌then◌else◌, not, Bool, List, Option, none, some, Error, Result, ok, err,
  wrap, wrapped, codes, is_empty, ℕ, leb, zero, suc,
}
use web_form.Prelude.Int.{ℤ, pos, negsuc}
use web_form.Schema.Types.{Form}
use web_form.Web.Requests.{HttpRequest}
use web_form.Schema.Templates.{Externals}
use web_form.Schema.Loader.{Document, Entry, forms_from_fs}
use web_form.Engine.Config.{Store, with_xsrf}
use web_form.Engine.Server.{Mux, new_mux}
use web_form.Engine.Server.Views.{Sources, parse_views}
use web_form.Storage.Files.{Closable}
use web_form.Notifications.Webhooks
use web_form.Notifications.Broker
use web_form.Program.Turnstile.{Service}
use web_form.Program.Settings.{Settings, HttpSettings}
use web_form.Program.Startup.{Backends, create_storage, engine_config}
use web_form.Program.Login.{AuthConfig, Gate, SessionStore, in_memory, in_redis, create_auth}
use web_form.Program.Router.{Server, Router, Login, new_router}
use web_form.Program.Runs.{
  Run, Event, Ended, finished, failed, panicked, Task, return, fail, panic, attempt, after,
  deferring, ◌>>=◌, started, opened_sessions, closed_sessions, closed_storage, deliver_webhooks,
  publish_messages, listen, close_at_end,
}

abbrev pub server_of : Settings → Router → Server
server_of cfg router = record {
  addr = cfg.http.bind;
  handler = router;
  read_timeout = cfg.http.read_timeout;
  write_timeout = cfg.http.write_timeout;
}

-- What a run of the program meets: the walk over the definitions of forms with the decoder of their
-- files and the form of `Default`, the views, the login provider and its sessions, the storage, the
-- captcha, the patterns that chi takes beside others, the largest buffers that Go allocates for the two
-- channels, and what the server's two calls return.
pub record Host {ℓ} (T : Type ℓ) : Type ℓ where
  pub externals : Externals
  pub walk_configs : Text → List Entry
  pub open_file : Text → Text → Result (List Document)
  pub default_form : Form
  pub views : Sources T
  pub login_prefix : Text
  pub loads : SessionStore → HttpRequest → Bool
  pub new_oidc : AuthConfig → Result Gate
  pub backends : Backends
  pub service : Service
  pub takes : List Text → Text → Bool
  pub webhooks_limit : ℕ
  pub broker_limit : ℕ
  pub listen_and_serve : Server → Option Error
  pub listen_and_serve_tls : Server → Text → Text → Option Error
  pub is_server_closed : Error → Bool
  pub close_server : Option Error

-- `make(chan task, buffer)` of either dispatcher, with the largest buffer that Go allocates.
abbrev pub make_channel : ℕ → ℤ → Run ℕ
make_channel limit (pos n) = if leb n limit then return n else panic
make_channel limit (negsuc n) = panic

-- The loop that starts the publishers.
unfoldable pub start_workers : ℕ → List Event
start_workers zero = []
start_workers (suc n) = started publish_messages ∷ start_workers n

abbrev pub workers_of : ℤ → ℕ
workers_of (pos n) = n
workers_of (negsuc n) = 0

-- The errors of the tasks that have one.
abbrev pub gather : List (Option Error) → List Error
gather [] = []
gather (none ∷ es) = gather es
gather (some e ∷ es) = e ∷ gather es

abbrev pub wrap_ended {ℓ} : {A : Type ℓ} → Ended A → Ended A
wrap_ended (finished a) = finished a
wrap_ended (failed e) = failed (wrap (codes "create storage: %w") [] e)
wrap_ended panicked = panicked

-- An error of `run`, its own or one of the tasks, is the exit code 2.
abbrev pub exit_code : Ended (List Error) → Option ℕ
exit_code (finished []) = some 0
exit_code (finished (e ∷ es)) = some 2
exit_code (failed e) = some 2
exit_code panicked = none

module _ {ℓ} {T : Type ℓ} (h : Host T) where
  -- `auth`, for a place of the sessions.
  unfoldable pub login_for : Settings → SessionStore → Run Login
  unfolding create_auth
  login_for cfg sessions =
      attempt (wrapped (codes "create auth: %w") [] (create_auth h.new_oidc cfg sessions))
      >>= λ secure. return (record {
        prefix = h.login_prefix;
        sessions = sessions;
        loads = h.loads sessions;
        secure = secure;
      })

  -- `schema.FormsFromFS(os.DirFS(config.Configs))`
  unfoldable pub read_forms : Settings → Result (List Form)
  unfolding forms_from_fs
  read_forms cfg =
      wrapped (codes "read configs in %q: %w") (cfg.configs ∷ [])
        (forms_from_fs (h.open_file cfg.configs) h.default_form (h.walk_configs cfg.configs))

  -- Without the views, or without the mux, there is a panic.
  abbrev pub build_engine : Option (T × List T) → Option (Result Mux) → Run Mux
  build_engine none mux = panic
  build_engine (some views) none = panic
  build_engine (some views) (some mux) = attempt (wrapped (codes "create engine: %w") [] mux)

  -- `engine.New`, with its views, for a storage.
  unfoldable pub engine_for : Settings → List Form → Store → Run Mux
  unfolding parse_views new_mux engine_config with_xsrf
  engine_for cfg forms store = build_engine (parse_views h.views) (
      new_mux h.takes
        (engine_config h.service cfg forms store (Webhooks.create h.externals)
          (Broker.create h.externals))
        (with_xsrf (not cfg.http.disable_xsrf) ∷ []))

  -- What the task of the server returns.
  unfoldable pub serve_task : Settings → Server → Option Error
  serve_task cfg server =
      let stopped =
        if cfg.http.tls
        then h.listen_and_serve_tls server cfg.http.cert cfg.http.key
        else h.listen_and_serve server in
      elim stopped [ none ↦ none | some e ↦ if h.is_server_closed e then none else some e ]

  -- The tasks, and their errors when all have ended.
  unfoldable pub run_tasks : Settings → Server → Run (List Error)
  unfolding start_workers serve_task
  run_tasks cfg server = record {
    events =
        started deliver_webhooks
        ∷ (start_workers (workers_of cfg.amqp.workers)
            ++ started (listen server) ∷ started close_at_end ∷ []);
    ended = finished (gather (serve_task cfg server ∷ h.close_server ∷ []));
  }

  -- `run` behind the storage, which is closed at the end.
  unfoldable pub run_stored : Settings → Option Login → List Form → Store → Run (List Error)
  unfolding engine_for run_tasks new_router
  run_stored cfg login forms store = do
    webhooks ← make_channel h.webhooks_limit cfg.webhooks_buffer
    broker ← make_channel h.broker_limit cfg.amqp.buffer
    mux ← engine_for cfg forms store
    run_tasks cfg (server_of cfg (new_router cfg login mux))

  -- What `createStorage` gives is closed at the end only if there is no error.
  abbrev pub use_storage :
      (Store → Run (List Error)) → Closable Store × Option Error → Run (List Error)
  use_storage next (storage, none) = deferring closed_storage (next storage.store)
  use_storage next (storage, some e) = fail (wrap (codes "create storage: %w") [] e)

  -- The error of `createStorage` when it comes without a storage.
  abbrev pub in_creation {κ} : {A : Type κ} → Run A → Run A
  in_creation r = record { events = r.events; ended = wrap_ended r.ended }

  -- `run` behind the login.
  unfoldable pub run_logged : Settings → Option Login → Run (List Error)
  unfolding read_forms create_storage run_stored
  run_logged cfg login = do
    forms ← attempt (read_forms cfg)
    opened ← in_creation (create_storage h.backends cfg)
    use_storage (run_stored cfg login forms) opened

  -- `run`
  unfoldable pub run : Settings → Run (List Error)
  unfolding login_for run_logged
  run cfg =
      if not cfg.oidc.enable
      then run_logged cfg none
      else if is_empty cfg.oidc.redis_url
      then (login_for cfg in_memory >>= λ l. run_logged cfg (some l))
      else deferring closed_sessions (
          after (opened_sessions cfg.oidc.redis_url)
            (login_for cfg (in_redis cfg.oidc.redis_url) >>= λ l. run_logged cfg (some l)))

  -- The exit code of `main`, for what parsing the arguments gives; `none` is a panic.
  unfoldable pub main : Result Settings → Option ℕ
  unfolding run
  main (err e) = some 1
  main (ok cfg) = exit_code (run cfg).ended
