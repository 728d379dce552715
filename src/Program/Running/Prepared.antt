-- ===== src/Program/Running/Prepared.antt =====
-- When `run` comes to start the server.
use web_form.Prelude.{
  ℕ, leb, [], ◌∷◌, not, all, is_given, Text-comparable, ◌&&◌, Bool, true, false, List, Option, none,
  some, Error, Result, ok, err, ◌≡◌, refl, ◌∙◌, ap, map, distinct, append-nil, Bool-cases,
  Result-cases, inl, inr, is_empty,
}
use web_form.Prelude.Int.{ℤ, pos, negsuc}
use web_form.Schema.Types.{Form}
use web_form.Engine.Config.{Store, apply_options, with_xsrf}
use web_form.Notifications.Webhooks as Webhooks
use web_form.Notifications.Broker as Broker
use web_form.Engine.Server.{Mux, mounted_of, form_config}
use web_form.Engine.Server.Made.{is_built, new_mux-is_built, mounted_of-is_given}
use web_form.Engine.Server.Laws.{takes_all, paths}
use web_form.Engine.Server.Views.{parse_views}
use web_form.Storage.Files.{Closable}
use web_form.Program.Settings.{Settings}
use web_form.Program.Startup.{engine_config}
use web_form.Program.Login.{SessionStore, create_auth, in_memory, in_redis}
use web_form.Program.Router.{Server, Login, new_router}
use web_form.Program.Runs.{Run, Event, Ended, finished, failed, panicked, continue, ◌>>=◌}
use web_form.Program.Running.{
  Host, server_of, make_channel, build_engine, login_for, engine_for, run_tasks, run_stored,
  read_forms, run_logged, run, use_storage, wrap_ended,
}
use web_form.Program.Running.Events.{is_open, is_open-append, listener}
use web_form.Program.Running.Closing.{
  has_no_error, is_done, is_logged, created, create_storage-IsQuiet,
}

-- `make(chan task, n)` is possible.
abbrev pub is_size : ℕ → ℤ → Bool
is_size limit (pos n) = leb n limit
is_size limit (negsuc n) = false

module _ {ℓ} {T : Type ℓ} (h : Host T) (cfg : Settings) where
  run_tasks-listens :
      (server : Server) → is_open listener false (run_tasks h cfg server).events ≡ true
  unfolding run_tasks
  run_tasks-listens server = rw (is_open-append listener) refl

  make_channel-listens :
      (limit : ℕ) (z : ℤ) (next : Run (List Error)) (v : Bool)
      → is_open listener false next.events ≡ v
      → is_open listener false (make_channel limit z >>= λ n. next).events ≡ (is_size limit z && v)
  make_channel-listens limit (pos n) next v e = elim (Bool-cases (leb n limit)) [
    | inl fits ↦ rw fits e
    | inr large ↦ rw large refl
  ]
  make_channel-listens limit (negsuc n) next v e = refl

  build_engine-listens :
      (views : Option (T × List T)) (mux : Option (Result Mux)) (next : Mux → Run (List Error))
      → ((m : Mux) → is_open listener false (next m).events ≡ true)
      → is_open listener false (build_engine h views mux >>= next).events
        ≡ (is_given views && is_built mux)
  build_engine-listens none mux next q = refl
  build_engine-listens (some v) none next q = refl
  build_engine-listens (some v) (some (ok m)) next q = q m
  build_engine-listens (some v) (some (err e)) next q = refl

  -- The notifications of a form can be created.
  abbrev pub is_made : Form → Bool
  is_made form =
      all (λ w. is_given (Webhooks.create h.externals w)) form.webhooks
      && all (λ d. is_given (Broker.create h.externals d)) form.amqp

  -- What `run` needs behind the storage, for some forms.
  abbrev pub is_startable : List Form → Bool
  is_startable forms =
      is_size h.webhooks_limit cfg.webhooks_buffer
      && (is_size h.broker_limit cfg.amqp.buffer
          && (is_given (parse_views h.views)
              && (distinct (map (λ f. f.name) forms)
                  && (takes_all h.takes [] (paths forms) && all is_made forms))))

  can_mount-is_made :
      (all_forms : List Form) (store : Store) (fs : List Form)
      → all
          (λ f. is_given (
            mounted_of
              (engine_config h.service cfg all_forms store
                (Webhooks.create h.externals)
                (Broker.create h.externals))
              (with_xsrf (not cfg.http.disable_xsrf) ∷ [])
              f))
          fs
        ≡ all is_made fs
  unfolding engine_config form_config apply_options with_xsrf
  can_mount-is_made all_forms store [] = refl
  can_mount-is_made all_forms store (f ∷ fs) = rw (can_mount-is_made all_forms store fs) (
      ap (λ b. b && all is_made fs)
        (mounted_of-is_given
          (engine_config h.service cfg all_forms store (Webhooks.create h.externals)
            (Broker.create h.externals))
          (with_xsrf (not cfg.http.disable_xsrf) ∷ []) f refl refl))

  run_stored-listens :
      (login : Option Login) (forms : List Form) (store : Store)
      → is_open listener false (run_stored h cfg login forms store).events ≡ is_startable forms
  unfolding run_stored engine_for engine_config
  run_stored-listens login forms store =
      make_channel-listens h.webhooks_limit cfg.webhooks_buffer _ _ (
        make_channel-listens h.broker_limit cfg.amqp.buffer _ _ (
          build_engine-listens (parse_views h.views) _ _
            (λ m. run_tasks-listens (server_of cfg (new_router cfg login m)))
          ∙ ap (λ b. is_given (parse_views h.views) && b)
              (new_mux-is_built h.takes
                  (engine_config h.service cfg forms store (Webhooks.create h.externals)
                    (Broker.create h.externals))
                  (with_xsrf (not cfg.http.disable_xsrf) ∷ [])
                ∙ ap
                    (λ b.
                      distinct (map (λ f. f.name) forms)
                      && (takes_all h.takes [] (paths forms) && b))
                    (can_mount-is_made forms store forms))))

  use_storage-listens :
      (next : Store → Run (List Error)) (es : List Event)
      (ended : Ended (Closable Store × Option Error)) (v : Bool)
      → is_open listener false es ≡ false
      → ((s : Store) → is_open listener false (next s).events ≡ v)
      → is_open listener false (continue es (wrap_ended ended) (use_storage h next)).events
        ≡ (has_no_error ended && v)
  use_storage-listens next es (finished (s, none)) v silent q =
      rw (is_open-append listener, silent, is_open-append listener) (q s.store)
  use_storage-listens next es (finished (s, some e)) v silent q = rw append-nil silent
  use_storage-listens next es (failed e) v silent q = silent
  use_storage-listens next es panicked v silent q = silent

  -- What `run` needs behind the login.
  abbrev pub is_readable : Result (List Form) → Bool
  is_readable (err e) = false
  is_readable (ok forms) = has_no_error (created h cfg).ended && is_startable forms

  run_logged-listens :
      (login : Option Login)
      → is_open listener false (run_logged h cfg login).events ≡ is_readable (read_forms h cfg)
  unfolding run_logged
  run_logged-listens login = elim (Result-cases (read_forms h cfg)) [
    | inl (forms, e) ↦ rw e (
        use_storage-listens (run_stored h cfg login forms) (created h cfg).events
          (created h cfg).ended _
          ((create_storage-IsQuiet h cfg listener (λ b. refl) (λ dir b. refl)).quiet false)
          (run_stored-listens login forms))
    | inr (x, e) ↦ rw e refl
  ]

  login_for-listens :
      (place : SessionStore)
      → is_open listener false (login_for h cfg place >>= λ l. run_logged h cfg (some l)).events
        ≡ (is_done (create_auth h.new_oidc cfg place) && is_readable (read_forms h cfg))
  unfolding login_for
  login_for-listens place = elim (Result-cases (create_auth h.new_oidc cfg place)) [
    | inl (secure, e) ↦ rw e (run_logged-listens _)
    | inr (x, e) ↦ rw e refl
  ]

  -- Run starts the server exactly when the login provider can be made (if OIDC is on), the
  -- definitions of the forms can be read, the storage is opened and migrated without an error, the
  -- buffers of both queues have sizes that can be allocated, the views can be parsed, no two forms
  -- have the same name, chi takes the path of every form beside those before it, and the
  -- notifications of every form can be made.
  pub run-listens :
      is_open listener false (run h cfg).events
      ≡ (is_logged h cfg && is_readable (read_forms h cfg))
  unfolding run
  run-listens = elim (Bool-cases cfg.oidc.enable) [
    | inr off ↦ rw off (run_logged-listens none)
    | inl on ↦ elim (Bool-cases (is_empty cfg.oidc.redis_url)) [
      | inl memory ↦ rw (on, memory) (login_for-listens in_memory)
      | inr redis ↦
          rw (on, redis, is_open-append listener) (login_for-listens (in_redis cfg.oidc.redis_url))
    ]
  ]
