-- ===== src/Program/Running/Served.antt =====
-- What the server that `run` starts stores.
use mathlib.Core.List.{Memᴰ}
use mathlib.Core.Path.{subst}
use web_form.Prelude.{
  [], ◌∷◌, not, true, false, List, Option, none, some, Result, ok, err, ◌≡◌, ◌≢◌, refl, sym,
  Text-comparable, All, Result-cases, inl, inr,
}
use web_form.Schema.Types.{Form}
use web_form.Web.Requests.{HttpRequest, with_credentials}
use web_form.Engine.Config.{Platform, Store, with_xsrf}
use web_form.Engine.Server.{Mux, Mounted, new_mux}
use web_form.Engine.Server.Views.{parse_views}
use web_form.Notifications.Webhooks as Webhooks
use web_form.Notifications.Broker as Broker
use web_form.Program.Users.{Token, credentials_from_request}
use web_form.Program.Settings.{Settings}
use web_form.Program.Startup.{create_storage, engine_config}
use web_form.Program.Login.{SessionStore, create_auth}
use web_form.Program.Router.{Server, Routing, Login, handle, new_router, form_page, stored_by}
use web_form.Program.Router.Passage.{IsLetIn}
use web_form.Program.Router.Safety.{Passed, program_stores}
use web_form.Program.Runs.{
  Event, attempt, finished, started, listen, closed_storage, closed_sessions, deliver_webhooks,
  publish_messages, close_at_end, opened_sessions, opened_storage, migrated, ◌>>=◌,
}
use web_form.Program.Running.{
  Host, server_of, build_engine, login_for, engine_for, run_stored, read_forms, run_logged, run,
  wrap_ended,
}
use web_form.Program.Running.Servers.{
  IsOf, AllServers, bind-AllServers, attempt-AllServers, make_channel-AllServers,
  create_storage-AllServers, run_tasks-AllServers, build_engine-AllServers, use_storage-AllServers,
  run-AllServers, every_server,
}

module _ {ℓ} {T : Type ℓ} (h : Host T) (cfg : Settings) where
  build_engine-finished :
      (views : Option (T × List T)) (r : Option (Result Mux)) {mux : Mux}
      → (build_engine h views r).ended ≡ finished mux
      → r ≡ some (ok mux)
  build_engine-finished none r e = cc
  build_engine-finished (some v) none e = cc
  build_engine-finished (some v) (some (ok m)) e = cc
  build_engine-finished (some v) (some (err x)) e = cc

  -- A server for a login, with the engine of the forms that were read.
  IsServerOf : Option Login → Server → Type 0
  IsServerOf login s =
      (forms : List Form) × (read_forms h cfg ≡ ok forms)
      × ((store : Store) × ((mux : Mux) × (new_mux h.takes
                (engine_config h.service cfg forms store (Webhooks.create h.externals)
                  (Broker.create h.externals))
                (with_xsrf (not cfg.http.disable_xsrf) ∷ [])
              ≡ some (ok mux))
            × (s ≡ server_of cfg (new_router cfg login mux))))

  run_stored-AllServers :
      (login : Option Login) (forms : List Form) (store : Store)
      → read_forms h cfg ≡ ok forms
      → AllServers (IsServerOf login) (run_stored h cfg login forms store)
  unfolding run_stored engine_for IsServerOf
  run_stored-AllServers login forms store read =
      bind-AllServers (IsServerOf login) _ _ _ (make_channel-AllServers _ _ cfg.webhooks_buffer)
        λ webhooks _.
          bind-AllServers (IsServerOf login) _ _ _ (make_channel-AllServers _ _ cfg.amqp.buffer)
            λ broker _.
              bind-AllServers (IsServerOf login) _ _ _
                (build_engine-AllServers h cfg _ (parse_views h.views) _)
                λ mux built.
                  run_tasks-AllServers h cfg (IsServerOf login)
                    (server_of cfg (new_router cfg login mux))
                    (
                      forms,
                      read,
                      (store, (mux, build_engine-finished (parse_views h.views) _ built, refl)),
                    )

  attempt-finished {κ} :
      {A : Type κ} (r : Result A) {a : A} → (attempt r).ended ≡ finished a → r ≡ ok a
  attempt-finished (ok b) e = cc
  attempt-finished (err x) e = cc

  run_logged-AllServers :
      (login : Option Login) → AllServers (IsServerOf login) (run_logged h cfg login)
  unfolding run_logged
  run_logged-AllServers login =
      bind-AllServers (IsServerOf login) _ _ _ (attempt-AllServers _ (read_forms h cfg)) λ forms e.
        let read = attempt-finished (read_forms h cfg) e in
        bind-AllServers (IsServerOf login) (create_storage h.backends cfg).events
          (wrap_ended (create_storage h.backends cfg).ended) _
          (record { every = (create_storage-AllServers h.backends cfg (IsServerOf login)).every })
          λ out _.
            use_storage-AllServers h cfg (IsServerOf login) (run_stored h cfg login forms) out
              λ store. run_stored-AllServers login forms store read

  -- The login that `run` makes.
  abbrev pub IsLoginOf : Option Login → Type 0
  IsLoginOf none = cfg.oidc.enable ≡ false
  IsLoginOf (some l) =
      (cfg.oidc.enable ≡ true) × (create_auth h.new_oidc cfg l.sessions ≡ ok l.secure)

  IsServer : Server → Type 0
  IsServer s = (login : Option Login) × IsLoginOf login × IsServerOf login s

  servers-IsServer :
      (login : Option Login)
      → IsLoginOf login
      → (es : List Event) → All (IsOf (IsServerOf login)) es
      → All (IsOf IsServer) es
  unfolding IsServer
  servers-IsServer login l [] q = tt
  servers-IsServer login l (started (listen s) ∷ es) (q, qs) =
      ((login, l, q), servers-IsServer login l es qs)
  servers-IsServer login l (started deliver_webhooks ∷ es) (q, qs) =
      (tt, servers-IsServer login l es qs)
  servers-IsServer login l (started publish_messages ∷ es) (q, qs) =
      (tt, servers-IsServer login l es qs)
  servers-IsServer login l (started close_at_end ∷ es) (q, qs) =
      (tt, servers-IsServer login l es qs)
  servers-IsServer login l (opened_sessions url ∷ es) (q, qs) = (tt, servers-IsServer login l es qs)
  servers-IsServer login l (closed_sessions ∷ es) (q, qs) = (tt, servers-IsServer login l es qs)
  servers-IsServer login l (opened_storage ∷ es) (q, qs) = (tt, servers-IsServer login l es qs)
  servers-IsServer login l (migrated dir ∷ es) (q, qs) = (tt, servers-IsServer login l es qs)
  servers-IsServer login l (closed_storage ∷ es) (q, qs) = (tt, servers-IsServer login l es qs)

  logged-AllServers :
      (login : Option Login) → IsLoginOf login → AllServers IsServer (run_logged h cfg login)
  logged-AllServers login l = record {
    every =
        servers-IsServer login l (run_logged h cfg login).events
          (run_logged-AllServers login).every;
  }

  login_for-AllServers :
      (place : SessionStore)
      → cfg.oidc.enable ≡ true
      → AllServers IsServer (login_for h cfg place >>= λ l. run_logged h cfg (some l))
  unfolding login_for
  login_for-AllServers place on = elim (Result-cases (create_auth h.new_oidc cfg place)) [
    | inl (secure, e) ↦ rw e (
        logged-AllServers
          (some (record {
            prefix = h.login_prefix;
            sessions = place;
            loads = h.loads place;
            secure = secure;
          }))
          (on, e))
    | inr (x, e) ↦ rw e (record { every = tt })
  ]

  -- Whatever a server that run starts stores for a request: the forms were read, the login is the
  -- one of the settings, the request was let in by it (with the token that the provider gives it,
  -- if OIDC is on), and it passed for one of the forms that were read the policy on the user, the
  -- email and the groups of that token, the XSRF check unless that is disabled, the captchas that
  -- are configured and the access code, and was no GET; what is stored is one row for the table of
  -- the form, with values that conform to its definition for the body and the user of the request.
  -- The router finds only handlers of forms that are mounted.
  pub run_stores :
      (p : Platform) (routing : Routing) (server : Server) (http : HttpRequest)
      → Memᴰ (started (listen server)) (run h cfg).events
      → ((m : Mounted) (q : HttpRequest)
          → routing.find_handler server.handler.forms q ≡ some (form_page m)
          → Memᴰ m server.handler.forms.mounted)
      → stored_by (handle p routing server.handler http).1 ≢ []
      → (forms : List Form) × (read_forms h cfg ≡ ok forms)
        × ((login : Option Login) × IsLoginOf login
            × ((token : Option Token) × IsLetIn login http token
                × ((form : Form) × Memᴰ form forms
                    × Passed p h.service cfg form
                        (with_credentials (credentials_from_request token) http)
                        (stored_by (handle p routing server.handler http).1))))
  unfolding IsServer IsServerOf new_router
  run_stores p routing server http begun found stored =
      let (login, l, (forms, read, (store, (mux, built, e)))) =
        every_server (run h cfg).events server IsServer
          (run-AllServers h cfg IsServer (logged-AllServers none) login_for-AllServers).every
          begun in
      let (token, let_in, (form, member, passed)) =
        program_stores p routing h.service cfg forms store (Webhooks.create h.externals)
          (Broker.create h.externals) h.takes login http built
          (λ m q.
            subst
              (λ s.
                routing.find_handler s.handler.forms q ≡ some (form_page m)
                → Memᴰ m s.handler.forms.mounted)
              e (found m q))
          (subst (λ s. stored_by (handle p routing s.handler http).1 ≢ []) e stored) in
      (
        forms,
        read,
        (
          login,
          l,
          (
            token,
            let_in,
            (
              form,
              member,
              subst
                  (λ s.
                    Passed p h.service cfg form
                      (with_credentials (credentials_from_request token) http)
                      (stored_by (handle p routing s.handler http).1))
                  (sym e) passed,
            ),
          ),
        ),
      )
