-- ===== src/Program/Running/Exit.antt =====
-- When `main` ends with the exit code 0.
use mathlib.Core.List.{Memᴰ}
use mathlib.Core.List.Memᴰ
use mathlib.Core.Path.{subst}
use web_form.Prelude.{
  ◌↔◌, [], ◌∷◌, not, List, Option, none, some, Error, Result, ok, err, ◌≡◌, refl, sym, ap, ◌∙◌,
  if_elim, is_empty, arith,
}
use web_form.Schema.Types.{Form}
use web_form.Engine.Config.{Store}
use web_form.Storage.Files.{Closable}
use web_form.Program.Settings.{Settings}
use web_form.Program.Startup.{create_storage}
use web_form.Program.Login.{SessionStore, in_memory}
use web_form.Program.Router.{Server, Login, new_router}
use web_form.Program.Runs.{
  Run, Event, attempt, Ended, finished, failed, panicked, continue, after, deferring, started,
  listen, opened_sessions, closed_sessions, closed_storage, ◌>>=◌,
}
use web_form.Program.Running.Servers.{every_server}
use web_form.Program.Running.Settled.{errors_of, run-Settles}
use web_form.Program.Running.{
  Host, server_of, start_workers, workers_of, gather, login_for, serve_task, run_tasks, run_stored,
  run_logged, run, main, use_storage, make_channel, engine_for, read_forms, in_creation, exit_code,
}

module _ {ℓ} {T : Type ℓ} (h : Host T) (cfg : Settings) where
  -- A run that returns by itself has started a server, whose errors it returns.
  record EndsServed (x : Run (List Error)) : Type 0 where
    served :
        (es : List Error)
        → x.ended ≡ finished es
        → (s : Server) × Memᴰ (started (listen s)) x.events × (es ≡ errors_of h cfg s)

  continue-EndsServed {κ} :
      {A : Type κ} (events : List Event) (ended : Ended A) (next : A → Run (List Error))
      → ((a : A) → EndsServed (next a))
      → EndsServed (continue events ended next)
  continue-EndsServed events (finished a) next q = record {
    served = λ es e. let (s, m, same) = (q a).served es e in (s, Memᴰ.append_right events m, same);
  }
  continue-EndsServed events (failed x) next q = record { served = λ es e. cc }
  continue-EndsServed events panicked next q = record { served = λ es e. cc }

  bind-EndsServed {κ} :
      {A : Type κ} (x : Run A) (next : A → Run (List Error))
      → ((a : A) → EndsServed (next a))
      → EndsServed (x >>= next)
  bind-EndsServed x next q = continue-EndsServed x.events x.ended next q

  deferring-EndsServed :
      (event : Event) (x : Run (List Error)) → EndsServed x → EndsServed (deferring event x)
  deferring-EndsServed event x q = record {
    served = λ es e. let (s, m, same) = q.served es e in (s, Memᴰ.append_left (event ∷ []) m, same);
  }

  finished-injective : {a b : List Error} → finished a ≡ finished b → a ≡ b
  finished-injective e = cc

  run_tasks-EndsServed : (s : Server) → EndsServed (run_tasks h cfg s)
  unfolding run_tasks
  run_tasks-EndsServed s = record {
    served = λ es e. (
      s,
      Memᴰ.tail (Memᴰ.append_right (start_workers (workers_of cfg.amqp.workers)) (Memᴰ.head refl)),
      finished-injective (sym e),
    );
  }

  run_stored-EndsServed :
      (login : Option Login) (forms : List Form) (store : Store)
      → EndsServed (run_stored h cfg login forms store)
  unfolding run_stored
  run_stored-EndsServed login forms store =
      bind-EndsServed (make_channel h.webhooks_limit cfg.webhooks_buffer) _ λ webhooks.
        bind-EndsServed (make_channel h.broker_limit cfg.amqp.buffer) _ λ broker.
          bind-EndsServed (engine_for h cfg forms store) _
            λ mux. run_tasks-EndsServed (server_of cfg (new_router cfg login mux))

  use_storage-EndsServed :
      (next : Store → Run (List Error)) (out : Closable Store × Option Error)
      → ((s : Store) → EndsServed (next s))
      → EndsServed (use_storage h next out)
  use_storage-EndsServed next (s, none) q = deferring-EndsServed closed_storage _ (q s.store)
  use_storage-EndsServed next (s, some e) q = record { served = λ es e'. cc }

  run_logged-EndsServed : (login : Option Login) → EndsServed (run_logged h cfg login)
  unfolding run_logged
  run_logged-EndsServed login = bind-EndsServed (attempt (read_forms h cfg)) _ λ forms.
      bind-EndsServed (in_creation h (create_storage h.backends cfg)) _ λ out.
        use_storage-EndsServed (run_stored h cfg login forms) out
          (run_stored-EndsServed login forms)

  after-EndsServed :
      (event : Event) (x : Run (List Error)) → EndsServed x → EndsServed (after event x)
  after-EndsServed event x q = record {
    served = λ es e. let (s, m, same) = q.served es e in (s, Memᴰ.tail m, same);
  }

  login-EndsServed :
      (place : SessionStore) → EndsServed (login_for h cfg place >>= λ l. run_logged h cfg (some l))
  login-EndsServed place =
      bind-EndsServed (login_for h cfg place) _ λ l. run_logged-EndsServed (some l)

  run-EndsServed : EndsServed (run h cfg)
  unfolding run
  run-EndsServed =
      if_elim EndsServed (not cfg.oidc.enable) _ _ (λ _. run_logged-EndsServed none)
        λ _.
          if_elim EndsServed (is_empty cfg.oidc.redis_url) _ _ (λ _. login-EndsServed in_memory)
            λ _.
              deferring-EndsServed closed_sessions _
                (after-EndsServed (opened_sessions cfg.oidc.redis_url) _ (login-EndsServed _))

ok-injective : {a b : Settings} → ok a ≡ ok b → a ≡ b
ok-injective e = cc

gather-eq-nil : (a b : Option Error) → gather (a ∷ b ∷ []) ≡ [] → (a ≡ none) × (b ≡ none)
gather-eq-nil none none e = (refl, refl)
gather-eq-nil none (some y) e = cc
gather-eq-nil (some x) b e = cc

exit_code-zero : (r : Ended (List Error)) → exit_code r ≡ some 0 → r ≡ finished []
exit_code-zero (finished []) e = refl
exit_code-zero (finished (x ∷ xs)) e = ground (arith, e)
exit_code-zero (failed x) e = ground (arith, e)
exit_code-zero panicked e = cc

-- Main ends with the exit code 0 exactly when the arguments were parsed, a server was started, its
-- task returned no error but that of a closed server, and closing it returned none.
pub main_iff {ℓ} :
    {T : Type ℓ} (h : Host T) (parsed : Result Settings)
    → (main h parsed ≡ some 0) ↔ (
        (cfg : Settings) × (parsed ≡ ok cfg)
        × ((s : Server) × Memᴰ (started (listen s)) (run h cfg).events
            × (serve_task h cfg s ≡ none)
            × (h.close_server ≡ none)))
unfolding main
main_iff h (err e) = (λ exited. ground (arith, exited), λ (cfg, parsed, rest). cc)
main_iff h (ok cfg) = (
  λ exited.
      let (s, m, same) =
        (run-EndsServed h cfg).served [] (exit_code-zero (run h cfg).ended exited) in
      let (fine, closed) = gather-eq-nil (serve_task h cfg s) h.close_server (sym same) in
      (cfg, refl, (s, m, fine, closed)),
  λ (cfg', parsed, (s, m, fine, closed)).
      subst (λ c. exit_code (run h c).ended ≡ some 0) (sym (ok-injective parsed))
        (ap exit_code (every_server (run h cfg').events s _ (run-Settles h cfg').every m)
          ∙ rw (fine, closed) refl),
)
