-- ===== src/Program/Running/Closing.antt =====
-- What a run of the program has closed when it returns.
use web_form.Prelude.{
  Text, ◌&&◌, ◌||◌, not, if◌then◌else◌, Bool, true, false, List, Option, none, some, Error, Result,
  ok, err, ◌≡◌, refl, arith, append-nil, if_elim, ◌==◌, Text-comparable, codes, Bool-cases,
  Result-cases, inl, inr, is_empty,
}
use web_form.Engine.Config.{Store}
use web_form.Storage.Databases.{Database}
use web_form.Storage.Files.{Closable}
use web_form.Program.Settings.{Settings}
use web_form.Program.Startup.{create_storage, prepare_db}
use web_form.Program.Login.{SessionStore, in_memory, in_redis, create_auth}
use web_form.Program.Router.{Login}
use web_form.Program.Runs.{
  Run, Event, Ended, finished, failed, panicked, continue, opened_storage, migrated, ◌>>=◌,
}
use web_form.Program.Running.{
  Host, login_for, run_stored, read_forms, run_logged, run, use_storage, wrap_ended,
}
use web_form.Program.Running.Events.{
  sessions, storage, is_left_open, is_open, is_open-append, IsQuiet, bind-IsQuiet, attempt-IsQuiet,
  run_stored-IsQuiet, sessions-IsQuiet, storage-IsQuiet, Resource,
}

abbrev pub has_no_error : Ended (Closable Store × Option Error) → Bool
has_no_error (finished (s, none)) = true
has_no_error (finished (s, some e)) = false
has_no_error (failed e) = false
has_no_error panicked = false

abbrev pub is_done {ℓ} : {A : Type ℓ} → Result A → Bool
is_done (ok a) = true
is_done (err e) = false

-- Where `run` has the sessions kept.
abbrev pub sessions_for : Settings → SessionStore
sessions_for cfg = if is_empty cfg.oidc.redis_url then in_memory else in_redis cfg.oidc.redis_url

-- Whether the storage is open and given up: createStorage opened it, and then failed.
abbrev pub is_abandoned : Run (Closable Store × Option Error) → Bool
is_abandoned r = is_open storage false r.events && not (has_no_error r.ended)

module _ {ℓ} {T : Type ℓ} (h : Host T) (cfg : Settings) where
  abbrev pub created : Run (Closable Store × Option Error)
  created = create_storage h.backends cfg

  use_storage-open :
      (next : Store → Run (List Error)) (es : List Event)
      (ended : Ended (Closable Store × Option Error))
      → ((s : Store) → IsQuiet storage (next s))
      → is_open storage false (continue es (wrap_ended ended) (use_storage h next)).events
        ≡ (is_open storage false es && not (has_no_error ended))
  use_storage-open next es (finished (s, none)) q =
      rw (is_open-append storage, is_open-append storage) (ground arith)
  use_storage-open next es (finished (s, some e)) q = rw append-nil (ground arith)
  use_storage-open next es (failed e) q = ground arith
  use_storage-open next es panicked q = ground arith

  run_logged-storage :
      (login : Option Login)
      → is_open storage false (run_logged h cfg login).events
        ≡ (is_done (read_forms h cfg) && is_abandoned created)
  unfolding run_logged
  run_logged-storage login = elim (Result-cases (read_forms h cfg)) [
    | inl (forms, e) ↦ rw e (
        use_storage-open (run_stored h cfg login forms) created.events created.ended
          (λ s. run_stored-IsQuiet h cfg storage login forms s (storage-IsQuiet h cfg)))
    | inr (x, e) ↦ rw e refl
  ]

  module _ (r : Resource) (opens : (b : Bool) → is_left_open r opened_storage b ≡ b)
      (migrates : (dir : Text) (b : Bool) → is_left_open r (migrated dir) b ≡ b) where
    prepare_db-IsQuiet : (db : Database) → IsQuiet r (prepare_db h.backends cfg db)
    unfolding prepare_db
    prepare_db-IsQuiet db = record {
      quiet = λ b. ground (arith, opens b, migrates cfg.db.migrations b);
    }

    pub create_storage-IsQuiet : IsQuiet r created
    unfolding create_storage
    create_storage-IsQuiet =
        if_elim (IsQuiet r) (cfg.storage == codes "files") _ _ (λ _. record { quiet = opens })
          λ _.
            if_elim (IsQuiet r) (cfg.storage == codes "database") _ _
              (λ _. bind-IsQuiet r _ _ _ (attempt-IsQuiet r _) prepare_db-IsQuiet)
              λ _.
                if_elim (IsQuiet r) (cfg.storage == codes "dump") _ _
                  (λ _. record { quiet = opens }) λ _. record { quiet = λ b. refl }

  use_storage-IsQuiet :
      (next : Store → Run (List Error)) (out : Closable Store × Option Error)
      → ((s : Store) → IsQuiet sessions (next s))
      → IsQuiet sessions (use_storage h next out)
  use_storage-IsQuiet next (s, none) q = record {
    quiet = λ b. rw (is_open-append sessions, (q s.store).quiet) refl;
  }
  use_storage-IsQuiet next (s, some e) q = record { quiet = λ b. refl }

  run_logged-IsQuiet : (login : Option Login) → IsQuiet sessions (run_logged h cfg login)
  unfolding run_logged
  run_logged-IsQuiet login =
      bind-IsQuiet sessions _ _ _ (attempt-IsQuiet sessions (read_forms h cfg)) λ forms.
        bind-IsQuiet sessions created.events (wrap_ended created.ended) _
          (record { quiet = (create_storage-IsQuiet sessions (λ b. refl) (λ dir b. refl)).quiet })
          λ out.
            use_storage-IsQuiet (run_stored h cfg login forms) out
              (λ s. run_stored-IsQuiet h cfg sessions login forms s (sessions-IsQuiet h cfg))

  -- The provider of the login is there, if one is asked for.
  abbrev pub is_logged : Bool
  is_logged = not cfg.oidc.enable || is_done (create_auth h.new_oidc cfg (sessions_for cfg))

  login_for-open :
      (place : SessionStore)
      → is_open storage false (login_for h cfg place >>= λ l. run_logged h cfg (some l)).events ≡ (
          is_done (create_auth h.new_oidc cfg place)
          && is_done (read_forms h cfg)
          && is_abandoned created)
  unfolding login_for
  login_for-open place = elim (Result-cases (create_auth h.new_oidc cfg place)) [
    | inl (secure, e) ↦ rw e (run_logged-storage _)
    | inr (x, e) ↦ rw e refl
  ]

  run-storage :
      is_open storage false (run h cfg).events
      ≡ (is_logged && is_done (read_forms h cfg) && is_abandoned created)
  unfolding run
  run-storage = elim (Bool-cases cfg.oidc.enable) [
    | inr off ↦ rw off (run_logged-storage none)
    | inl on ↦ elim (Bool-cases (is_empty cfg.oidc.redis_url)) [
      | inl memory ↦ rw (on, memory) (login_for-open in_memory)
      | inr redis ↦
          rw (on, redis, is_open-append storage) (login_for-open (in_redis cfg.oidc.redis_url))
    ]
  ]

  login_for-IsQuiet :
      (place : SessionStore)
      → IsQuiet sessions (login_for h cfg place >>= λ l. run_logged h cfg (some l))
  unfolding login_for
  login_for-IsQuiet place = elim (Result-cases (create_auth h.new_oidc cfg place)) [
    | inl (secure, e) ↦ rw e (run_logged-IsQuiet _)
    | inr (x, e) ↦ rw e (record { quiet = λ b. refl })
  ]

  run-sessions : is_open sessions false (run h cfg).events ≡ false
  unfolding run
  run-sessions = elim (Bool-cases cfg.oidc.enable) [
    | inr off ↦ rw off ((run_logged-IsQuiet none).quiet false)
    | inl on ↦ elim (Bool-cases (is_empty cfg.oidc.redis_url)) [
      | inl memory ↦ rw (on, memory) ((login_for-IsQuiet in_memory).quiet false)
      | inr redis ↦ rw (on, redis, is_open-append sessions) refl
    ]
  ]

  -- Whatever fails, run has closed the pool of the sessions when it returns; the storage is open
  -- then exactly if the login and the forms were there, and createStorage opened it and failed
  -- behind that.
  pub run-open :
      (is_open sessions false (run h cfg).events ≡ false)
      × (is_open storage false (run h cfg).events
          ≡ (is_logged && is_done (read_forms h cfg) && is_abandoned created))
  run-open = (run-sessions, run-storage)
