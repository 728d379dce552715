-- ===== src/Program/Startup.antt =====
-- cmd/web-form/main.go: the storage, the migrations and the forms of the program.
pub mod Checks
use web_form.Prelude.{
  Text, Text-comparable, [], ◌∷◌, ◌&&◌, ◌||◌, if◌then◌else◌, not, Bool, true, false, List, Option,
  none, some, Error, errorf, wrapped, codes, ◌==◌, is_empty,
}
use web_form.Prelude.Dict.{Dict}
use web_form.Golang.Paths.{ext}
use web_form.Schema.Types.{Form, Webhook, Amqp, Stored}
use web_form.Web.Requests.{Captcha}
use web_form.Engine.Config.{Store}
use web_form.Engine.Server.{Config}
use web_form.Storage.Databases.{Drivers, Database, new_db}
use web_form.Storage.Files.{System, Files, Closable, file_store, dump_store, nop_closer}
use web_form.Program.Turnstile.{Widget, Service, turnstile}
use web_form.Program.Settings.{Settings}
use web_form.Program.Runs.{
  Run, return, fail, panic, attempt, after, ◌>>=◌, opened_storage, migrated,
}

-- A call of the function that `shouldMigrate` hands to `WalkDir`; there is no entry if the root
-- cannot be read.
pub record Walked : Type 0 where
  pub path : Text
  pub is_dir : Option Bool
  pub error : Option Error

abbrev is_failure : Option Error → Bool
is_failure none = false
is_failure (some e) = true

-- The walk, with the variable `migrate`; `none` is a panic.
unfoldable pub migrate_loop : Bool → List Walked → Option (Bool × Option Error)
migrate_loop migrate [] = some (migrate, none)
migrate_loop migrate (e ∷ es) = elim e.is_dir [
  | none ↦ none
  | some is_dir ↦ elim (is_dir || is_failure e.error) [
    | true ↦ elim e.error [ some x ↦ some (migrate, some x) | none ↦ migrate_loop migrate es ]
    | false ↦ elim (ext e.path == codes ".sql") [
      | true ↦ some (true, none)
      | false ↦ migrate_loop migrate es
    ]
  ]
]

unfoldable pub should_migrate : Settings → List Walked → Option Bool
unfolding migrate_loop
should_migrate cfg walk =
    if not cfg.db.migrate then some false else elim (migrate_loop false walk) [
      | none ↦ none
      | some (migrate, e) ↦ some (migrate && not (is_failure e))
    ]

-- What the program uses of its surroundings to store submissions: the drivers of databases, the file
-- system in its present state, and the encoder of `Dump`.
pub record Backends : Type 0 where
  pub drivers : Drivers
  pub files : System
  pub disk : Files
  pub encode : Text → Dict Stored → Option Error
  pub walk : Text → List Walked

module _ (b : Backends) where
  -- `storage.NewFileStore`, on the file system as it is.
  unfoldable pub new_file_store : Text → Store
  new_file_store path table fields =
      let (result, run) = file_store b.files path table (b.drivers.order fields) fields b.disk in
      (result, run.error)

  -- `db`, behind the migration if there is to be one; the storage stands beside the error of the
  -- migration.
  abbrev pub migrate_db : Settings → Database → Option Bool → Run (Closable Store × Option Error)
  migrate_db cfg db none = panic
  migrate_db cfg db (some false) = return (record { store = db.store; close = db.close }, none)
  migrate_db cfg db (some true) =
      after (migrated cfg.db.migrations)
        (return (record { store = db.store; close = db.close }, db.migrate cfg.db.migrations))

  unfoldable pub prepare_db : Settings → Database → Run (Closable Store × Option Error)
  unfolding should_migrate
  prepare_db cfg db =
      after opened_storage (migrate_db cfg db (should_migrate cfg (b.walk cfg.db.migrations)))

  -- `createStorage`: a storage beside an error, or only an error.
  unfoldable pub create_storage : Settings → Run (Closable Store × Option Error)
  unfolding prepare_db new_file_store
  create_storage cfg =
      if cfg.storage == codes "files"
      then after opened_storage (return (nop_closer (new_file_store cfg.files_path), none))
      else if cfg.storage == codes "database"
      then attempt
          (wrapped (codes "create storag: %w") [] (new_db b.drivers cfg.db.dialect cfg.db.url))
        >>= prepare_db cfg
      else if cfg.storage == codes "dump"
      then after opened_storage (return (nop_closer (dump_store b.encode), none))
      else fail (errorf (codes "unknown storage type %q") (cfg.storage ∷ []))

-- `captcha`
unfoldable pub captchas : Service → Settings → List Captcha
captchas s cfg =
    if not (is_empty cfg.turnstile.site_key) then turnstile s cfg.turnstile ∷ [] else []

-- The configuration of the engine in `run`, once it has the forms and the storage.
unfoldable pub engine_config :
    Service
    → Settings
    → List Form
    → Store
    → (Webhook → Option Webhook)
    → (Amqp → Option Amqp)
    → Config
unfolding captchas
engine_config s cfg forms store webhooks broker = record {
  forms = forms;
  storage = store;
  webhooks_factory = some webhooks;
  amqp_factory = some broker;
  listing = not cfg.disable_listing;
  captcha = captchas s cfg;
}
