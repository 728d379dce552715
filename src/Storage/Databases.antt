-- ===== src/Storage/Databases.antt =====
-- internal/storage/db.go: `NewDB`, and the two databases behind `DBStore`. The drivers and the
-- library of migrations are parameters.
use web_form.Prelude.{
  Text, Text-comparable, [], ◌∷◌, if◌then◌else◌, List, Option, none, Error, Result, ok, err, new,
  wrap, wrapped, codes, elem, ◌>>=◌,
}
use web_form.Prelude.Dict.{Dict}
use web_form.Schema.Types.{Value, Stored}
use web_form.Storage.Queries.{Query, Reply, pg_store, lite_store}

-- `DBStore`, over one database.
pub record Database : Type 0 where
  pub store : Text → Dict Stored → Dict Stored × Option Error
  pub exec : Text → Option Error
  pub migrate : Text → Option Error
  pub close : Option Error

-- `pgxpool.Pool`; `connection` is what its configuration says of the connection.
pub record PgPool : Type 0 where
  pub query : Query → Reply
  pub exec : Text → Option Error
  pub connection : Text

-- `sqlx.DB`
pub record LiteDb : Type 0 where
  pub query : Query → Result (List (Text × Stored))
  pub exec : Text → Option Error
  pub connection : Text
  pub close : Option Error

-- `migrate.ExecContext` with `migrate.Up`, on a connection, for a dialect and a directory; the order
-- in which Go reads a map of fields, and `fmt.Sprint`.
pub record Drivers : Type 0 where
  pub new_pool : Text → Result PgPool
  pub open_db : Text → Result LiteDb
  pub migrate_up : Text → Text → Text → Option Error
  pub order : Dict Stored → List Text
  pub sprint : Value → Text

-- `pgStore`
unfoldable pub pg_database : Drivers → PgPool → Database
pg_database d pool = record {
  store = λ table fields. pg_store pool.query table (d.order fields) fields;
  exec = pool.exec;
  migrate = d.migrate_up pool.connection (codes "postgres");
  close = none;
}

-- `liteStore`
unfoldable pub lite_database : Drivers → LiteDb → Database
lite_database d db = record {
  store = λ table fields. lite_store d.sprint db.query table (d.order fields) fields;
  exec = db.exec;
  migrate = d.migrate_up db.connection (codes "sqlite3");
  close = db.close;
}

abbrev pub err_unsupported_database : Error
err_unsupported_database = new (codes "unsupported database schema")

abbrev pub postgres_names : List Text
postgres_names =
    codes "postgres" ∷ codes "postgresql" ∷ codes "pgx" ∷ codes "pg" ∷ codes "postgress" ∷ []

abbrev pub sqlite_names : List Text
sqlite_names =
    codes "sqlite" ∷ codes "sqlite3" ∷ codes "lite" ∷ codes "file" ∷ codes ":memory:" ∷ [] ∷ []

-- `NewDB`
unfoldable pub new_db : Drivers → Text → Text → Result Database
new_db d dialect url =
    if elem dialect postgres_names
    then wrapped (codes "create pool: %w") [] (d.new_pool url) >>= (λ pool. ok (pg_database d pool))
    else if elem dialect sqlite_names
    then wrapped (codes "open DB: %w") [] (d.open_db url) >>= (λ db. ok (lite_database d db))
    else err (wrap (codes "%q: %w") (dialect ∷ []) err_unsupported_database)
