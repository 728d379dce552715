-- ===== src/Storage/Queries.antt =====
-- internal/storage/db.go: the statements that the two database stores make of a submission, and what
-- they make of the reply. The keys are those of the map of fields, in the order that Go gives.
pub mod Laws
use web_form.Prelude.{
  Text, Text-comparable, [], ◌∷◌, ◌++◌, if◌then◌else◌, Bool, true, false, List, Option, none, some,
  Error, Result, ok, err, new, wrap, wrapped, codes, elem, ℕ, zero, suc, ◌>>=◌,
}
use web_form.Prelude.Dict.{Dict, lookup, insert}
use web_form.Golang.Strconv.{itoa}
use web_form.Utils.Quote.{quote_builder}
use web_form.Schema.Types.{Value, Stored, one, many, text}

-- `if i > 0 { out.WriteString(sep) }`
abbrev pub separate : Text → ℕ → Text → Text
separate sep zero out = out
separate sep (suc i) out = out ++ sep

abbrev pub comma : ℕ → Text → Text
comma i query = separate (codes ", ") i query

-- The loop that escapes the columns.
unfoldable pub columns_loop : Text → ℕ → List Text → Text
columns_loop query i [] = query
columns_loop query i (name ∷ names) =
    columns_loop (quote_builder (comma i query) name b'"') (suc i) names

-- The statement up to its parameters, which both stores write alike.
unfoldable pub insert_into : Text → List Text → Text
unfolding columns_loop
insert_into table keys =
    columns_loop (quote_builder (codes "INSERT INTO ") table b'"' ++ codes " (") 0 keys
    ++ codes ") VALUES ("

-- A statement and its parameters; `none` is nil.
pub record Query : Type 0 where
  pub sql : Text
  pub params : List (Option Stored)

-- The loop of `(s *pgStore) Store` over the parameters.
unfoldable pub pg_loop : Dict Stored → Query → ℕ → List Text → Query
pg_loop fields q i [] = q
pg_loop fields q i (k ∷ ks) =
    pg_loop fields
      (record {
        sql = (comma i q.sql ++ b'$' ∷ []) ++ itoa (suc i);
        params = q.params ++ lookup k fields ∷ [];
      })
      (suc i) ks

unfoldable pub pg_query : Text → List Text → Dict Stored → Query
unfolding insert_into pg_loop
pg_query table keys fields =
    let q = pg_loop fields (record { sql = insert_into table keys; params = [] }) 0 keys in
    record q { sql = q.sql ++ codes ") RETURNING *" }

module _ (sprint : Value → Text) where
  -- The loop of `joinIterable`.
  unfoldable pub join_loop : Text → Text → ℕ → List Value → Text
  join_loop sep out i [] = out
  join_loop sep out i (v ∷ vs) = join_loop sep (separate sep i out ++ sprint v) (suc i) vs

  unfoldable pub join_iterable : List Value → Text → Text
  unfolding join_loop
  join_iterable vs sep = join_loop sep [] 0 vs

  -- `isArray`, and what is done to an array.
  unfoldable pub lite_param : Stored → Stored
  unfolding join_iterable
  lite_param (one v) = one v
  lite_param (many vs) = one (text (join_iterable vs (codes ",")))

  abbrev pub lite_value : Option Stored → Option Stored
  lite_value none = none
  lite_value (some v) = some (lite_param v)

  -- The loop of `(s *liteStore) Store` over the parameters.
  unfoldable pub lite_loop : Dict Stored → Query → ℕ → List Text → Query
  unfolding lite_param
  lite_loop fields q i [] = q
  lite_loop fields q i (k ∷ ks) =
      lite_loop fields
        (record {
          sql = comma i q.sql ++ b'?' ∷ [];
          params = q.params ++ lite_value (lookup k fields) ∷ [];
        })
        (suc i) ks

  unfoldable pub lite_query : Text → List Text → Dict Stored → Query
  unfolding insert_into lite_loop
  lite_query table keys fields =
      let q = lite_loop fields (record { sql = insert_into table keys; params = [] }) 0 keys in
      record q { sql = q.sql ++ codes ") RETURNING *" }

-- What a database answers: no rows at all, an error, or the first row by its columns. `Rows.Err` may
-- be nil when there is no row.
pub data Reply : Type 0 where
  refused : Error → Reply
  no_row : Option Error → Reply
  bad_row : Error → Reply
  row : List (Text × Stored) → Reply

-- The loop over the descriptions of the columns.
unfoldable pub row_loop : Dict Stored → List (Text × Stored) → Dict Stored
row_loop result [] = result
row_loop result ((name, v) ∷ columns) = row_loop (insert name v result) columns

abbrev nil_error : Error
nil_error = new (codes "%!w(<nil>)")

abbrev or_nil : Option Error → Error
or_nil none = nil_error
or_nil (some e) = e

-- What `(s *pgStore) Store` makes of the reply.
unfoldable pub pg_result : Reply → Dict Stored × Option Error
unfolding row_loop
pg_result (refused e) = ([], some (wrap (codes "execute query: %w") [] e))
pg_result (no_row e) = ([], some (wrap (codes "get row: %w") [] (or_nil e)))
pg_result (bad_row e) = ([], some (wrap (codes "get row values: %w") [] e))
pg_result (row columns) = (row_loop [] columns, none)

unfoldable pub pg_store :
    (Query → Reply) → Text → List Text → Dict Stored → Dict Stored × Option Error
unfolding pg_query pg_result
pg_store run table keys fields = pg_result (run (pg_query table keys fields))

-- `(s *liteStore) Store`; `MapScan` reads the row, or gives any of the errors.
unfoldable pub lite_store :
    (Value → Text)
    → (Query → Result (List (Text × Stored)))
    → Text
    → List Text
    → Dict Stored
    → Dict Stored × Option Error
unfolding lite_query row_loop
lite_store sprint run table keys fields = elim (run (lite_query sprint table keys fields)) [
  | err e ↦ ([], some (wrap (codes "execute query: %w") [] e))
  | ok columns ↦ (row_loop [] columns, none)
]
