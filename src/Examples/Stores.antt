-- ===== src/Examples/Stores.antt =====
-- The stores of submissions, at concrete values.
use web_form.Prelude.{Text, Text-comparable, [], List, none, ok, codes, ◌≡◌, ◌≢◌, refl, map}
use web_form.Prelude.Dict.{lookup, keys}
use web_form.Schema.Types.{Value, text}
use web_form.Storage.Queries.{pg_query, lite_query, lite_value}
use web_form.Storage.Queries.Laws.{statement, dollars, pg_query_lem, lite_query_lem}
use web_form.Storage.Files.{Faults, System, atomic_write}
use web_form.Storage.Files.Atomic.{Settled, atomic_write-Settled}
use web_form.Examples.{stored_values}

abbrev columns : List Text
columns = keys stored_values

pg_query_lem_example : pg_query (codes "answers") columns stored_values ≡ record {
  sql = statement (codes "answers") columns (dollars 0 columns);
  params = map (λ k. lookup k stored_values) columns;
}
pg_query_lem_example = pg_query_lem (codes "answers") columns stored_values

-- How a value is printed.
abbrev print : Value → Text
print (text t) = t
print _ = codes "0"

lite_query_lem_example : lite_query print (codes "answers") columns stored_values ≡ record {
  sql = statement (codes "answers") columns (map (λ k. codes "?") columns);
  params = map (λ k. lite_value print (lookup k stored_values)) columns;
}
lite_query_lem_example = lite_query_lem print (codes "answers") columns stored_values

abbrev no_faults : Faults
no_faults = record {
  create_temp = ok (codes "r/1.json.tmp.7");
  write = none;
  close = none;
  rename = none;
  remove = none;
}

abbrev target : Text
target = codes "r/1.json"

pub target_apart : target ≢ codes "r/1.json.tmp.7"
target_apart e = cc e

atomic_write-Settled_example :
    Settled [] target
      (codes "{}")
      none
      (codes "r/1.json.tmp.7")
      (atomic_write no_faults target (codes "{}") [])
atomic_write-Settled_example =
    atomic_write-Settled [] target (codes "{}") no_faults (codes "r/1.json.tmp.7") refl target_apart

abbrev pub system : System
system = record {
  new_id = ok (codes "1");
  join = λ parts. codes "r/1.json";
  make_dirs = λ dir. none;
  marshal = λ values. ok (codes "{}");
  faults = no_faults;
}
