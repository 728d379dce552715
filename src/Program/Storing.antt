-- ===== src/Program/Storing.antt =====
-- From a served request to the statement of a database, and to the file of its document.
use mathlib.Core.List.{Memᴰ}
use web_form.Prelude.{
  is_given, Text, Text-comparable, [], ◌∷◌, ◌++◌, true, List, Option, none, some, ok, ◌≡◌, ◌≢◌, sym,
  ap, ◌∙◌, arith, map, elem, All, text_eq_refl,
}
use web_form.Prelude.Dict.{Dict, lookup, keys}
use web_form.Schema.Types.{Field, Form, Stored, RequestContext}
use web_form.Schema.Templates.{Externals}
use web_form.Web.Sessions.Return.{elem-keys}
use web_form.Engine.Config.{FormConfig, Platform, Serving, Destination}
use web_form.Engine.Serve.{serve}
use web_form.Engine.Serve.Admission.{serve_dispatches}
use web_form.Engine.Serve.Stored.{Fits, serve_stores-Conforms}
use web_form.Storage.Queries.{pg_query}
use web_form.Storage.Queries.Laws.{statement, dollars, pg_query_lem}
use web_form.Storage.Files.{with_id, file_store}
use web_form.Storage.Files.Documents.{document_path, file_store_lem}
use web_form.Program.Startup.{Backends, new_file_store}

-- The name of a field of a form.
abbrev pub IsColumn : Form → Text → Type 0
IsColumn form c = (f : Field) × Memᴰ f form.fields × (f.name ≡ c)

All-elem {ℓ} :
    (P : Text → Type ℓ) (xs ys : List Text)
    → ((x : Text) → elem x ys ≡ true → P x)
    → ((x : Text) → elem x xs ≡ true → elem x ys ≡ true)
    → All P xs
All-elem P [] ys h sub = tt
All-elem P (x ∷ xs) ys h sub = (
  h x (sub x (ground (arith, text_eq_refl x))),
  All-elem P xs ys h (λ y m. sub y (ground (arith, m))),
)

Fits-IsColumn :
    (ext : Externals) (form : Form) (loc : Text) (ctx : RequestContext) (k : Text)
    (o : Option Stored)
    → Fits ext form loc ctx k o
    → is_given o ≡ true
    → IsColumn form k
Fits-IsColumn ext form loc ctx k none fits h = cc
Fits-IsColumn ext form loc ctx k (some v) (f, m, e, _) h = (f, m, e)

module _ (p : Platform) (fr : FormConfig) (ds : List Destination) (s : Serving) where
  -- If the storage is called for a request, the statement that PostgreSQL gets for the stored
  -- values is the INSERT of the table of the form with one column for each value, and every column
  -- is the name of a field of the form: nothing of the request stands in the text; the values are
  -- the parameters. The order in which the keys of a map are read has exactly its keys.
  pub serve-statement :
      (order : Dict Stored → List Text)
      → ((m : Dict Stored) (k : Text) → elem k (order m) ≡ elem k (keys m))
      → (serve p fr ds s).stores ≢ s.stores
      → (values : Dict Stored) × ((serve p fr ds s).stores
          ≡ s.stores ++ (fr.definition.table, values) ∷ [])
        × All (IsColumn fr.definition) (order values)
        × ((pg_query fr.definition.table (order values) values).sql
            ≡ statement fr.definition.table (order values) (dollars 0 (order values)))
        × ((pg_query fr.definition.table (order values) values).params
            ≡ map (λ k. lookup k values) (order values))
  serve-statement order complete h =
      let (values, stored, (loc, (ctx, _, _, fits))) = serve_stores-Conforms p fr ds s h in
      (
        values,
        stored,
        All-elem (IsColumn fr.definition) (order values) (keys values)
            (λ k m.
              Fits-IsColumn p.externals fr.definition loc ctx k (lookup k values) (fits.fitting k)
                (sym (elem-keys k values) ∙ m))
            (λ k m. sym (complete values k) ∙ m),
        ap (λ q. q.sql) (pg_query_lem fr.definition.table (order values) values),
        ap (λ q. q.params) (pg_query_lem fr.definition.table (order values) values),
      )

  -- If a form that is stored in files dispatches notifications for a request, the file named by the
  -- identifier holds the document of the stored values in full, and every destination gets the
  -- values with that identifier, once. The name of the temporary file is not that of the file.
  pub serve_dispatches-document :
      (b : Backends) (path id tmp : Text)
      → fr.storage ≡ new_file_store b path
      → b.files.new_id ≡ ok id
      → b.files.faults.create_temp ≡ ok tmp
      → document_path b.files path fr.definition.table id ≢ tmp
      → (serve p fr ds s).dispatched ≢ s.dispatched
      → (values : Dict Stored) × ((serve p fr ds s).stores
          ≡ s.stores ++ (fr.definition.table, values) ∷ [])
        × ((document : Text) × (b.files.marshal (with_id (b.drivers.order values) values id)
              ≡ ok document)
            × (lookup
                  (document_path b.files path fr.definition.table id)
                  (file_store b.files path fr.definition.table
                    (b.drivers.order values)
                    values
                    b.disk).1.last
                ≡ some document)
            × ((serve p fr ds s).dispatched
                ≡ s.dispatched
                  ++ map
                      (λ d. (
                        d,
                        record {
                          form = fr.definition;
                          result = with_id (b.drivers.order values) values id;
                        },
                      ))
                      ds))
  unfolding new_file_store
  serve_dispatches-document b path id tmp store new_id temp apart h =
      let (values, stored, fine, sent) = serve_dispatches p fr ds s h in
      let at : fr.storage fr.definition.table values
          ≡ new_file_store b path fr.definition.table values =
        ap (λ f. f fr.definition.table values) store in
      let (document, m, result, written) =
        file_store_lem b.files path fr.definition.table (b.drivers.order values) values b.disk id
          tmp new_id temp apart (ap (λ o. o.1) (sym at) ∙ fine) in
      (
        values,
        stored,
        (
          document,
          m,
          written,
          sent
              ∙ ap
                  (λ r.
                    s.dispatched ++ map (λ d. (d, record { form = fr.definition; result = r })) ds)
                  (ap (λ o. o.0) at ∙ result),
        ),
      )
