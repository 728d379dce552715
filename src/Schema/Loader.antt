-- ===== src/Schema/Loader.antt =====
-- internal/schema/loader.go: form definitions from a stream, a file and a file system. A document is
-- what the YAML decoder does to the form that it is given; a stream ends in io.EOF behind its last
-- document.
pub mod Laws
use web_form.Prelude.{
  Text, Text-comparable, [], ◌∷◌, ◌++◌, ◌||◌, not, if◌then◌else◌, Bool, true, false, List, Option,
  none, some, Error, Result, ok, err, codes, wrapped, ◌>>=◌, is_empty, ◌==◌, map, ◌-◌, length,
}
use web_form.Golang.Strings.{to_lower}
use web_form.Golang.Paths.{ext, take}
use web_form.Schema.Types.{Form}

abbrev pub Document : Type 0
Document = Form → Result Form

-- The loop of `FormsFromStream`; every round starts from the default form.
unfoldable pub stream_loop : Form → List Form → List Document → Result (List Form)
stream_loop blank forms [] = ok forms
stream_loop blank forms (d ∷ ds) = d blank >>= λ form. stream_loop blank (forms ++ form ∷ []) ds

unfoldable pub forms_from_stream : Form → List Document → Result (List Form)
unfolding stream_loop
forms_from_stream blank docs = stream_loop blank [] docs

-- The name of a file without its extension.
unfoldable pub stem : Text → Text
stem file = take (length file - length (ext file)) file

-- What the loop of `FormsFromFile` does to a form.
unfoldable pub fill_names : Text → Form → Form
fill_names name form = record form {
  name = if is_empty form.name then name else form.name;
  table = if is_empty form.table then name else form.table;
}

-- `fs.DirEntry` of a walk, with the error that the walk met there.
pub record Entry : Type 0 where
  pub path : Text
  pub is_dir : Bool
  pub error : Option Error

abbrev is_config : Text → Bool
is_config e = e == codes ".yaml" || e == codes ".yml" || e == codes ".json"

module _ (open_file : Text → Result (List Document)) (blank : Form) where
  unfoldable pub forms_from_file : Text → Result (List Form)
  forms_from_file file = do
    docs ← wrapped (codes "open: %w") [] (open_file file)
    forms ← wrapped (codes "read %q: %w") (file ∷ []) (forms_from_stream blank docs)
    ok (map (fill_names (stem file)) forms)

  -- The function that `FormsFromFS` hands to `WalkDir`, with the forms so far.
  unfoldable pub visit : List Form → Entry → Result (List Form)
  visit forms entry = elim entry.error [
    | some e ↦ err e
    | none ↦
        if entry.is_dir || not (is_config (to_lower (ext entry.path)))
        then ok forms
        else wrapped (codes "read forms from FS: %w") [] (forms_from_file entry.path)
          >>= (λ found. ok (forms ++ found))
  ]

  -- `WalkDir` stops at the first error.
  unfoldable pub walk : List Form → List Entry → Result (List Form)
  walk forms [] = ok forms
  walk forms (e ∷ es) = visit forms e >>= λ forms'. walk forms' es

  unfoldable pub forms_from_fs : List Entry → Result (List Form)
  unfolding walk
  forms_from_fs entries = wrapped (codes "read forms: %w") [] (walk [] entries)
