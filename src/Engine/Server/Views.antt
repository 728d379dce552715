-- ===== src/Engine/Server/Views.antt =====
-- internal/engine/server.go: `baseParse` and `mustParse`, over the files and the parser of templates.
use web_form.Prelude.{
  Text, [], ◌∷◌, List, Option, none, some, Result, ok, err, codes, wrapped, ◌>>=◌,
}

-- The views of the program, and the parser of `html/template`, which adds a source to a template.
pub record Sources {ℓ} (T : Type ℓ) : Type ℓ where
  pub root : T
  pub read_file : Text → Result Text
  pub parse : T → Text → Result T

module _ {ℓ} {T : Type ℓ} (src : Sources T) where
  -- The loop of `baseParse`.
  unfoldable pub parse_loop : T → List Text → Result T
  parse_loop root [] = ok root
  parse_loop root (file ∷ files) =
      wrapped (codes "read %q: %w") (file ∷ []) (src.read_file file) >>= λ content.
      wrapped (codes "parse %q: %w") (file ∷ []) (src.parse root content) >>= λ sub.
      parse_loop sub files

  unfoldable pub base_parse : Text → List Text → Result T
  unfolding parse_loop
  base_parse base overlay = parse_loop src.root (base ∷ overlay)

  -- `none` is a panic.
  unfoldable pub must_parse : Text → List Text → Option T
  unfolding base_parse
  must_parse base overlay = elim (base_parse base overlay) [ ok v ↦ some v | err e ↦ none ]

  -- The views of forms, in the order of their files in `New`.
  abbrev overlays : List Text
  overlays =
      codes "form.gohtml"
      ∷ codes "success.gohtml"
      ∷ codes "failed.gohtml"
      ∷ codes "access.gohtml"
      ∷ codes "forbidden.gohtml"
      ∷ []

  unfoldable pub parse_overlays : List Text → Option (List T)
  unfolding must_parse
  parse_overlays [] = some []
  parse_overlays (file ∷ files) = elim (must_parse (codes "form_base.gohtml") (file ∷ [])) [
    | none ↦ none
    | some v ↦ elim (parse_overlays files) [ none ↦ none | some vs ↦ some (v ∷ vs) ]
  ]

  -- The views that `New` parses, that of the list first; `none` is a panic.
  unfoldable pub parse_views : Option (T × List T)
  unfolding must_parse parse_overlays
  parse_views = elim (must_parse (codes "list.gohtml") []) [
    | none ↦ none
    | some list_view ↦ elim (parse_overlays overlays) [
      | none ↦ none
      | some views ↦ some (list_view, views)
    ]
  ]
