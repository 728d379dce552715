-- ===== src/Web/Pages.antt =====
-- internal/web/web.go: `Render`. What executing a template gives is a parameter; the methods of the
-- request that templates call are in the other modules.
use web_form.Prelude.{Text, [], ◌∷◌, ◌++◌, List, none, some, codes, ℕ, Result, ok, err}
use web_form.Web.Requests.{Request, Response}

-- A view is known by the files that it is parsed from.
abbrev pub View : Type 0
View = List Text

abbrev pub Execute : Type 0
Execute = View → Request → Result Text

abbrev pub page : ℕ → Result Text → Response
page status (err e) = record { status = 500; content_type = none; body = [] }
page status (ok body) = record {
  status = status;
  content_type = some (codes "text/html");
  body = body;
}

unfoldable pub render : Execute → ℕ → View → Request → Request
render execute status view r = record r { written = r.written ++ page status (execute view r) ∷ [] }
