-- ===== src/Web/Sessions.antt =====
-- internal/web/web.go: the session that travels in hidden fields of the page.
pub mod Laws
pub mod Return
use web_form.Prelude.{
  Text, Text-comparable, [], ◌∷◌, ◌++◌, if◌then◌else◌, Bool, true, false, List, Option, none, some,
  codes,
}
use web_form.Prelude.Dict.{Dict, lookup, insert, delete}
use web_form.Golang.Strings.{cut_prefix}
use web_form.Golang.Urls.{query_escape}
use web_form.Web.Requests.{Request}

-- `url.Values.Get`
abbrev pub first_value : List Text → Text
first_value [] = []
first_value (v ∷ vs) = v

abbrev pub get_value : Text → Dict (List Text) → Text
get_value k m = elim (lookup k m) [ none ↦ [] | some vs ↦ first_value vs ]

-- A missing key of a map of strings reads as "".
abbrev pub text_at : Text → Dict Text → Text
text_at k m = elim (lookup k m) [ none ↦ [] | some v ↦ v ]

abbrev pub prefix : Text
prefix = codes "__"

-- What a round of the loop of `parseSession` does with a key of the form.
unfoldable pub session_key : Dict (List Text) → Text → Dict Text → Dict Text
session_key form k session = elim (cut_prefix prefix k) [
  | none ↦ session
  | some name ↦ insert name (get_value k form) session
]

-- The loop of `parseSession`, over the keys of the form in any order.
unfoldable pub session_loop : Dict (List Text) → List Text → Dict Text → Dict Text
unfolding session_key
session_loop form [] session = session
session_loop form (k ∷ ks) session = session_loop form ks (session_key form k session)

unfoldable pub parse_session : List Text → Dict (List Text) → Dict Text
unfolding session_loop
parse_session order form = session_loop form order []

-- Go reads the keys of a map in an order that it does not fix.
abbrev pub Order : Type 0
Order = Dict (List Text) → List Text

module _ (order : Order) where
  -- `Session`: the session is parsed when it is first asked for.
  unfoldable pub open_session : Request → Request
  open_session r = elim r.session [
    | none ↦ record r {
      session = some (parse_session (order r.request.post_form) r.request.post_form);
    }
    | some s ↦ r
  ]

  abbrev pub session_of : Request → Dict Text
  session_of r = elim r.session [
    | none ↦ parse_session (order r.request.post_form) r.request.post_form
    | some s ↦ s
  ]

  -- `r.Session()[key] = value`, also `Push`
  unfoldable pub push : Text → Text → Request → Request
  push key value r = record r { session = some (insert key value (session_of r)) }

-- `Pop` reads the field, and does not parse the session.
unfoldable pub pop : Text → Request → Text × Request
pop key r = elim r.session [
  | none ↦ ([], r)
  | some s ↦ (text_at key s, record r { session = some (delete key s) })
]

unfoldable pub clear : Request → Request
clear r = record r { session = none }

-- A hidden field of a page: its name, and its value, as `EmbedSession` writes them.
unfoldable pub hidden_field : Text × Text → Text × Text
hidden_field (k, v) = (prefix ++ query_escape k, query_escape v)

unfoldable pub hidden_fields : Dict Text → List (Text × Text)
unfolding hidden_field
hidden_fields [] = []
hidden_fields (kv ∷ session) = hidden_field kv ∷ hidden_fields session

unfoldable pub field_html : Text × Text → Text
field_html (name, value) =
    codes "<input type=\"hidden\" name=\""
    ++ (name ++ (codes "\" value=\"" ++ (value ++ codes "\"/>")))

-- The loop of `EmbedSession`.
unfoldable pub embed_loop : Text → List (Text × Text) → Text
unfolding field_html
embed_loop out [] = out
embed_loop out (f ∷ fs) = embed_loop (out ++ field_html f) fs

unfoldable pub embed_session : Request → Text
unfolding embed_loop hidden_fields
embed_session r = elim r.session [ none ↦ [] | some s ↦ embed_loop [] (hidden_fields s) ]
