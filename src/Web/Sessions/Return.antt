-- ===== src/Web/Sessions/Return.antt =====
-- The way of a whole session through the page and back.
use web_form.Prelude.{
  is_given, Text, Text-comparable, [], ◌∷◌, ◌++◌, true, List, Option, none, some, ◌≡◌, refl, ap,
  arith, elem, All, text_eq_iff,
}
use web_form.Prelude.Dict.{Dict, lookup, keys}
use web_form.Golang.Strings.{cut_prefix, cut_prefix-append}
use web_form.Golang.Urls.{unreserved, query_escape-eq-self_iff}
use web_form.Web.Sessions.{prefix, parse_session, hidden_field, hidden_fields}
use web_form.Web.Sessions.Laws.{lookup-parse_session}

-- The names and values of hidden fields, as a browser sends them.
abbrev pub posted : List (Text × Text) → Dict (List Text)
posted [] = []
posted ((name, value) ∷ fs) = (name, value ∷ []) ∷ posted fs

-- A name and a value that `EmbedSession` writes as they are.
abbrev pub IsPlain : Text × Text → Type 0
IsPlain (k, v) = All (λ c. unreserved c ≡ true) k × All (λ c. unreserved c ≡ true) v

-- A name that is none of the session.
abbrev pub IsOther : Text × List Text → Type 0
IsOther (k, vs) = cut_prefix prefix k ≡ none

pub elem-keys {ℓ} : {V : Type ℓ} (k : Text) (m : Dict V) → elem k (keys m) ≡ is_given (lookup k m)
unfolding lookup
elem-keys k [] = refl
elem-keys k ((j, v) ∷ m) = ground (arith, elem-keys k m)

-- The values of a name of the session in the body.
abbrev alone : Option Text → Option (List Text)
alone none = none
alone (some v) = some (v ∷ [])

lookup-others :
    (j : Text) (rest : Dict (List Text)) → All IsOther rest → lookup (prefix ++ j) rest ≡ none
unfolding lookup
lookup-others j [] h = refl
lookup-others j ((k, vs) ∷ rest) (other, h) = ground (
  arith,
  lookup-others j rest h,
  text_eq_iff k (prefix ++ j),
  cut_prefix-append prefix j,
  ap (cut_prefix prefix) {x = k} {y = prefix ++ j},
)

lookup-posted :
    (j : Text) (session : Dict Text) (rest : Dict (List Text))
    → All IsPlain session
    → All IsOther rest
    → lookup (prefix ++ j) (posted (hidden_fields session) ++ rest) ≡ alone (lookup j session)
unfolding lookup hidden_fields hidden_field
lookup-posted j [] rest p h = lookup-others j rest h
lookup-posted j ((k, v) ∷ session) rest ((pk, pv), p) h =
    rw ((query_escape-eq-self_iff k).1 pk, (query_escape-eq-self_iff v).1 pv)
      (ground (
        arith,
        lookup-posted j session rest p h,
        text_eq_iff k j,
        text_eq_iff (prefix ++ k) (prefix ++ j),
      ))

-- A session whose entries consist of unreserved characters comes back whole from the hidden fields
-- of the page, in whatever order the keys of the body are read, if no other field of the body
-- begins with "__".
pub parse_session-hidden_fields :
    (order : List Text) (session : Dict Text) (rest : Dict (List Text))
    → All IsPlain session
    → All IsOther rest
    → ((k : Text) → elem k order ≡ elem k (keys (posted (hidden_fields session) ++ rest)))
    → (j : Text)
    → lookup j (parse_session order (posted (hidden_fields session) ++ rest)) ≡ lookup j session
parse_session-hidden_fields order session rest p h complete j =
    rw (lookup-parse_session, complete, elem-keys)
      (ground (arith, lookup-posted j session rest p h))
