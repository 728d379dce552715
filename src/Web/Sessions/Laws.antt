-- ===== src/Web/Sessions/Laws.antt =====
-- The session of a form, and its way through a page and back.
use web_form.Prelude.{
  Text, Text-comparable, [], ◌∷◌, ◌++◌, if◌then◌else◌, true, List, none, some, ◌≡◌, ◌↔◌, refl,
  arith, elem, All, ◌==◌, text_eq, text_eq_iff, text_eq_refl, ap, Option-cases, inl, inr,
}
use web_form.Prelude.Dict.{Dict, lookup, lookup-insert}
use web_form.Golang.Strings.{cut_prefix, cut_prefix-append, cut_prefix-eq-some}
use web_form.Golang.Urls.{unreserved, query_escape, query_escape-eq-self_iff}
use web_form.Web.Sessions.{
  prefix, get_value, session_key, session_loop, parse_session, hidden_field,
}

lookup-session_key :
    (form : Dict (List Text)) (k j : Text) (m : Dict Text)
    → lookup j (session_key form k m)
      ≡ (if k == (prefix ++ j) then some (get_value k form) else lookup j m)
unfolding session_key
lookup-session_key form k j m = elim (Option-cases (cut_prefix prefix k)) [
  | inl other ↦
      rw (other, session_key)
        (ground (
          arith,
          text_eq_iff k (prefix ++ j),
          cut_prefix-append prefix j,
          ap (cut_prefix prefix) {x = k} {y = prefix ++ j},
        ))
  | inr (name, e) ↦
      rw (e, session_key, lookup-insert, cut_prefix-eq-some prefix k e)
        (ground (arith, text_eq_iff name j, text_eq_iff (prefix ++ name) (prefix ++ j)))
]

lookup-session_loop :
    (form : Dict (List Text)) (ks : List Text) (j : Text) (m : Dict Text)
    → lookup j (session_loop form ks m)
      ≡ (if elem (prefix ++ j) ks then some (get_value (prefix ++ j) form) else lookup j m)
unfolding session_loop
lookup-session_loop form [] j m = refl
lookup-session_loop form (k ∷ ks) j m = ground (
  arith,
  lookup-session_loop form ks j (session_key form k m),
  lookup-session_key form k j m,
  text_eq_iff k (prefix ++ j),
)

-- In whatever order the keys of the form are read, the session has a name exactly when the form has
-- the key with "__" in front, and the value is the first one under that key.
pub lookup-parse_session :
    (keys : List Text) (form : Dict (List Text)) (j : Text)
    → lookup j (parse_session keys form)
      ≡ (if elem (prefix ++ j) keys then some (get_value (prefix ++ j) form) else none)
unfolding parse_session lookup
lookup-parse_session keys form j = lookup-session_loop form keys j []

-- A browser sends the name and the value of a hidden field back as they stand in the page.
abbrev pub sent_back : Text × Text → Dict (List Text)
sent_back (name, value) = (name, value ∷ []) ∷ []

-- An entry of a session comes back from the page as it was exactly when its name and its value
-- consist of unreserved characters: EmbedSession escapes them for a query, which neither the
-- browser nor parseSession undoes.
pub hidden_field_iff :
    (k v : Text)
    → (lookup k (parse_session ((hidden_field (k, v)).0 ∷ []) (sent_back (hidden_field (k, v))))
        ≡ some v)
      ↔ (All (λ c. unreserved c ≡ true) k × All (λ c. unreserved c ≡ true) v)
unfolding hidden_field lookup text_eq
hidden_field_iff k v = rw lookup-parse_session (
  λ h. ground (
    arith,
    text_eq_iff (prefix ++ query_escape k) (prefix ++ k),
    query_escape-eq-self_iff k,
    query_escape-eq-self_iff v,
  ),
  λ (plain, plain').
      rw
        ((query_escape-eq-self_iff k).1 plain, (query_escape-eq-self_iff v).1 plain', text_eq_refl),
)
