-- ===== src/Examples/Parts.antt =====
-- Sets, quoting, sessions, guards and access at concrete values.
use web_form.Prelude.{
  all, text_eq_iff, Text, Text-comparable, [], ◌∷◌, ◌++◌, true, List, some, codes, ◌≡◌, ◌↔◌, arith,
  elem, All,
}
use web_form.Prelude.Dict.{lookup}
use web_form.Utils.Sets.Abstract.{SameMembers, set_of, added, has_all, set_of-new_set}
use web_form.Utils.Sets.{new_set}
use web_form.Utils.Quote.{quote}
use web_form.Utils.Quote.Reading.{unquote, unquote-quote}
use web_form.Utils.Quote.Identifiers.{identifier, IsPlain, identifier-quote_iff}
use web_form.Web.Sessions.{hidden_field, parse_session}
use web_form.Web.Sessions.Laws.{hidden_field_iff, sent_back}
use web_form.Golang.Urls.{unreserved}

abbrev tags : List Text
tags = codes "b" ∷ codes "a" ∷ codes "b" ∷ []

abbrev awkward : Text
awkward = codes "a\"b\\"

unquote-quote_example : unquote b'"' (quote awkward b'"' ++ codes " (") ≡ some (awkward, codes " (")
unquote-quote_example = unquote-quote b'"' awkward (codes " (") (λ e. ground arith)

identifier-quote_iff_example :
    (identifier b'"' (quote awkward b'"' ++ codes " (") ≡ some (awkward, codes " ("))
    ↔ IsPlain b'"' awkward
identifier-quote_iff_example =
    identifier-quote_iff b'"' awkward (codes " (") (λ e. ground arith) (λ e. ground arith)

hidden_field_iff_example :
    (lookup (codes "tz") (
        parse_session
          ((hidden_field (codes "tz", codes "Etc/UTC")).0 ∷ [])
          (sent_back (hidden_field (codes "tz", codes "Etc/UTC"))))
      ≡ some (codes "Etc/UTC"))
    ↔ (All (λ c. unreserved c ≡ true) (codes "tz")
        × All (λ c. unreserved c ≡ true) (codes "Etc/UTC"))
hidden_field_iff_example = hidden_field_iff (codes "tz") (codes "Etc/UTC")

-- The same codes, in another order and with a repetition.
abbrev tags' : List Text
tags' = codes "a" ∷ codes "b" ∷ codes "a" ∷ codes "a" ∷ []

tags-SameMembers : SameMembers tags tags'
tags-SameMembers a = ground (arith, text_eq_iff (codes "a") a, text_eq_iff (codes "b") a)

set_of-new_set_example :
    (set_of (new_set tags) ≡ set_of (new_set tags'))
    × (added (codes "c" ∷ []) (added (codes "d" ∷ []) (set_of (new_set tags)))
        ≡ added (codes "d" ∷ []) (added (codes "c" ∷ []) (set_of (new_set tags'))))
    × (has_all (codes "c" ∷ []) (set_of (new_set tags')) ≡ all (λ v. elem v tags) (codes "c" ∷ []))
set_of-new_set_example =
    set_of-new_set tags tags' (codes "c" ∷ []) (codes "d" ∷ []) tags-SameMembers
