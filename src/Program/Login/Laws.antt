-- ===== src/Program/Login/Laws.antt =====
-- Where a browser is sent back to behind the login.
use web_form.Prelude.{
  Text, Text-comparable, codes, if◌then◌else◌, false, none, some, ◌≡◌, arith, is_empty, ◌==◌,
  text_eq_refl,
}
use web_form.Prelude.Dict.{Dict, lookup, insert, lookup-insert, lookup-delete}
use web_form.Web.Sessions.{text_at}
use web_form.Program.Login.{redirect_to, before_auth, post_auth}

text_at-insert : (k v : Text) (m : Dict Text) → text_at k (insert k v m) ≡ v
text_at-insert k v m = ground (arith, lookup-insert k k v m, text_eq_refl k)

-- Behind the login a browser is sent to the URL that it had asked for, which the session then has
-- no longer; no other header and no other entry of the session is changed. The URL is not empty.
pub post_auth-before_auth :
    (url : Text) (session headers : Dict Text)
    → is_empty url ≡ false
    → ((k : Text)
        → lookup k (post_auth (before_auth url session) headers).1
          ≡ (if codes "Location" == k then some url else lookup k headers))
      × ((k : Text)
          → lookup k (post_auth (before_auth url session) headers).0
            ≡ (if redirect_to == k then none else lookup k session))
unfolding post_auth before_auth
post_auth-before_auth url session headers given = (
  λ k.
      rw (text_at-insert redirect_to url session, given)
        (lookup-insert (codes "Location") k url headers),
  λ k. rw (lookup-delete, lookup-insert) (ground arith),
)
