-- ===== src/Web/Requests.antt =====
-- internal/web/web.go: the state of a `Request`, and the operations on messages and on the state that
-- the templates read.
use web_form.Prelude.{
  Text, Text-comparable, [], ◌∷◌, ◌++◌, if◌then◌else◌, Bool, true, false, List, Option, none, Error,
  nonempty, ℕ,
}
use web_form.Prelude.Dict.{Dict, insert}
use web_form.Utils.Sets.{new_set, has}
use web_form.Schema.Types.{Form, Credentials, RequestContext, ResultContext}

pub data Method : Type 0 where
  get post put patch delete head : Method
  other : Text → Method

abbrev pub is_post : Method → Bool
is_post post = true
is_post _ = false

abbrev pub is_get : Method → Bool
is_get get = true
is_get _ = false

-- `http.Request`, with its query and the values of its body as net/http parses them.
pub record HttpRequest : Type 0 where
  pub method : Method
  pub path : Text
  pub remote_addr : Text
  pub forwarded_for : Text  -- the header X-Forwarded-For, "" if it is missing
  pub headers : Dict (List Text)
  pub query : Dict (List Text)
  pub post_form : Dict (List Text)
  pub multipart : Bool  -- the body is multipart/form-data
  pub xsrf_cookie : Option Text
  pub creds : Option Credentials  -- the credentials of its context

-- `WithCredentials` and `CredentialsFromContext`, on the context of a request.
unfoldable pub with_credentials : Option Credentials → HttpRequest → HttpRequest
with_credentials creds r = record r { creds = creds }

abbrev pub credentials_from_context : HttpRequest → Option Credentials
credentials_from_context r = r.creds

pub data FlashType : Type 0 where
  flash_error flash_info : FlashType

-- The value of which `fmt.Sprint` makes the text of a flash message.
pub data Message : Type 0 where
  plain : Text → Message
  failure : Error → Message
  about : Text → Error → Message  -- the text, and behind it that of the error

pub record FlashMessage : Type 0 where
  pub name : Text
  pub text : Message
  pub type : FlashType

-- `Captcha`: its HTML, and its check of a request.
pub record Captcha : Type 0 where
  pub embed : Text
  pub validate : HttpRequest → Bool

-- A default value for the page: the old values of a multiple choice, or one text.
pub data Default : Type 0 where
  chosen : List Text → Default
  filled : Text → Default

-- What the program puts under a key for the templates.
pub data StateValue : Type 0 where
  a_form : Form → StateValue
  a_text : Text → StateValue
  a_result : ResultContext → StateValue
  the_defaults : Dict Default → StateValue
  the_forms : List Form → StateValue
  a_context : RequestContext → StateValue

pub record Response : Type 0 where
  pub status : ℕ
  pub content_type : Option Text
  pub body : Text

-- `Request`. A nil `session` is `none`; a nil `state` reads as an empty map. `written` is what its
-- writer has been given.
pub record Request : Type 0 where
  pub messages : List FlashMessage
  pub xsrf : Text
  pub request : HttpRequest
  pub state : Dict StateValue
  pub session : Option (Dict Text)
  pub creds : Option Credentials
  pub captchas : List Captcha
  pub written : List Response

unfoldable pub new_request : HttpRequest → Request
new_request request = record {
  messages = [];
  xsrf = [];
  request = request;
  state = [];
  session = none;
  creds = credentials_from_context request;
  captchas = [];
  written = [];
}

unfoldable pub with_captcha : List Captcha → Request → Request
with_captcha captchas r = record r { captchas = captchas }

unfoldable pub set_state : Text → StateValue → Request → Request
set_state key v r = record r { state = insert key v r.state }

unfoldable pub flash : Text → Message → FlashType → Request → Request
flash name text type r = record r {
  messages = r.messages ++ record { name = name; text = text; type = type } ∷ [];
}

-- `Error` and `Info`
unfoldable pub error : Message → Request → Request
unfolding flash
error message r = flash [] message flash_error r

unfoldable pub info : Message → Request → Request
unfolding flash
info message r = flash [] message flash_info r

-- The loop of `Messages`.
unfoldable pub select_messages :
    List Text → List FlashMessage → List FlashMessage → List FlashMessage
select_messages idx ans [] = ans
select_messages idx ans (f ∷ fs) =
    select_messages idx (if has idx (f.name ∷ []) then ans ++ f ∷ [] else ans) fs

unfoldable pub messages_named : List Text → Request → List FlashMessage
unfolding select_messages
messages_named names r =
    if nonempty names then select_messages (new_set names) [] r.messages else r.messages
