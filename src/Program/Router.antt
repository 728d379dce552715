-- ===== src/Program/Router.antt =====
-- cmd/web-form/main.go: the router that `run` builds, and the way of a request through it.
pub mod Passage
pub mod Accepting
pub mod Safety
pub mod Listing
use web_form.Prelude.{
  Text, [], ◌∷◌, ◌++◌, if◌then◌else◌, Bool, true, List, Option, none, some, codes, is_empty,
}
use web_form.Prelude.Int.{ℤ}
use web_form.Prelude.Dict.{Dict}
use web_form.Schema.Types.{Form, Credentials, Stored}
use web_form.Web.Requests.{HttpRequest, Request, with_credentials}
use web_form.Engine.Config.{Platform, Serving}
use web_form.Engine.Server.{Mux, Mounted, list_view}
use web_form.Engine.Serve.{handle_form}
use web_form.Program.Users.{Token, credentials_from_request, owasp}
use web_form.Program.Login.{Gate, Admission, SessionStore, passed, turned_away}
use web_form.Program.Settings.{Settings}

-- What is mounted at a prefix.
pub data Mount : Type 0 where
  login_service : Mount
  static_files : Mount
  asset_files : Text → Mount
  form_pages : Mount

-- `auth`: its prefix, the sessions that it reads, whether `LoadAndSave` can load that of a request,
-- and `authMiddleware`.
pub record Login : Type 0 where
  pub prefix : Text
  pub sessions : SessionStore
  pub loads : HttpRequest → Bool
  pub secure : Gate

-- The handler of the server; without a login, every request passes.
pub record Router : Type 0 where
  pub login : Option Login
  pub mounts : List (Text × Mount)
  pub forms : Mux

abbrev login_mounts : Option Login → List (Text × Mount)
login_mounts none = []
login_mounts (some l) = (l.prefix, login_service) ∷ []

-- The mounts of `run`, in their order.
unfoldable pub mounts_of : Settings → Option Login → List (Text × Mount)
mounts_of cfg login =
    login_mounts login
    ++ ((codes "/static/", static_files)
          ∷ (if is_empty cfg.http.assets
              then []
              else (codes "/assets/", asset_files cfg.http.assets) ∷ [])
        ++ (codes "/", form_pages) ∷ [])

unfoldable pub new_router : Settings → Option Login → Mux → Router
unfolding mounts_of
new_router cfg login mux = record { login = login; mounts = mounts_of cfg login; forms = mux }

-- `http.Server`
pub record Server : Type 0 where
  pub addr : Text
  pub handler : Router
  pub read_timeout : ℤ
  pub write_timeout : ℤ

-- A handler of the engine.
pub data Handler : Type 0 where
  list_page : List Form → Handler
  form_page : Mounted → Handler

-- How chi finds the handler of a request.
pub record Routing : Type 0 where
  pub find_mount : List (Text × Mount) → HttpRequest → Option Mount
  pub find_handler : Mux → HttpRequest → Option Handler

-- Who answers a request, and what the forms make of it.
pub data Answer : Type 0 where
  not_found : Answer
  by_files : Answer
  by_login : Answer
  by_list : Request → Answer
  by_form : Serving → Answer
  no_session : Answer  -- the error of `LoadAndSave`

-- `LoadAndSave` stands before everything that is mounted, if there is a login.
abbrev pub is_loaded : Option Login → HttpRequest → Bool
is_loaded none http = true
is_loaded (some l) http = l.loads http

module _ (p : Platform) (routing : Routing) where
  abbrev pub handle_found : HttpRequest → Option Handler → Answer
  handle_found http none = not_found
  handle_found http (some (list_page forms)) = by_list (list_view p.execute p.order forms http)
  handle_found http (some (form_page m)) = by_form (handle_form p m.1 http)

  -- The handler that `engine.New` returns.
  unfoldable pub handle_engine : Mux → HttpRequest → Answer
  handle_engine mux http = handle_found http (routing.find_handler mux http)

  -- The middleware that puts the credentials of the token into the context.
  unfoldable pub handle_user : Mux → Option Token → HttpRequest → Answer
  unfolding handle_engine
  handle_user mux token http =
      handle_engine mux (with_credentials (credentials_from_request token) http)

  abbrev pub handle_admission : Mux → HttpRequest → Admission → Answer
  handle_admission mux http (passed token) = handle_user mux token http
  handle_admission mux http turned_away = by_login

  -- `authMiddleware`
  unfoldable pub handle_secure : Option Login → Mux → HttpRequest → Answer
  unfolding handle_user
  handle_secure none mux http = handle_user mux none http
  handle_secure (some l) mux http = handle_admission mux http (l.secure http)

  -- The group of the forms: the headers set before the handler answers, and the answer.
  unfoldable pub handle_group : Router → HttpRequest → Dict Text × Answer
  unfolding handle_secure
  handle_group r http = (owasp [], handle_secure r.login r.forms http)

  abbrev pub handle_mount : Router → HttpRequest → Option Mount → Dict Text × Answer
  handle_mount r http none = ([], not_found)
  handle_mount r http (some login_service) = ([], by_login)
  handle_mount r http (some static_files) = ([], by_files)
  handle_mount r http (some (asset_files dir)) = ([], by_files)
  handle_mount r http (some form_pages) = handle_group r http

  unfoldable pub handle : Router → HttpRequest → Dict Text × Answer
  unfolding handle_group
  handle r http =
      if is_loaded r.login http
      then handle_mount r http (routing.find_mount r.mounts http)
      else ([], no_session)

-- The calls of the storage for a request.
abbrev pub stored_by : Answer → List (Text × Dict Stored)
stored_by (by_form s) = s.stores
stored_by _ = []
