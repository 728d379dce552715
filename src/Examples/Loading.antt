-- ===== src/Examples/Loading.antt =====
-- The loading and the mounting of forms, at concrete values.
use web_form.Prelude.{
  Text, Text-comparable, [], ◌∷◌, if◌then◌else◌, true, false, List, none, some, Result, ok, codes,
  ◌≡◌, ◌↔◌, map, distinct,
}
use web_form.Schema.Types.{Form}
use web_form.Schema.Loader.{Document, Entry, forms_from_fs}
use web_form.Schema.Loader.Laws.{Loads, forms_from_fs_iff}
use web_form.Engine.Config.{FormOption, with_xsrf}
use web_form.Engine.Server.{Config, Mux, mounted_of, new_mux}
use web_form.Engine.Server.Laws.{takes_all, paths, new_mux_iff}
use web_form.Examples.Startup.{takes_once, quiet_mount}
use web_form.Examples.{survey, secret_survey, config}

-- A file of two documents; the second has no name of its own.
abbrev files : Text → Result (List Document)
files path = ok (
    (λ f. ok (record f { name = codes "first" }))
    ∷ (λ f. ok (record f { title = codes "Second" }))
    ∷ [])

abbrev unnamed : Form
unnamed = record survey { name = []; table = [] }

abbrev file : Text
file = codes "poll.yaml"

abbrev loaded_forms : List Form
loaded_forms =
    record unnamed { name = codes "first"; table = codes "poll" }
    ∷ record unnamed { name = codes "poll"; table = codes "poll"; title = codes "Second" }
    ∷ []

abbrev entries : List Entry
entries =
    record { path = codes "."; is_dir = true; error = none }
    ∷ record { path = file; is_dir = false; error = none }
    ∷ record { path = codes "notes.txt"; is_dir = false; error = none }
    ∷ []

forms_from_fs_iff_example :
    (forms_from_fs files unnamed entries ≡ ok loaded_forms)
    ↔ Loads files unnamed entries loaded_forms
forms_from_fs_iff_example = forms_from_fs_iff files unnamed entries loaded_forms

abbrev server : Config
server = record {
  forms = survey ∷ secret_survey ∷ [];
  storage = config.storage;
  webhooks_factory = none;
  amqp_factory = none;
  listing = true;
  captcha = [];
}

abbrev options : List FormOption
options = with_xsrf true ∷ []

abbrev mux : Mux
mux = record { mounted = map (quiet_mount server) server.forms; listed = some server.forms }

new_mux_iff_example : (new_mux takes_once server options ≡ some (ok mux)) ↔ (
    (distinct (map (λ f. f.name) server.forms) ≡ true)
    × (takes_all takes_once [] (paths server.forms) ≡ true)
    × (map (mounted_of server options) server.forms ≡ map some mux.mounted)
    × (mux.listed ≡ (if server.listing then some server.forms else none)))
new_mux_iff_example = new_mux_iff takes_once server options mux
