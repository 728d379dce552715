-- ===== src/Lib.antt =====
-- A model of the web form server (Go): it serves HTML forms that are defined in YAML, checks who may
-- open them, parses and validates submissions, stores them, and notifies other systems.
--
-- The parts, and the files that model them:
--   Utils/Sets, Quote, Functions internal/utils/utils.go, strings.go, templates.go: Uniq, Set, Quote,
--                                TemplateFuncs; a set as a quotient is in Sets/Abstract
--   Schema/Types, Templates      internal/schema/types.go, template.go: definitions, contexts, templates
--   Schema/Access                IsAllowed, HasCodeAccess, Policy.UnmarshalText
--   Schema/Fields, Schema/Forms  internal/schema/parser.go: Field.Parse, parseValues, ParseForm
--   Schema/Loader                internal/schema/loader.go: FormsFromStream, FormsFromFile, FormsFromFS
--   Web/Requests, Sessions,      internal/web/web.go: the Request with its messages, session, XSRF token,
--   Web/Guards, Web/Pages        captchas and answers
--   Engine/Config, Access,       internal/engine/form.go, options.go: NewForm and Serve; the handler is
--   Engine/Render, Submit, Serve a function on a request with the calls of the storage and the
--                                notifications so far (Serving)
--   Engine/Server, Server/Views  internal/engine/server.go: New, the list of forms, the views
--   Storage/Queries, Databases   internal/storage/db.go: the statements of both databases, DBStore, NewDB
--   Storage/Files                internal/storage/file.go, dump.go, utils.go
--   Notifications/Webhooks       internal/notifications/webhook/webhooks.go; its channel, between the
--                                handlers and Run, is the step relation of Webhooks/Queue
--   Notifications/Broker         internal/notifications/amqp/amqp.go; its workers, side by side over one
--                                channel, are the step relation of Broker/Pool
--   Program/Turnstile            internal/captcha/turnstile.go
--   Program/Settings, Users      cmd/web-form/main.go: Config, the credentials of a token
--   Program/Startup, Login       createStorage, shouldMigrate, captcha; createAuth with its callbacks
--   Program/Router               the router of run, with its middleware, as a function on a request
--   Program/Runs, Running        run and main: what is opened, started and closed, how it ends, and
--                                the server that it starts
--   Program/Storing              from a served request to the statement or the file of its values
--   Prelude, Golang              shared helpers, and what is used of Go's standard library
--   Examples                     the theorems at concrete values
--
-- run (Program/Running) makes the login, loads the forms, opens a storage, configures the engine
-- (Engine/Server) and starts the tasks; its result is the list of these events and the way it ends,
-- and what is deferred stands at the end of the events on every path. A request comes through the
-- router (Program/Router): the headers of owasp, the login, the credentials, and the engine,
-- which mounts a handler for every form. A handler (Engine/Serve) checks the XSRF token, the policy and
-- the access code, renders the defaults, and either shows the page or checks the captchas and submits:
-- it parses the form (Schema/Forms), stores the values, and dispatches the notifications of the form.
--
-- How the code is modelled. A string is the list of its runes; strings are valid UTF-8. An error is
-- its format with its operands. A Go map is an association list, and the order in which Go reads
-- its keys is a parameter. Methods that change their receiver return it changed. A panic is `none`
-- where a definition says so. A time is the civil fields and the location that ParseInLocation
-- gives to time.Date; durations are integers of nanoseconds, and floats are known by their bits. An
-- HTTP request comes with its query and its body as net/http parses them, and what it has written
-- is the list of its answers; newRequestContext reads the form behind the call that parses it, an
-- order that Go leaves open.
--
-- What is not under the repository's root is a parameter: the execution of templates, regexp, the
-- parsing of floats, the time zone database and url.QueryUnescape (Externals, Platform), the
-- evaluation of a policy (Policy), the YAML decoder (Document), the file system's faults (Faults),
-- JSON (System), the databases and their migrations (Drivers, Reply), the login provider (Gate),
-- chi's choice of a handler (Routing) and the patterns that its Mount takes without a panic
-- (takes), the largest channels that can be allocated (Host), the parser of views (Sources), the
-- HTTP client (Network, Service) and the AMQP broker (Broker). What a call does depends on the
-- number of the attempt, so a service may fail and recover. Where `select` has two ready cases,
-- which one it takes is a parameter too.
--
-- Fuel: the loops that retry run on fuel of one attempt more than the retries, which the results
-- below show to be enough; the digits of a number n are written with fuel n + 1. All other loops
-- are over lists.
--
-- Not modelled: what LoadAndSave does behind the handler, logging (also LoggerFunc and
-- toLogErrors), embedded views and assets. Goroutines are lists: the notifications of a request,
-- which Go sends in parallel and waits for, and the tasks of run, whose errors Go keeps in the
-- order in which the tasks end.
pub mod Prelude
pub mod Golang
pub mod Utils
pub mod Schema
pub mod Web
pub mod Engine
pub mod Storage
pub mod Notifications
pub mod Program
pub mod Examples
