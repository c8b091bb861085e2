-- ===== src/Server/Pages.antt =====
-- cmd/server/main.go: the routes, the pages that main answers itself, and the files of the dashboard. Package
-- version and the page of internal/adminui are here, too.
use sounding.Prelude.{
  Bool, true, false, ◌&&◌, not, ◌∷◌, ◌++◌, [], List, Option, none, some, Text, bytes, same,
  is_empty, or_else, any, find_first, length, ltb, if◌then◌else◌,
}
use sounding.Strings.{strip, after_last}
use sounding.Rpc.Types.{Settings}
use sounding.Rpc.Settings.{public_settings}
use sounding.Api.{Env, Request, Response, refused}
use sounding.Api.Login.{LoginEndpoint, is_signed_in}

-- What a route leads to.
pub data Page : Type 0 where
  rpc : Page
  admin_ui : Page
  config : Page
  healthz : Page
  agent_status : Page
  login : Page
  me2 : Page
  admin_api : Page
  me : Page
  public : Page
  version : Page
  dashboard : Page

-- The pages for those who log in, which a password turns on.
unfoldable pub login_routes : Text → List (Text × Page)
login_routes [] = []
login_routes (c ∷ pass) = (bytes "/api/login", Page.login) ∷ (bytes "/api/me2", Page.me2) ∷ []

-- The dashboard is the subtree of all paths.
unfoldable pub dashboard_routes : Text → List (Text × Page)
dashboard_routes [] = []
dashboard_routes (c ∷ dir) = (bytes "/", Page.dashboard) ∷ []

-- The patterns in the order in which main registers them, but for the dashboard's.
unfoldable pub page_routes : Text → List (Text × Page)
unfolding login_routes
page_routes admin_pass =
    (bytes "/rpc2", Page.rpc)
      ∷ (bytes "/api/rpc2", Page.rpc)
      ∷ (bytes "/admin/", Page.admin_ui)
      ∷ (bytes "/agent/config", Page.config)
      ∷ (bytes "/healthz", Page.healthz)
      ∷ (bytes "/agent/status", Page.agent_status)
      ∷ login_routes admin_pass
    ++ (bytes "/api/admin/nodes", Page.admin_api)
      ∷ (bytes "/api/admin/probes", Page.admin_api)
      ∷ (bytes "/api/admin/alerts", Page.admin_api)
      ∷ (bytes "/me", Page.me)
      ∷ (bytes "/public", Page.public)
      ∷ (bytes "/version", Page.version)
      ∷ (bytes "/api/me", Page.me)
      ∷ (bytes "/api/public", Page.public)
      ∷ (bytes "/api/version", Page.version)
      ∷ []

unfoldable pub routes : Text → Text → List (Text × Page)
unfolding page_routes dashboard_routes
routes admin_pass static_dir = page_routes admin_pass ++ dashboard_routes static_dir

-- What http.ServeMux does with a path.
pub data Routed : Type 0 where
  page : Page → Routed
  redirect : (path : Text) → Routed
  missing : Routed

-- A pattern that ends in a slash stands for the paths under it.
unfoldable pub is_subtree : Text → Bool
is_subtree pattern = elim (after_last b'/' pattern) [ none ↦ false | some rest ↦ is_empty rest ]

unfoldable pub is_under : Text → Text × Page → Bool
unfolding is_subtree
is_under path (pattern, p) =
    is_subtree pattern && elim (strip pattern path) [ none ↦ false | some rest ↦ true ]

-- Of two routes, the one with the longer pattern.
unfoldable pub longer : Text × Page → Option (Text × Page) → Text × Page
longer r none = r
longer r (some s) = if ltb (length r.0) (length s.0) then s else r

unfoldable pub longest : Text → List (Text × Page) → Option (Text × Page)
unfolding is_under longer
longest path [] = none
longest path (r ∷ rs) =
    let rest = longest path rs in if is_under path r then some (longer r rest) else rest

-- A path that is a pattern goes to its page, one that lacks the slash of a pattern is sent there, and any other
-- goes to the longest pattern that it is under.
unfoldable pub route_of : List (Text × Page) → Text → Routed
unfolding longest
route_of rs path = elim (find_first (λ r. same r.0 path) rs) [
  | some r ↦ page r.1
  | none ↦
      if any (λ r. same r.0 (path ++ bytes "/")) rs
      then redirect (path ++ bytes "/")
      else elim (longest path rs) [ some r ↦ page r.1 | none ↦ missing ]
]

-- `Version`, `Commit` and `String` of package version.
pub record Build : Type 0 where
  pub version : Text
  pub commit : Text

unfoldable pub version_text : Build → Text
version_text b =
    if is_empty b.commit then b.version else b.version ++ bytes " (" ++ b.commit ++ bytes ")"

-- The bodies of the pages that main answers itself; the page of the administration is text.
pub data Body : Type 0 where
  session : (logged_in : Bool) → Body
  settings : Settings → Body
  build : (version hash : Text) → Body
  user : (username : Text) → Body
  html : Text → Body
  refusal : Response → Body

-- `AuthMiddleware` around the page of /api/me2.
unfoldable pub me2_page : LoginEndpoint → Env → Text → Request → Body
me2_page h env admin_user r =
    if is_signed_in h env r then user admin_user else refusal (refused 401 (bytes "unauthorized"))

-- The page of a route, if main answers it itself.
unfoldable pub own_page : LoginEndpoint → Env → Text → Build → Text → Request → Page → Option Body
unfolding me2_page
own_page h env admin_user b index_html r Page.me = some (session false)
own_page h env admin_user b index_html r Page.public = some (settings public_settings)
own_page h env admin_user b index_html r Page.version = some (build b.version b.commit)
own_page h env admin_user b index_html r Page.me2 = some (me2_page h env admin_user r)
own_page h env admin_user b index_html r Page.admin_ui = some (html index_html)
own_page h env admin_user b index_html r Page.rpc = none
own_page h env admin_user b index_html r Page.config = none
own_page h env admin_user b index_html r Page.healthz = none
own_page h env admin_user b index_html r Page.agent_status = none
own_page h env admin_user b index_html r Page.login = none
own_page h env admin_user b index_html r Page.admin_api = none
own_page h env admin_user b index_html r Page.dashboard = none

-- The directory of the dashboard: the flag, or the first of two that is there.
unfoldable pub find_static : (Text → Bool) → Text → Text
find_static is_dir given =
    or_else given
      (elim (find_first is_dir (bytes "./admin" ∷ bytes "/var/lib/sounding/admin" ∷ [])) [
        | none ↦ []
        | some dir ↦ dir
      ])

-- The file that is served for a path: what is not there, other than the root, is the dashboard's index.
unfoldable pub static_file : (Text → Text) → (Text → Bool) → Text → Text
static_file in_dir is_there path =
    if not (is_there (in_dir path)) && not (same path (bytes "/"))
    then in_dir (bytes "index.html")
    else in_dir path

-- `envOr`, of the variable's value.
unfoldable pub env_or : Text → Text → Text
env_or value def = or_else value def
