-- ===== src/Server/PageTests.antt =====
-- cmd/server/main.go: paths, versions and files, tried out.
use sounding.Prelude.{◌≡◌, refl, false, [], bytes, same}
use sounding.Strings.{after_last, strip}
use sounding.Server.Pages.{
  Page, page, redirect, missing, routes, route_of, version_text, find_static, static_file,
}

login_without_password : route_of (routes [] []) (bytes "/api/login") ≡ missing
unfolding route_of routes same bytes after_last strip
login_without_password = refl

login_with_password : route_of (routes (bytes "secret") []) (bytes "/api/login") ≡ page Page.login
unfolding route_of routes same bytes after_last strip
login_with_password = refl

admin_without_slash :
    route_of (routes [] (bytes "./admin")) (bytes "/admin") ≡ redirect (bytes "/admin/")
unfolding route_of routes same bytes after_last strip
admin_without_slash = refl

admin_subtree : route_of (routes [] (bytes "./admin")) (bytes "/admin/x") ≡ page Page.admin_ui
unfolding route_of routes same bytes after_last strip
admin_subtree = refl

node_page : route_of (routes [] (bytes "./admin")) (bytes "/node/n1") ≡ page Page.dashboard
unfolding route_of routes same bytes after_last strip
node_page = refl

dev_version : version_text (record { version = bytes "dev"; commit = [] }) ≡ bytes "dev"
unfolding version_text bytes
dev_version = refl

second_directory :
    find_static (same (bytes "/var/lib/sounding/admin")) [] ≡ bytes "/var/lib/sounding/admin"
unfolding find_static same bytes
second_directory = refl

single_page : static_file (λ p. p) (λ p. false) (bytes "/node/n1") ≡ bytes "index.html"
unfolding static_file same bytes
single_page = refl
