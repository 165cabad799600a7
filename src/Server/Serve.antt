-- ===== src/Server/Serve.antt =====
-- `Handler` as a whole: the host check around the API with its authentication, the health report and
-- the web UI with the injected token.
use tab_vm.Strings.{Text, txt, text_eq, is_empty, has_prefix, drop, trim_prefix, has_suffix}
use tab_vm.Strings.Number.{itoa}
use tab_vm.Prelude.{
  if◌then◌else◌, length, ℕ, zero, suc, ◌-◌, Bool, not, ◌&&◌, ◌||◌, Option, none, some, List, [],
  ◌∷◌, ◌++◌,
}
use tab_vm.Server.{
  Config, Api, Platform, Act, ServerState, http_error, Reply, respond, page, file,
  method_not_allowed,
}
use tab_vm.Server.Requests.{Request, health}
use tab_vm.Server.Handlers.Routes.{handle_get, api_mux}
use tab_vm.Server.Access.{with_host_check, resolve_token, with_auth}

-- `strings.ReplaceAll` and `strings.Replace` of one occurrence, of a text that is not empty; the first
-- argument counts the bytes of an occurrence that are still to be skipped.
unfoldable pub replace_from : ℕ → Text → Text → Text → Text
replace_from skip old new [] = []
replace_from (suc skip) old new (c ∷ s) = replace_from skip old new s
replace_from zero old new (c ∷ s) =
    let found = has_prefix (c ∷ s) old in
    let rest = replace_from (if found then length old - 1 else 0) old new s in
    if found then new ++ rest else c ∷ rest

unfoldable pub replace_first : Text → Text → Text → Text
replace_first old new [] = []
replace_first old new (c ∷ s) =
    let rest = replace_first old new s in
    if has_prefix (c ∷ s) old then new ++ drop (length old) (c ∷ s) else c ∷ rest

-- `strings.Join` with `; `.
unfoldable pub joined : List Text → Text
joined [] = []
joined (t ∷ []) = t
joined (t ∷ ts) = t ++ (txt "; " ++ joined ts)

unfoldable pub listen_address : Config → Text
listen_address c = c.bind_address ++ (b':' ∷ itoa c.bind_port)

unfoldable pub content_security_policy : Config → Text → Text
content_security_policy c nonce = joined (
    txt "default-src 'self'"
    ∷ (txt "script-src 'self' 'nonce-" ++ (nonce ++ txt "'"))
    ∷ txt "style-src 'self' 'unsafe-inline'"
    ∷ txt "img-src 'self' data: blob:"
    ∷ txt "media-src 'self'"
    ∷ txt "font-src 'self'"
    ∷ (txt "connect-src 'self' ws://"
        ++ (listen_address c ++ (txt " ws://localhost:" ++ itoa c.bind_port)))
    ∷ txt "frame-ancestors 'none'"
    ∷ txt "base-uri 'none'"
    ∷ txt "form-action 'none'"
    ∷ txt "object-src 'none'"
    ∷ [])

abbrev pub inline_script_nonce_marker : Text
inline_script_nonce_marker = txt "data-tabvm-nonce"

-- The document with the nonce, and the token as a JSON text.
unfoldable pub index_page : Text → Text → Text → Text
index_page template nonce token_json =
    replace_first (txt "</head>")
      (txt "<script nonce=\""
        ++ (nonce
            ++ (txt "\">window.__TABVM_SESSION_TOKEN__="
                ++ (token_json ++ txt ";</script></head>"))))
      (replace_from 0 inline_script_nonce_marker (txt "nonce=\"" ++ (nonce ++ txt "\"")) template)

module _ {S P : Type 0} (api : Api S P) (config : Config) (platform : Platform S) where
  abbrev pub web_ui_unavailable : Act S P
  web_ui_unavailable = http_error 500 (txt "Web UI is unavailable.")

  abbrev pub with_page : Text → Text × ServerState S → Reply P × ServerState S
  with_page nonce (token, s) =
      respond 200
        (page (index_page platform.index_template nonce (platform.json_text token))
          (content_security_policy config nonce))
        s

  abbrev pub with_nonce : ServerState S → Option Text × S → Reply P × ServerState S
  with_nonce s (none, w) = web_ui_unavailable (record s { service = w })
  with_nonce s (some nonce, w) =
      with_page nonce (resolve_token config platform (record s { service = w }))

  unfoldable pub serve_index : Act S P
  serve_index s = with_nonce s (platform.new_nonce s.service)

  abbrev pub is_file_path : Text → Bool
  is_file_path path =
      let clean = trim_prefix path (b'/' ∷ []) in
      not (is_empty clean) && not (has_suffix path (b'/' ∷ [])) && platform.web_file clean

  -- `staticHandler`, with embedded files that can be opened.
  unfoldable pub static_handler : Request → Act S P
  static_handler r =
      if text_eq r.method (txt "GET") || text_eq r.method (txt "HEAD")
      then (if is_file_path r.path then respond 200 (file r.path) else serve_index)
      else method_not_allowed

  -- The prefix `/api` is stripped before the authentication.
  abbrev pub below_api : Request → Request
  below_api r = record r { path = trim_prefix r.path (txt "/api") }

  unfoldable pub outer_mux : Request → Act S P
  outer_mux r =
      if text_eq r.path (txt "/health")
      then handle_get api platform health r
      else (if has_prefix r.path (txt "/api/")
          then with_auth config platform (api_mux api platform) (below_api r)
          else static_handler r)

  -- `Handler`.
  unfoldable pub serve : Request → Act S P
  serve = with_host_check platform outer_mux
