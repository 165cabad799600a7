-- ===== src/Server/Access.antt =====
-- Who may call the server: `withHostCheck`, `isLoopbackAuthority`, `withAuth`, `resolveToken` (server.go)
-- and the token of the streams (screenstream.go, serialstream.go).
use tab_vm.Strings.{
  Text, txt, text_eq, is_empty, equal_fold, trim, trim_space, has_prefix, trim_prefix, has_suffix,
  split,
}
use tab_vm.Prelude.{
  ◌==◌, if◌then◌else◌, ℕ, Bool, true, false, not, ◌&&◌, ◌||◌, Option, none, some, List, [], ◌∷◌,
}
use tab_vm.Server.{Platform, Config, Act, ServerState, http_error, Reply}
use tab_vm.Server.Requests.{Request}

abbrev is_bracket : ℕ → Bool
is_bracket c = c == b'[' || c == b']'

abbrev host_part : Text → Option Text → Text
host_part authority none = authority
host_part authority (some host) = host

abbrev loopback : Option Bool → Bool
loopback none = false
loopback (some b) = b

module _ {S : Type 0} (platform : Platform S) where
  unfoldable pub is_loopback_authority : Text → Bool
  is_loopback_authority authority =
      let host = trim is_bracket (host_part authority (platform.split_host authority)) in
      if equal_fold host (txt "localhost") then true else loopback (platform.ip_is_loopback host)

  unfoldable pub with_host_check : {P : Type 0} → (Request → Act S P) → Request → Act S P
  with_host_check next r =
      if is_loopback_authority r.host then next r else http_error 421 (txt "Invalid Host header.")

  unfoldable pub constant_time_equal : Text → Text → Bool
  constant_time_equal a b = text_eq (platform.digest a) (platform.digest b)

abbrev pub token_prefix : Text
token_prefix = txt "tabvm.token."

unfoldable pub first_token : List Text → Option Text
first_token [] = none
first_token (p ∷ ps) =
    if has_prefix (trim_space p) token_prefix then some (trim_space p) else first_token ps

abbrev or_token : Option Text → Option Text → Option Text
or_token none rest = rest
or_token (some p) rest = some p

unfoldable pub token_subprotocol : List Text → Option Text
token_subprotocol [] = none
token_subprotocol (value ∷ values) =
    or_token (first_token (split value b',')) (token_subprotocol values)

abbrev token_or : Text → Option Text → Text
token_or fallback none = fallback
token_or fallback (some p) = trim_prefix p token_prefix

unfoldable pub stream_token_from_request : Request → Text
stream_token_from_request r = token_or r.query_token (token_subprotocol r.protocols)

abbrev is_slash : ℕ → Bool
is_slash c = c == b'/'

-- `/vms/{id}/…` with this last part.
abbrev three_parts : Text → List Text → Bool
three_parts name (a ∷ b ∷ c ∷ []) = text_eq a (txt "vms") && text_eq c name
three_parts name _ = false

unfoldable pub is_stream_path : Text → Text → Bool
is_stream_path name path =
    has_suffix path (b'/' ∷ name) && three_parts name (split (trim is_slash path) b'/')

module _ {S : Type 0} (config : Config) (platform : Platform S) where
  abbrev pub kept_token : ServerState S → Option Text × S → Text × ServerState S
  kept_token s (none, w) = ([], record s { service = w })
  kept_token s (some token, w) = (token, record s { service = w; dev_token = token })

  unfoldable pub resolve_token : ServerState S → Text × ServerState S
  resolve_token s =
      if not (is_empty config.session_token)
      then (config.session_token, s)
      else (if equal_fold config.environment (txt "Development")
          then (if is_empty s.dev_token
              then kept_token s (platform.new_token s.service)
              else (s.dev_token, s))
          else ([], s))

  unfoldable pub presented_token : Request → Text
  presented_token r =
      if is_empty r.session_token
        && (is_stream_path (txt "screen-stream") r.path
            || is_stream_path (txt "serial-stream") r.path)
      then stream_token_from_request r
      else r.session_token

  abbrev pub authorized :
      {P : Type 0} → (Request → Act S P) → Request → Text × ServerState S → Reply P × ServerState S
  authorized next r (token, s) =
      if is_empty token
      then http_error 401 (txt "Session token is not configured.") s
      else (if is_empty (presented_token r)
            || not (constant_time_equal platform (presented_token r) token)
          then http_error 401 (txt "Invalid or missing session token.") s
          else next r s)

  unfoldable pub with_auth : {P : Type 0} → (Request → Act S P) → Request → Act S P
  with_auth next r s = authorized next r (resolve_token s)
