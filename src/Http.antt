-- ===== src/Http.antt =====
-- wireproxy/http.go, wireproxy/util.go and, of wireproxy/routine.go, `CredentialValidator` and the
-- server that `HTTPConfig.SpawnRoutine` builds.
pub mod Auth
pub mod Serve
pub mod Target
pub mod Listen
use Prim.Native.Nat.{bit_and}
use scramjet_app.Base.{
  Bool, Bytes, List, Option, [], bytes, bytes_eq, false, if◌then◌else◌, none, not, some, true, ℕ,
  ◌&&◌, ◌++◌, ◌==◌, ◌||◌, ◌∷◌,
}
use scramjet_app.Config.{HttpConfig}
use scramjet_app.Go.Base64.{decode_base64}
use scramjet_app.Go.Net.{join_host_port}
use scramjet_app.Go.Strconv.{itoa_ℕ}
use scramjet_app.Go.Strings.{contains, split_n2, trim_prefix}

-- `CredentialValidator`
pub record CredentialValidator : Type 0 where
  pub username : Bytes
  pub password : Bytes

-- `subtle.ConstantTimeCompare`
unfoldable pub constant_time_compare : Bytes → Bytes → ℕ
constant_time_compare x y = if bytes_eq x y then 1 else 0

-- `CredentialValidator.Valid`
unfoldable pub valid : CredentialValidator → Bytes → Bytes → Bool
unfolding constant_time_compare
valid c username password =
    let u = constant_time_compare c.username username in
    let p = constant_time_compare c.password password in bit_and u p == 1

-- `HTTPServer`, less its `dial` function, which `serve` takes.
pub record HttpServer : Type 0 where
  pub config : HttpConfig
  pub auth : CredentialValidator
  pub auth_required : Bool
  pub tls_required : Bool

abbrev pub is_set : Bytes → Bool
is_set s = not (bytes_eq s [])

-- The server that `HTTPConfig.SpawnRoutine` builds.
unfoldable pub http_server : HttpConfig → HttpServer
http_server config = record {
  config = config;
  auth = record { username = config.username; password = config.password };
  auth_required = is_set config.username || is_set config.password;
  tls_required = is_set config.cert_file && is_set config.key_file;
}

-- What the server reads of an `http.Request`; a header that is missing is "".
pub record Request : Type 0 where
  pub method : Bytes
  pub host : Bytes
  pub proto : Bytes
  pub proxy_authorization : Bytes

-- The errors of `authenticate`, whose texts are only logged.
pub data AuthError : Type 0 where
  auth_required_error decode_failed format_invalid not_matching : AuthError

-- The tests of the decoded credentials.
abbrev pub check_pairs : CredentialValidator → List Bytes → ℕ × Option AuthError
check_pairs auth (username ∷ password ∷ []) =
    if valid auth username password then (0, none) else (401, some not_matching)
check_pairs auth _ = (411, some format_invalid)

abbrev pub check_decoded : CredentialValidator → Option Bytes → ℕ × Option AuthError
check_decoded auth none = (406, some decode_failed)
check_decoded auth (some str) = check_pairs auth (split_n2 b':' str)

-- `HTTPServer.authenticate`: a status code and an error.
unfoldable pub authenticate : HttpServer → Request → ℕ × Option AuthError
authenticate s req =
    if not s.auth_required
    then (0, none)
    else if bytes_eq req.proxy_authorization []
    then (407, some auth_required_error)
    else check_decoded s.auth (decode_base64 (trim_prefix req.proxy_authorization (bytes "Basic ")))

-- `http.StatusText`, for the codes that the proxy answers with.
unfoldable pub status_text : ℕ → Bytes
status_text code =
    if code == 401
    then bytes "Unauthorized"
    else if code == 405
    then bytes "Method Not Allowed"
    else if code == 406
    then bytes "Not Acceptable"
    else if code == 407
    then bytes "Proxy Authentication Required"
    else if code == 411
    then bytes "Length Required"
    else []

pub record Response : Type 0 where
  pub status_code : ℕ
  pub status : Bytes
  pub proto : Bytes
  pub header : List (Bytes × Bytes)
  pub body : Bytes

-- `responseWith`
unfoldable pub response_with : Request → ℕ → Response
unfolding status_text
response_with req status_code = record {
  status_code = status_code;
  status = status_text status_code;
  proto = req.proto;
  header = [];
  body =
      bytes "wireproxy: "
      ++ (req.proto
          ++ (bytes " "
              ++ (itoa_ℕ status_code ++ (bytes " " ++ (status_text status_code ++ 13 ∷ 10 ∷ [])))));
}

-- The address to dial: the request's host, with a port where it names none.
unfoldable pub target_addr : Bytes → Bytes → Bytes
target_addr port host = if not (contains host (bytes ":")) then join_host_port host port else host

-- What a connection does, in order. Peers are numbered by `dial`.
pub data Event : Type 0 where
  dialed : Bytes → Event
  respond : Response → Event
  established : Event
  forward_request : ℕ → Event
  close_peer : ℕ → Event
  -- the two goroutines, each of which closes both connections after its copy
  copy_both_ways : ℕ → Event

-- The environment of one connection: what dialing an address gives, and whether writing to the
-- client and to the peer works.
pub record Network : Type 0 where
  pub dial : Bytes → Option ℕ
  pub client_writable : Bool
  pub peer_writable : Bool

-- What a handler did, the peer that it returns (nil or not), and whether it returns an error.
pub record Handled : Type 0 where
  pub events : List Event
  pub peer : Option ℕ
  pub failed : Bool

-- `HTTPServer.handleConn`
unfoldable pub handle_conn : Network → Request → Handled
handle_conn net req =
    let addr = target_addr (bytes "443") req.host in
    elim (net.dial addr) [
      | none ↦ record { events = dialed addr ∷ []; peer = none; failed = true }
      | some peer ↦
          if net.client_writable
          then record { events = dialed addr ∷ established ∷ []; peer = some peer; failed = false }
          else record {
            events = dialed addr ∷ established ∷ close_peer peer ∷ [];
            peer = none;
            failed = true;
          }
    ]

-- `HTTPServer.handle`
unfoldable pub handle : Network → Request → Handled
handle net req =
    let addr = target_addr (bytes "80") req.host in
    elim (net.dial addr) [
      | none ↦ record { events = dialed addr ∷ []; peer = none; failed = true }
      | some peer ↦
          if net.peer_writable
          then record {
            events = dialed addr ∷ forward_request peer ∷ [];
            peer = some peer;
            failed = false;
          }
          else record {
            events = dialed addr ∷ forward_request peer ∷ close_peer peer ∷ [];
            peer = none;
            failed = true;
          }
    ]

-- The end of `serve`, after the `switch`.
abbrev pub copy_if : Bool → Option ℕ → List Event
copy_if true peer = []
copy_if false none = []
copy_if false (some peer) = copy_both_ways peer ∷ []

unfoldable pub finish : Handled → List Event
finish h = h.events ++ copy_if h.failed h.peer

abbrev pub refusal : Request → ℕ → Response
refusal req code =
    if code == 407
    then record (response_with req code) {
      header = (bytes "Proxy-Authenticate", bytes "Basic realm=\"Proxy\"") ∷ [];
    }
    else response_with req code

-- The `switch` over the method.
unfoldable pub serve_method : Network → Request → List Event
serve_method net req =
    if bytes_eq req.method (bytes "CONNECT")
    then finish (handle_conn net req)
    else if bytes_eq req.method (bytes "GET")
    then finish (handle net req)
    else respond (response_with req 405) ∷ []

-- What `serve` does after `authenticate`, by its result.
abbrev pub answer : Network → Request → ℕ → Option AuthError → List Event
answer net req code (some _) = respond (refusal req code) ∷ []
answer net req code none = serve_method net req

-- `HTTPServer.serve`; `none` is a request that cannot be read.
unfoldable pub serve : HttpServer → Network → Option Request → List Event
serve s net none = []
serve s net (some req) = let (code, error) = authenticate s req in answer net req code error
