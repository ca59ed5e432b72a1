-- ===== src/Tests/Http.antt =====
-- Runs of the HTTP proxy, and its theorems at concrete data.
use scramjet_app.Http.{
  serve, http_server, Network, HttpServer, Request, authenticate, dialed, target_addr, respond,
  forward_request, established, not_matching, copy_both_ways, close_peer, valid, serve_method,
  handle, handle_conn, finish, response_with, Event,
}
use scramjet_app.Http.Serve.{
  released, closes_client, opened, is_some, is_connect, released-serve, tunnelled, is_get,
  closes_client-serve, serve_dials,
}
use scramjet_app.Go.Base64.Laws.{encode_base64, alphabet}
use scramjet_app.Config.{HttpConfig}
use scramjet_app.Go.Strings.{has_byte, trim_prefix, has_prefix, split_n2, cut, contains}
use scramjet_app.Go.Net.{split_host_port, addr_error, join_host_port, missing_port}
use scramjet_app.Http.Auth.{Carries, authenticate_iff, authenticate-basic_auth}
use scramjet_app.Go.Base64.{decode_base64}
use scramjet_app.Go.Net.Laws.{NoBrackets}
use scramjet_app.Go.Strings.Laws.{has_byte-Lacks}
use scramjet_app.Http.Target.{split_host_port-target_addr, target_addr_ipv6}
use scramjet_app.Go.Strconv.{itoa_ℕ}
use scramjet_app.Base.{
  Bytes, Lacks, List, Option, [], any, arith, bytes, bytes_eq, false, if◌then◌else◌, none, not, ok,
  refl, some, true, ◌&&◌, ◌++◌, ◌||◌, ◌↔◌, ◌∷◌, ◌≡◌,
}

abbrev config : HttpConfig
config = record {
  bind_address = bytes "127.0.0.1:25345";
  username = bytes "me";
  password = bytes "a:b";
  cert_file = [];
  key_file = [];
}

abbrev server : HttpServer
server = record {
  config = config;
  auth = record { username = bytes "me"; password = bytes "a:b" };
  auth_required = true;
  tls_required = false;
}

abbrev request : Request
request = record {
  method = bytes "CONNECT";
  host = bytes "example";
  proto = bytes "HTTP/1.1";
  proxy_authorization = bytes "Basic bWU6YTpi";
}

abbrev network : Network
network = record { dial = λ addr. some 7; client_writable = true; peer_writable = false }

runs : Option Request → List Event
unfolding serve authenticate decode_base64 trim_prefix has_prefix split_n2 cut valid bytes_eq
    serve_method handle handle_conn finish target_addr contains join_host_port has_byte
    response_with itoa_ℕ http_server
runs = serve server network

built : http_server config ≡ server
unfolding runs
built = refl

connect :
    serve server network (some request)
    ≡ dialed (bytes "example:443") ∷ established ∷ copy_both_ways 7 ∷ []
unfolding runs
connect = refl

get_fails :
    serve server network (some (record request { method = bytes "GET" }))
    ≡ dialed (bytes "example:80") ∷ forward_request 7 ∷ close_peer 7 ∷ []
unfolding runs
get_fails = refl

refused :
    serve server network (some (record request { proxy_authorization = [] }))
    ≡ respond (record {
      status_code = 407;
      status = bytes "Proxy Authentication Required";
      proto = bytes "HTTP/1.1";
      header =
          (bytes "Proxy-Authenticate", bytes "Basic realm=" ++ (34 ∷ bytes "Proxy" ++ 34 ∷ []))
          ∷ [];
      body = bytes "wireproxy: HTTP/1.1 407 Proxy Authentication Required" ++ 13 ∷ 10 ∷ [];
    })
      ∷ []
unfolding runs
refused = refl

authenticate_iff_example :
    (authenticate server request ≡ (0, none)) ↔ Carries request (bytes "me") (bytes "a:b")
authenticate_iff_example = authenticate_iff server request refl

authenticate-basic_auth_example : authenticate (http_server config) request ≡ (
    if bytes_eq (bytes "me") (bytes "me") && bytes_eq (bytes "a:b") (bytes "a:b")
    then (0, none)
    else (401, some not_matching))
unfolding runs encode_base64 alphabet
authenticate-basic_auth_example =
    authenticate-basic_auth config request (bytes "me") (bytes "a:b") refl (omega arith)
      (omega arith) ((has_byte-Lacks b':' (bytes "me")).0 refl) refl

serve_dials_example :
    ((authenticate server request).1 ≡ none) × ((is_connect request || is_get request) ≡ true)
unfolding runs
serve_dials_example = serve_dials server network request refl

released-serve_example :
    released (serve server network (some request))
    ≡ opened network (serve server network (some request))
released-serve_example = released-serve server network (some request)

closes_client-serve_example :
    any closes_client (serve server network (some request))
    ≡ (not (is_some (authenticate server request).1) && tunnelled network request)
closes_client-serve_example = closes_client-serve server network request

no_brackets : (s : Bytes) → has_byte b'[' s ≡ false → has_byte b']' s ≡ false → NoBrackets s
no_brackets s h k = ((has_byte-Lacks b'[' s).0 h, (has_byte-Lacks b']' s).0 k)

split_host_port-target_addr_example :
    (Lacks b':' (bytes "example")
      → split_host_port (target_addr (bytes "80") (bytes "example"))
        ≡ ok (bytes "example", bytes "80"))
    × (split_host_port (target_addr (bytes "80") (join_host_port (bytes "example") (bytes "8080")))
        ≡ ok (bytes "example", bytes "8080"))
unfolding runs
split_host_port-target_addr_example =
    split_host_port-target_addr (bytes "80") (bytes "example") (bytes "8080")
      (no_brackets (bytes "example") refl refl) (no_brackets (bytes "8080") refl refl)
      (no_brackets (bytes "80") refl refl) ((has_byte-Lacks b':' (bytes "8080")).0 refl)
      ((has_byte-Lacks b':' (bytes "80")).0 refl)

target_addr_ipv6_example :
    split_host_port (target_addr (bytes "80") (bytes "[::1]"))
    ≡ addr_error (bytes "[::1]") missing_port
unfolding runs
target_addr_ipv6_example =
    target_addr_ipv6 (bytes "80") (bytes "::1") (no_brackets (bytes "::1") refl refl) refl
