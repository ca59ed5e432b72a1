-- ===== src/Http/Serve.antt =====
-- What `serve` does with a connection.
use scramjet_app.Base.{
  Bool, List, Option, [], any, arith, bytes, bytes_eq, false, if◌then◌else◌, none, not, refl, some,
  suc, true, ℕ, ◌&&◌, ◌+◌, ◌||◌, ◌∷◌, ◌≡◌,
}
use scramjet_app.Http.{
  HttpServer, Network, Request, Event, authenticate, handle, handle_conn, finish, serve_method,
  serve, copy_both_ways, close_peer, dialed, AuthError, target_addr, answer,
}

abbrev pub is_dial : Event → Bool
is_dial (dialed addr) = true
is_dial _ = false

-- The goroutines that close the client's connection.
abbrev pub closes_client : Event → Bool
closes_client (copy_both_ways peer) = true
closes_client _ = false

abbrev pub is_some {ℓ} : {A : Type ℓ} → Option A → Bool
is_some none = false
is_some (some a) = true

abbrev pub is_connect : Request → Bool
is_connect req = bytes_eq req.method (bytes "CONNECT")

abbrev pub is_get : Request → Bool
is_get req = bytes_eq req.method (bytes "GET")

method_dials :
    (net : Network) (req : Request)
    → any is_dial (serve_method net req) ≡ true
    → (is_connect req || is_get req) ≡ true
unfolding serve_method
method_dials net req h = ground arith

answer_dials :
    (net : Network) (req : Request) (code : ℕ) (error : Option AuthError)
    → any is_dial (answer net req code error) ≡ true
    → (error ≡ none) × ((is_connect req || is_get req) ≡ true)
answer_dials net req code none h = (refl, method_dials net req h)
answer_dials net req code (some e) h = cc

-- The network is used only for a request that `authenticate` lets through and whose method is
-- CONNECT or GET.
pub serve_dials :
    (s : HttpServer) (net : Network) (req : Request)
    → any is_dial (serve s net (some req)) ≡ true
    → ((authenticate s req).1 ≡ none) × ((is_connect req || is_get req) ≡ true)
unfolding serve
serve_dials s net req h = answer_dials net req (authenticate s req).0 (authenticate s req).1 h

-- The number of connections to peers that the events open.
abbrev pub opened : Network → List Event → ℕ
opened net [] = 0
opened net (dialed addr ∷ events) = (if is_some (net.dial addr) then 1 else 0) + opened net events
opened net (_ ∷ events) = opened net events

-- The number that they close, or hand to the two goroutines, which close them.
abbrev pub released : List Event → ℕ
released [] = 0
released (close_peer peer ∷ events) = suc (released events)
released (copy_both_ways peer ∷ events) = suc (released events)
released (_ ∷ events) = released events

released-handle_conn :
    (net : Network) (req : Request)
    → released (finish (handle_conn net req)) ≡ opened net (finish (handle_conn net req))
unfolding handle_conn finish
released-handle_conn net req = ground arith

released-handle :
    (net : Network) (req : Request)
    → released (finish (handle net req)) ≡ opened net (finish (handle net req))
unfolding handle finish
released-handle net req = ground arith

released-serve_method :
    (net : Network) (req : Request)
    → released (serve_method net req) ≡ opened net (serve_method net req)
unfolding serve_method
released-serve_method net req =
    ground (arith, released-handle_conn net req, released-handle net req)

released-answer :
    (net : Network) (req : Request) (code : ℕ) (error : Option AuthError)
    → released (answer net req code error) ≡ opened net (answer net req code error)
released-answer net req code none = released-serve_method net req
released-answer net req code (some e) = refl

-- Every connection to a peer that is opened is closed or handed to the goroutines that close it, on
-- every path.
pub released-serve :
    (s : HttpServer) (net : Network) (r : Option Request)
    → released (serve s net r) ≡ opened net (serve s net r)
unfolding serve
released-serve s net none = refl
released-serve s net (some req) =
    released-answer net req (authenticate s req).0 (authenticate s req).1

-- The request is tunnelled: its method is CONNECT, its address can be dialed and the client told;
-- or its method is GET, its address can be dialed and the request passed on.
abbrev pub tunnelled : Network → Request → Bool
tunnelled net req =
    if is_connect req
    then is_some (net.dial (target_addr (bytes "443") req.host)) && net.client_writable
    else is_get req && (is_some (net.dial (target_addr (bytes "80") req.host)) && net.peer_writable)

closes_client-handle_conn :
    (net : Network) (req : Request)
    → any closes_client (finish (handle_conn net req))
      ≡ (is_some (net.dial (target_addr (bytes "443") req.host)) && net.client_writable)
unfolding handle_conn finish
closes_client-handle_conn net req = ground arith

closes_client-handle :
    (net : Network) (req : Request)
    → any closes_client (finish (handle net req))
      ≡ (is_some (net.dial (target_addr (bytes "80") req.host)) && net.peer_writable)
unfolding handle finish
closes_client-handle net req = ground arith

closes_client-serve_method :
    (net : Network) (req : Request) → any closes_client (serve_method net req) ≡ tunnelled net req
unfolding serve_method
closes_client-serve_method net req =
    ground (arith, closes_client-handle_conn net req, closes_client-handle net req)

closes_client-answer :
    (net : Network) (req : Request) (code : ℕ) (error : Option AuthError)
    → any closes_client (answer net req code error) ≡ (not (is_some error) && tunnelled net req)
closes_client-answer net req code none = closes_client-serve_method net req
closes_client-answer net req code (some e) = refl

-- The client's connection is closed exactly when the request is let through and tunnelled. After a
-- refusal, an unsupported method or a failed dial it is left open.
pub closes_client-serve :
    (s : HttpServer) (net : Network) (req : Request)
    → any closes_client (serve s net (some req))
      ≡ (not (is_some (authenticate s req).1) && tunnelled net req)
unfolding serve
closes_client-serve s net req =
    closes_client-answer net req (authenticate s req).0 (authenticate s req).1
