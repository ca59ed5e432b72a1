-- ===== src/Http/Listen.antt =====
-- wireproxy/http.go, `listen` and `ListenAndServe`, and of wireproxy/routine.go
-- `HTTPConfig.SpawnRoutine`.
use scramjet_app.Http.Serve.{is_dial, serve_dials}
use mathlib.Core.Path.{subst}
use scramjet_app.Http.Auth.{Carries, authenticate_iff, authenticate-none}
use scramjet_app.Base.{
  >>=-eq-ok, All, Bool, Bool-cases, Bytes, List, Option, Result, [], any, ap, bytes, err, false,
  if◌then◌else◌, inl, inr, ok, ok_inj, refl, some, sym, true, ◌&&◌, ◌++◌, ◌>>=◌, ◌||◌, ◌∙◌, ◌∷◌,
  ◌≡◌,
}
use scramjet_app.Accept.{accept_loop, accept_loop-All}
use scramjet_app.Config.{HttpConfig}
use scramjet_app.Http.{HttpServer, http_server, Network, Request, Event, serve, is_set}

-- A connection of a client: what its network does, and its request if it can be read.
pub record Connection : Type 0 where
  pub net : Network
  pub request : Option Request

pub data ServerEvent : Type 0 where
  serves : Connection → List Event → ServerEvent
  -- the listener is closed, and the error is returned
  closes_and_returns : Bytes → ServerEvent
  returns : Bytes → ServerEvent
  fatal : Bytes → ServerEvent

-- crypto/tls and net: certificates, and what opening a listener gives.
module _ {Cert : Type 0} (load_key_pair : Bytes → Bytes → Result Cert)
    (tls_listen : Cert → Bytes → Result (Unit {0})) (net_listen : Bytes → Result (Unit {0})) where
  pub data Listener : Type 0 where
    tls : Cert → Listener
    plain : Listener

  abbrev pub listen_tls : HttpServer → Bytes → Result Listener
  listen_tls s addr = do
    cert ← load_key_pair s.config.cert_file s.config.key_file
    opened ← tls_listen cert addr
    ok (tls cert)

  abbrev pub listen_plain : Bytes → Result Listener
  listen_plain addr = do opened ← net_listen addr; ok plain

  -- `HTTPServer.listen`
  unfoldable pub listen : HttpServer → Bytes → Result Listener
  listen s addr = if s.tls_required then listen_tls s addr else listen_plain addr

  abbrev pub serves_connection : HttpServer → Connection → ServerEvent
  serves_connection s c = serves c (serve s c.net c.request)

  abbrev pub accept_error : Bytes → ServerEvent
  accept_error e = closes_and_returns (bytes "accept request failed: " ++ e)

  abbrev pub serve_on : HttpServer → List (Result Connection) → Result Listener → List ServerEvent
  serve_on s accepts (err e) = returns (bytes "listen tcp failed: " ++ e) ∷ []
  serve_on s accepts (ok l) = accept_loop accept_error (serves_connection s) accepts

  -- `HTTPServer.ListenAndServe`
  unfoldable pub listen_and_serve : HttpServer → Bytes → List (Result Connection) → List ServerEvent
  unfolding listen
  listen_and_serve s addr accepts = serve_on s accepts (listen s addr)

  -- `log.Fatal`, when `ListenAndServe` returns.
  unfoldable pub then_fatal : List ServerEvent → List ServerEvent
  then_fatal [] = []
  then_fatal (closes_and_returns e ∷ events) = closes_and_returns e ∷ fatal e ∷ []
  then_fatal (returns e ∷ events) = returns e ∷ fatal e ∷ []
  then_fatal (event ∷ events) = event ∷ then_fatal events

  -- `HTTPConfig.SpawnRoutine`
  unfoldable pub spawn_http : HttpConfig → List (Result Connection) → List ServerEvent
  unfolding listen_and_serve then_fatal
  spawn_http config accepts =
      then_fatal (listen_and_serve (http_server config) config.bind_address accepts)

  abbrev pub is_tls : Listener → Bool
  is_tls (tls cert) = true
  is_tls plain = false

  listen_tls-is_tls :
      (s : HttpServer) (addr : Bytes) {l : Listener} → listen_tls s addr ≡ ok l → is_tls l ≡ true
  listen_tls-is_tls s addr h =
      let (cert, e, h1) = >>=-eq-ok (load_key_pair s.config.cert_file s.config.key_file) _ h in
      let (opened, e1, h2) = >>=-eq-ok (tls_listen cert addr) _ h1 in ap is_tls (sym (ok_inj h2))

  listen_plain-is_tls : (addr : Bytes) {l : Listener} → listen_plain addr ≡ ok l → is_tls l ≡ false
  listen_plain-is_tls addr h =
      let (opened, e, h1) = >>=-eq-ok (net_listen addr) _ h in ap is_tls (sym (ok_inj h1))

  -- A server with a certificate and a key never falls back to a listener without TLS, and one without
  -- never asks for TLS.
  listen-is_tls :
      (s : HttpServer) (addr : Bytes) {l : Listener}
      → listen s addr ≡ ok l
      → is_tls l ≡ s.tls_required
  unfolding listen
  listen-is_tls s addr {l} h = elim (Bool-cases s.tls_required) [
    | inl secure ↦
        let same : listen s addr ≡ listen_tls s addr = rw secure refl in
        listen_tls-is_tls s addr (sym same ∙ h) ∙ sym secure
    | inr bare ↦
        let same : listen s addr ≡ listen_plain addr = rw bare refl in
        listen_plain-is_tls addr (sym same ∙ h) ∙ sym bare
  ]

  -- Whoever uses the network through the server has sent the credentials.
  abbrev pub IsAuthenticated : HttpConfig → ServerEvent → Type 0
  IsAuthenticated config (serves c events) =
      (req : Request)
      → c.request ≡ some req
      → any is_dial events ≡ true
      → Carries req config.username config.password
  IsAuthenticated config _ = Unit

  serves-IsAuthenticated :
      (config : HttpConfig)
      → (http_server config).auth_required ≡ true
      → (c : Connection) → IsAuthenticated config (serves_connection (http_server config) c)
  unfolding http_server
  serves-IsAuthenticated config needed c req given dials =
      let used = subst (λ r. any is_dial (serve (http_server config) c.net r) ≡ true) given dials in
      let passed = (serve_dials (http_server config) c.net req used).0 in
      (authenticate_iff (http_server config) req needed).0
        (authenticate-none (http_server config) req passed)

  then_fatal-All :
      (P : ServerEvent → Type 0)
      → ((e : Bytes) → P (fatal e))
      → (events : List ServerEvent) → All P events
      → All P (then_fatal events)
  unfolding then_fatal
  then_fatal-All P ends [] h = tt
  then_fatal-All P ends (closes_and_returns e ∷ events) h = (h.0, (ends e, tt))
  then_fatal-All P ends (returns e ∷ events) h = (h.0, (ends e, tt))
  then_fatal-All P ends (serves c e ∷ events) h = (h.0, then_fatal-All P ends events h.1)
  then_fatal-All P ends (fatal e ∷ events) h = (h.0, then_fatal-All P ends events h.1)

  serve_on-IsAuthenticated :
      (config : HttpConfig) (accepts : List (Result Connection)) (r : Result Listener)
      → (http_server config).auth_required ≡ true
      → All (IsAuthenticated config) (serve_on (http_server config) accepts r)
  serve_on-IsAuthenticated config accepts (err e) needed = (tt, tt)
  serve_on-IsAuthenticated config accepts (ok l) needed =
      accept_loop-All (IsAuthenticated config) accept_error (serves_connection (http_server config))
        (λ e. tt) (serves-IsAuthenticated config needed) accepts

  -- An HTTP section with a user name or a password lets nobody use the network without them: a
  -- connection that makes its server dial has sent a request with both. Where the section has a
  -- certificate and a key the server's listener is one with TLS, and it is not where one is missing.
  pub spawn_http-IsAuthenticated :
      (config : HttpConfig) (accepts : List (Result Connection))
      → ((is_set config.username || is_set config.password) ≡ true
          → All (IsAuthenticated config) (spawn_http config accepts))
        × ((l : Listener)
            → listen (http_server config) config.bind_address ≡ ok l
            → is_tls l ≡ (is_set config.cert_file && is_set config.key_file))
  unfolding spawn_http listen_and_serve http_server
  spawn_http-IsAuthenticated config accepts = (
    λ needed.
        then_fatal-All (IsAuthenticated config) (λ e. tt) _
          (serve_on-IsAuthenticated config accepts _ needed),
    λ l h. listen-is_tls (http_server config) config.bind_address h,
  )
