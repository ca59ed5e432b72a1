-- ===== src/Socks5.antt =====
-- wireproxy/routine.go, `Socks5Config.SpawnRoutine`: how the server of the library go-socks5 is set up.
-- It dials through the tunnel; its resolver is `VirtualTun.Resolve`.
use scramjet_app.Base.{
  Bool, Bytes, List, Option, Result, [], any, ap, arith, bytes_eq, bytes_eq_iff, bytes_eq_ne, err,
  false, if-cases, if◌then◌else◌, none, ok, some, true, ℕ, ◌*◌, ◌||◌, ◌↔◌, ◌∙◌, ◌∷◌, ◌≡◌, ◌≢◌,
}
use scramjet_app.Config.{Socks5Config, HttpConfig}
use scramjet_app.Http.{http_server, is_set}

pub data Authenticator : Type 0 where
  no_auth : Authenticator
  -- `UserPassAuthenticator`, with its `StaticCredentials`: passwords by user name
  user_pass : List (Bytes × Bytes) → Authenticator

pub record Socks5Options : Type 0 where
  -- `WithResolver`: the address of a name
  pub resolver : Bytes → Result Bytes
  pub auth_methods : List Authenticator
  pub buffer_size : ℕ

-- The options that the server is made with.
unfoldable pub socks5_options : (Bytes → Result Bytes) → Socks5Config → Socks5Options
socks5_options resolver config = record {
  resolver = resolver;
  auth_methods =
      (if is_set config.username
        then user_pass ((config.username, config.password) ∷ [])
        else no_auth)
      ∷ [];
  buffer_size = 256 * 1024;
}

-- What the routine ends with, where `serve` is `Server.ListenAndServe` of the library: `log.Fatal` with
-- its error, or nothing.
unfoldable pub spawn_socks5 :
    (Socks5Options → Bytes → Result (Unit {0}))
    → (Bytes → Result Bytes)
    → Socks5Config
    → Option Bytes
unfolding socks5_options
spawn_socks5 serve resolver config =
    elim (serve (socks5_options resolver config) config.bind_address) [
      | err e ↦ some e
      | ok _ ↦ none
    ]

abbrev pub is_no_auth : Authenticator → Bool
is_no_auth no_auth = true
is_no_auth (user_pass credentials) = false

no_auth-username :
    (resolver : Bytes → Result Bytes) (config : Socks5Config)
    → any is_no_auth (socks5_options resolver config).auth_methods ≡ bytes_eq config.username []
unfolding socks5_options
no_auth-username resolver config =
    if-cases (λ (a : Authenticator). (is_no_auth a || false) ≡ bytes_eq config.username [])
      (is_set config.username) (λ h. ground arith) (λ h. ground arith)

-- A SOCKS5 and an HTTP section with the same credentials: the HTTP server asks for them whenever the
-- SOCKS5 server does; the SOCKS5 server asks nobody, and the HTTP server everybody, exactly when there is
-- a password and no user name.
pub no_auth_iff :
    (resolver : Bytes → Result Bytes) (config : Socks5Config) (http_config : HttpConfig)
    → config.username ≡ http_config.username
    → (any is_no_auth (socks5_options resolver config).auth_methods ≡ false
        → (http_server http_config).auth_required ≡ true)
      × (((any is_no_auth (socks5_options resolver config).auth_methods ≡ true)
            × ((http_server http_config).auth_required ≡ true))
          ↔ ((http_config.username ≡ []) × (http_config.password ≢ [])))
unfolding http_server
no_auth_iff resolver config http_config same =
    let user = bytes_eq_iff http_config.username [] in
    let pass = bytes_eq_iff http_config.password [] in
    let asks = no_auth-username resolver config ∙ ap (λ u. bytes_eq u []) same in
    (
      λ h. ground arith,
      (
        λ h. (user.0 (ground arith), λ no_password. let e = pass.1 no_password in ground arith),
        λ h.
            let e = user.1 h.0 in
            let n = bytes_eq_ne http_config.password [] h.1 in (ground arith, ground arith),
      ),
    )
