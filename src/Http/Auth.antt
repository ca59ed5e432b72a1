-- ===== src/Http/Auth.antt =====
-- Which requests `authenticate` lets through.
use scramjet_app.Go.Base64.Laws.{IsByte, encode_base64, decode_base64-encode_base64}
use scramjet_app.Base.{
  All, All-append, Bool, Bool-cases, Bytes, Lacks, List, Option, Option-cases, [], ap, arith, bytes,
  bytes_eq, bytes_eq_iff, bytes_eq_ne, bytes_eq_refl, false, if-cases, if◌then◌else◌, inl, inr,
  none, not, refl, some, sym, true, ℕ, ◌&&◌, ◌++◌, ◌==◌, ◌↔◌, ◌∙◌, ◌∷◌, ◌≡◌, ◌≢◌,
}
use scramjet_app.Go.Base64.{decode_base64}
use scramjet_app.Go.Strings.{split_n2, trim_prefix, cut, has_byte}
use scramjet_app.Go.Strings.Laws.{cut-append, cut-eq-some, trim_prefix-append, has_byte-Lacks}
use scramjet_app.Http.{
  CredentialValidator, valid, HttpServer, Request, not_matching, authenticate, bit_and, check_pairs,
  check_decoded, http_server, HttpConfig, AuthError,
}

both_ones : (a b : Bool) → (bit_and (if a then 1 else 0) (if b then 1 else 0) == 1) ≡ (a && b)
both_ones true true = refl
both_ones true false = refl
both_ones false true = refl
both_ones false false = refl

valid-and :
    (c : CredentialValidator) (username password : Bytes)
    → valid c username password ≡ (bytes_eq c.username username && bytes_eq c.password password)
unfolding valid
valid-and c username password =
    both_ones (bytes_eq c.username username) (bytes_eq c.password password)

valid_iff :
    (c : CredentialValidator) (username password : Bytes)
    → (valid c username password ≡ true) ↔ ((c.username ≡ username) × (c.password ≡ password))
valid_iff c username password =
    rw (valid-and c username password)
      (ground (arith, bytes_eq_iff c.username username, bytes_eq_iff c.password password))

-- The credentials in a request, as the server reads them.
pub record Carries (req : Request) (username password : Bytes) : Type 0 where
  pub given : req.proxy_authorization ≢ []
  pub decoded :
      decode_base64 (trim_prefix req.proxy_authorization (bytes "Basic "))
      ≡ some (username ++ b':' ∷ password)
  pub plain : Lacks b':' username

split_n2-append : (a b : Bytes) → Lacks b':' a → split_n2 b':' (a ++ b':' ∷ b) ≡ a ∷ b ∷ []
unfolding split_n2
split_n2-append a b h = rw (cut-append b':' a b h, split_n2)

authenticate_carried :
    (s : HttpServer) (req : Request) (username password : Bytes)
    → s.auth_required ≡ true
    → Carries req username password
    → authenticate s req
      ≡ (if valid s.auth username password then (0, none) else (401, some not_matching))
unfolding authenticate
authenticate_carried s req username password required c = rw (
  required,
  authenticate,
  bytes_eq_ne req.proxy_authorization [] c.given,
  c.decoded,
  split_n2-append username password c.plain,
)

from_pairs :
    (auth : CredentialValidator) (str : Bytes)
    → check_pairs auth (split_n2 b':' str) ≡ (0, none)
    → (str ≡ auth.username ++ b':' ∷ auth.password) × Lacks b':' auth.username
unfolding split_n2
from_pairs auth str h = elim (Option-cases (cut b':' str)) [
  | inl none_there ↦ cc (rw (none_there, split_n2) at h)
  | inr ((u, p), e) ↦ elim (Bool-cases (valid auth u p)) [
    | inl good ↦
        let (same_u, same_p) = (valid_iff auth u p).0 good in
        let (joined, plain) = cut-eq-some b':' str e in
        (rw (same_u, same_p) joined, rw same_u plain)
    | inr bad ↦ cc (rw (e, split_n2, bad) at h)
  ]
]

from_decoded :
    (auth : CredentialValidator) (str : Option Bytes)
    → check_decoded auth str ≡ (0, none)
    → (str ≡ some (auth.username ++ b':' ∷ auth.password)) × Lacks b':' auth.username
from_decoded auth none h = cc
from_decoded auth (some str) h =
    let (joined, plain) = from_pairs auth str h in (ap some joined, plain)

carried :
    (s : HttpServer) (req : Request)
    → s.auth_required ≡ true
    → authenticate s req ≡ (0, none)
    → Carries req s.auth.username s.auth.password
unfolding authenticate
carried s req required h = elim (Bool-cases (bytes_eq req.proxy_authorization [])) [
  | inl empty ↦ cc (rw (required, authenticate, empty) at h)
  | inr given ↦
      let (decoded, plain) = from_decoded s.auth _ (rw (required, authenticate, given) at h) in
      record { given = λ e. cc (bytes_eq_refl [], rw e at given); decoded = decoded; plain = plain }
]

valid_self : (c : CredentialValidator) → valid c c.username c.password ≡ true
valid_self c = (valid_iff c c.username c.password).1 (refl, refl)

-- A server that requires authentication lets a request through exactly when the request carries,
-- in base64 with or without the prefix "Basic ", the server's user name, a colon and the server's
-- password, and the user name holds no colon.
pub authenticate_iff :
    (s : HttpServer) (req : Request)
    → s.auth_required ≡ true
    → (authenticate s req ≡ (0, none)) ↔ Carries req s.auth.username s.auth.password
authenticate_iff s req required = (
  carried s req required,
  λ c. authenticate_carried s req s.auth.username s.auth.password required c ∙ rw valid_self,
)

-- The header of RFC 7617 for a user name and a password.
abbrev pub basic_auth : Bytes → Bytes → Bytes
basic_auth username password = bytes "Basic " ++ encode_base64 (username ++ b':' ∷ password)

basic_auth-Carries :
    (req : Request) (username password : Bytes)
    → All IsByte username
    → All IsByte password
    → Lacks b':' username
    → req.proxy_authorization ≡ basic_auth username password
    → Carries req username password
basic_auth-Carries req username password hu hp plain h = record {
  given = λ e. cc (sym h ∙ e);
  decoded =
      rw (h, trim_prefix-append (bytes "Basic ") (encode_base64 (username ++ b':' ∷ password)))
        (decode_base64-encode_base64 (username ++ b':' ∷ password)
          (All-append IsByte username (b':' ∷ password) hu (omega arith, hp)));
  plain = plain;
}

-- A client that sends its user name and password as RFC 7617 says, its name without a colon, is let
-- through by the server of a configuration with credentials if both are the configured ones, and
-- is answered 401 if not.
pub authenticate-basic_auth :
    (config : HttpConfig) (req : Request) (username password : Bytes)
    → (http_server config).auth_required ≡ true
    → All IsByte username
    → All IsByte password
    → Lacks b':' username
    → req.proxy_authorization ≡ basic_auth username password
    → authenticate (http_server config) req ≡ (
        if bytes_eq config.username username && bytes_eq config.password password
        then (0, none)
        else (401, some not_matching))
unfolding http_server
authenticate-basic_auth config req username password required hu hp plain h =
    authenticate_carried (http_server config) req username password required
      (basic_auth-Carries req username password hu hp plain h)
    ∙ rw valid-and

-- A configured user name with a colon locks everybody out: no request is let through.
authenticate_colon :
    (s : HttpServer) (req : Request)
    → s.auth_required ≡ true
    → has_byte b':' s.auth.username ≡ true
    → authenticate s req ≢ (0, none)
authenticate_colon s req required colon h =
    cc ((has_byte-Lacks b':' s.auth.username).1 (carried s req required h).plain)

-- A result with no error has the code 0.
abbrev Clear : ℕ × Option AuthError → Type 0
Clear r = r.1 ≡ none → r ≡ (0, none)

check_pairs-Clear :
    (auth : CredentialValidator) (pairs : List Bytes) → Clear (check_pairs auth pairs)
check_pairs-Clear auth [] = λ h. cc
check_pairs-Clear auth (a ∷ []) = λ h. cc
check_pairs-Clear auth (a ∷ b ∷ []) =
    if-cases (λ (r : ℕ × Option AuthError). Clear r) (valid auth a b) (λ e h. refl) (λ e h. cc)
check_pairs-Clear auth (a ∷ b ∷ c ∷ more) = λ h. cc

check_decoded-Clear : (auth : CredentialValidator) (o : Option Bytes) → Clear (check_decoded auth o)
check_decoded-Clear auth none = λ h. cc
check_decoded-Clear auth (some str) = check_pairs-Clear auth (split_n2 b':' str)

pub authenticate-none :
    (s : HttpServer) (req : Request)
    → (authenticate s req).1 ≡ none
    → authenticate s req ≡ (0, none)
unfolding authenticate
authenticate-none s req =
    if-cases (λ (r : ℕ × Option AuthError). Clear r) (not s.auth_required) (λ e h. refl)
      (λ e.
        if-cases (λ (r : ℕ × Option AuthError). Clear r) (bytes_eq req.proxy_authorization [])
          (λ f h. cc)
          (λ f.
            check_decoded-Clear s.auth
              (decode_base64 (trim_prefix req.proxy_authorization (bytes "Basic ")))))
