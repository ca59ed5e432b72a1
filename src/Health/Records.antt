-- ===== src/Health/Records.antt =====
-- What a ping does to the records.
use mathlib.Core.Path.{subst}
use scramjet_app.Base.{
  Bool, Bytes, Option, Result, [], ap, arith, bytes_eq, bytes_eq_iff, err, false, if-cases,
  if◌then◌else◌, none, not, ok, refl, some, true, ℕ, ◌||◌, ◌∙◌, ◌∷◌, ◌≡◌, ◌≢◌,
}
use scramjet_app.Health.{
  PingRecord, put, Echo, ReplyBody, Pong, accepted, refused, panics, check_pong, ping_ip, Attempt,
  record_pong, read_pong,
}

abbrev pub find_record : Bytes → PingRecord → Option ℕ
find_record name [] = none
find_record name ((key, time) ∷ records) =
    let rest = find_record name records in if bytes_eq key name then some time else rest

pub find_record-put :
    (name other : Bytes) (time : ℕ) (records : PingRecord)
    → find_record other (put name time records)
      ≡ (if bytes_eq name other then some time else find_record other records)
unfolding put
find_record-put name other time [] = refl
find_record-put name other time ((key, old) ∷ records) =
    let ih = find_record-put name other time records in
    let apart : bytes_eq key name ≡ false
        → bytes_eq name other ≡ true
        → bytes_eq key other ≡ false =
      λ h e. subst (λ s. bytes_eq key s ≡ false) ((bytes_eq_iff name other).0 e) h in
    if-cases
      (λ (r : PingRecord).
        find_record other r
        ≡ (if bytes_eq name other then some time else find_record other ((key, old) ∷ records)))
      (bytes_eq key name)
      (λ e. let same = ap (λ k. bytes_eq k other) ((bytes_eq_iff key name).0 e) in ground arith)
      (λ e. let no_key = apart e in ground arith)

-- What a ping must meet to count.
pub record Counts (is4 is6 : Bool) (ping : Echo) (a : Attempt) : Type 0 where
  pub dialed : a.dials ≡ true
  pub family : (is4 || is6) ≡ true
  pub written : a.writes ≡ true
  pub body : ReplyBody
  pub read : a.reply ≡ ok body
  pub matches : check_pong is4 is6 ping body ≡ accepted

not_first {ℓ} :
    {A : Type ℓ} (b : Bool) (x y : A) → (if not b then x else y) ≢ x → (b ≡ true) × (y ≢ x)
not_first true x y h = (refl, h)
not_first false x y h = absurd (h refl)

record_pong-accepted :
    (name : Bytes) (now : ℕ) (records : PingRecord) (p : Pong)
    → record_pong name now records p ≢ records
    → p ≡ accepted
record_pong-accepted name now records accepted h = refl
record_pong-accepted name now records refused h = absurd (h refl)
record_pong-accepted name now records panics h = absurd (h refl)

read_pong-accepted :
    (name : Bytes) (is4 is6 : Bool) (ping : Echo) (now : ℕ) (r : Result ReplyBody)
    (records : PingRecord)
    → read_pong name is4 is6 ping now r records ≢ records
    → (body : ReplyBody) × (r ≡ ok body) × (check_pong is4 is6 ping body ≡ accepted)
read_pong-accepted name is4 is6 ping now (err e) records h = absurd (h refl)
read_pong-accepted name is4 is6 ping now (ok body) records h =
    (body, refl, record_pong-accepted name now records (check_pong is4 is6 ping body) h)

changed-Counts :
    (name : Bytes) (is4 is6 : Bool) (ping : Echo) (a : Attempt) (records : PingRecord)
    → ping_ip name is4 is6 ping a records ≢ records
    → Counts is4 is6 ping a
unfolding ping_ip
changed-Counts name is4 is6 ping a records h =
    let (d, h1) = not_first a.dials records _ h in
    let (f, h2) = not_first (is4 || is6) records _ h1 in
    let (w, h3) = not_first a.writes records _ h2 in
    let (body, r, c) = read_pong-accepted name is4 is6 ping a.now a.reply records h3 in
    record { dialed = d; family = f; written = w; body = body; read = r; matches = c }

Counts-put :
    (name : Bytes) (is4 is6 : Bool) (ping : Echo) (a : Attempt) (records : PingRecord)
    → Counts is4 is6 ping a
    → ping_ip name is4 is6 ping a records ≡ put name a.now records
unfolding ping_ip
Counts-put name is4 is6 ping a records c =
    rw (ping_ip, c.dialed, c.family, c.written, c.read, c.matches) refl

-- A ping changes the records only if it is dialed, written and answered by a reply that counts; then
-- the record of its own address is the time of the answer, and no other record changes.
ping_ip_iff :
    (name : Bytes) (is4 is6 : Bool) (ping : Echo) (a : Attempt) (records : PingRecord)
    → (ping_ip name is4 is6 ping a records ≢ records → Counts is4 is6 ping a)
      × (Counts is4 is6 ping a
          → (other : Bytes)
          → find_record other (ping_ip name is4 is6 ping a records)
            ≡ (if bytes_eq name other then some a.now else find_record other records))
ping_ip_iff name is4 is6 ping a records = (
  changed-Counts name is4 is6 ping a records,
  λ c other.
      ap (find_record other) (Counts-put name is4 is6 ping a records c)
      ∙ find_record-put name other a.now records,
)
