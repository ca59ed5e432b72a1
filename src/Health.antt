-- ===== src/Health.antt =====
-- wireproxy/routine.go: `VirtualTun.ServeHTTP`, the health endpoint, and the pings behind it. Ping
-- records are times in seconds, below `2 ^ 63`; other times are nanoseconds.
pub mod Metrics
pub mod Pings
pub mod Records
pub mod Rounds
pub mod Answers
use scramjet_app.Base.{
  Bool, Bytes, List, Result, [], any, bytes, bytes_eq, err, if◌then◌else◌, not, ok, ℕ, ◌*◌, ◌++◌,
  ◌+◌, ◌==◌, ◌||◌, ◌∷◌,
}
use scramjet_app.Base.Int.{ℤ, pos, ◌+ℤ◌}
use scramjet_app.Go.Strings.{split, split_n2}
use scramjet_app.Go.Time.{seconds, longer}

-- `PingRecord`, a map of addresses to times.
abbrev pub PingRecord : Type 0
PingRecord = List (Bytes × ℕ)

-- `PingRecord[name] = time`
unfoldable pub put : Bytes → ℕ → PingRecord → PingRecord
put name time [] = (name, time) ∷ []
put name time ((key, old) ∷ records) =
    let rest = put name time records in
    if bytes_eq key name then (key, time) ∷ records else (key, old) ∷ rest

-- What the handler writes: `WriteHeader`, then the body.
pub record HealthResponse : Type 0 where
  pub status : ℕ
  pub body : Bytes

abbrev pub no_body : ℕ → HealthResponse
no_body status = record { status = status; body = [] }

-- Whether the last pong is more than the interval and two seconds ago.
unfoldable pub is_stale : ℤ → ℕ → Bytes × ℕ → Bool
is_stale interval now (name, time) = longer (seconds (interval +ℤ pos 2)) (time * 1000000000) now

-- The loop over the records: the first stale one decides.
unfoldable pub ready_status : ℤ → ℕ → PingRecord → ℕ
ready_status interval now records = if any (is_stale interval now) records then 503 else 200

-- The case "/readyz", given the records as JSON.
abbrev pub readyz : ℤ → ℕ → PingRecord → Result Bytes → HealthResponse
readyz interval now records (err e) = no_body 500
readyz interval now records (ok body) = record {
  status = ready_status interval now records;
  body = body ++ 10 ∷ [];
}

abbrev pub redacted : Bytes
redacted = bytes "REDACTED"

abbrev pub is_secret : Bytes → Bool
is_secret key = bytes_eq key (bytes "private_key") || bytes_eq key (bytes "preshared_key")

-- One round of the loop over the lines; a line with no "=" is written with no line end.
abbrev pub metrics_pair : Bytes → List Bytes → Bytes
metrics_pair peer (key ∷ value ∷ []) =
    key ++ (b'=' ∷ (if is_secret key then redacted else value) ++ (10 ∷ []))
metrics_pair peer _ = peer

unfoldable pub metrics_lines : List Bytes → Bytes
metrics_lines [] = []
metrics_lines (peer ∷ lines) = metrics_pair peer (split_n2 b'=' peer) ++ metrics_lines lines

-- The case "/metrics", given the result of `IpcGet`.
unfoldable pub metrics : Result Bytes → HealthResponse
unfolding metrics_lines
metrics (err e) = no_body 500
metrics (ok get) = record { status = 200; body = metrics_lines (split 10 get) }

-- `ServeHTTP`; `path.Clean` and `json.Marshal` are parameters.
module _ (clean : Bytes → Bytes) (marshal : PingRecord → Result Bytes) where
  unfoldable pub serve_http : ℤ → ℕ → PingRecord → Result Bytes → Bytes → HealthResponse
  serve_http interval now records ipc_get path =
      if bytes_eq (clean path) (bytes "/readyz")
      then readyz interval now records (marshal records)
      else if bytes_eq (clean path) (bytes "/metrics")
      then metrics ipc_get
      else no_body 404

-- `icmp.Echo`, less its identifier, which is not compared.
pub record Echo : Type 0 where
  pub seq : ℕ
  pub data_bytes : Bytes

-- The body of a parsed reply.
pub data ReplyBody : Type 0 where
  echo : Echo → ReplyBody
  raw : Bytes → ReplyBody
  other_body : ReplyBody

pub data Pong : Type 0 where
  accepted refused panics : Pong

abbrev pub check_v4 : Echo → ReplyBody → Pong
check_v4 ping (echo reply) =
    if not (bytes_eq reply.data_bytes ping.data_bytes) || not (reply.seq == ping.seq)
    then refused
    else accepted
check_v4 ping _ = refused

-- `Data[2:4]` and `Data[4:]` are out of range for less than four bytes.
abbrev pub check_bytes : Echo → Bytes → Pong
check_bytes ping (x ∷ y ∷ hi ∷ lo ∷ pong_body) =
    if not (bytes_eq pong_body ping.data_bytes) || not (hi * 256 + lo == ping.seq)
    then refused
    else accepted
check_bytes ping _ = panics

abbrev pub check_v6 : Echo → ReplyBody → Pong
check_v6 ping (raw bs) = check_bytes ping bs
check_v6 ping _ = refused

abbrev pub and_then : Pong → Pong → Pong
and_then accepted p = p
and_then refused p = refused
and_then panics p = panics

-- The two tests of the reply in the goroutine of `pingIPs`, for the families of the address.
unfoldable pub check_pong : Bool → Bool → Echo → ReplyBody → Pong
check_pong is4 is6 ping reply =
    and_then (if is4 then check_v4 ping reply else accepted)
      (if is6 then check_v6 ping reply else accepted)

-- What one ping meets: whether the dial and the write work, and what is read, unless an error.
pub record Attempt : Type 0 where
  pub dials : Bool
  pub writes : Bool
  pub reply : Result ReplyBody
  pub now : ℕ

abbrev pub record_pong : Bytes → ℕ → PingRecord → Pong → PingRecord
record_pong name now records accepted = put name now records
record_pong name now records _ = records

abbrev pub read_pong : Bytes → Bool → Bool → Echo → ℕ → Result ReplyBody → PingRecord → PingRecord
read_pong name is4 is6 ping now (err e) records = records
read_pong name is4 is6 ping now (ok reply) records =
    record_pong name now records (check_pong is4 is6 ping reply)

-- One round of `pingIPs`, with its goroutine: what it does to the records.
unfoldable pub ping_ip : Bytes → Bool → Bool → Echo → Attempt → PingRecord → PingRecord
unfolding check_pong
ping_ip name is4 is6 ping a records =
    if not a.dials
    then records
    else if not (is4 || is6)
    then records
    else if not a.writes
    then records
    else read_pong name is4 is6 ping a.now a.reply records

-- `StartPingIPs`, up to its goroutine.
unfoldable pub start_ping_ips : List Bytes → PingRecord → PingRecord
start_ping_ips [] records = records
start_ping_ips (name ∷ names) records = start_ping_ips names (put name 0 records)
