-- ===== src/Health/Rounds.antt =====
-- wireproxy/routine.go: `pingIPs` with the goroutines that wait for its replies, and the sockets that
-- they use. `StartPingIPs` runs it again and again, so replies of earlier rounds may come late.
use scramjet_app.Base.{
  Bool, Bytes, List, Result, [], err, false, if◌then◌else◌, ok, suc, true, ℕ, ◌&&◌, ◌<◌, ◌==◌, ◌||◌,
  ◌≡◌,
}
use scramjet_app.Health.{
  PingRecord, put, Echo, ReplyBody, Pong, accepted, refused, panics, check_pong, start_ping_ips,
}

-- Where the ping of a socket stands: its goroutine reads; it was given up, and nothing closes the
-- socket; or it was answered at a time, and the socket is closed.
pub data SocketPhase : Type 0 where
  waiting abandoned : SocketPhase
  answered : ℕ → SocketPhase

pub record Socket : Type 0 where
  pub name : Bytes
  pub is4 : Bool
  pub is6 : Bool
  pub request : Echo
  pub phase : SocketPhase

pub record Pinging : Type 0 where
  pub records : PingRecord
  pub sockets : ℕ → Socket
  -- how many sockets were opened
  pub next : ℕ
  -- whether a goroutine has panicked, which ends the program
  pub crashed : Bool

unfoldable pub set_socket : ℕ → Socket → (ℕ → Socket) → ℕ → Socket
set_socket i socket sockets = λ j. if j == i then socket else sockets j

-- One round of the loop of `pingIPs`: the dial, and the request if the address has a family; the
-- goroutine starts if it is written.
unfoldable pub send_ping : Bytes → Bool → Bool → Echo → Bool → Bool → Pinging → Pinging
unfolding set_socket
send_ping name is4 is6 request dials writes s =
    if dials
    then record s {
      sockets =
          set_socket s.next
            (record {
              name = name;
              is4 = is4;
              is6 = is6;
              request = request;
              phase = if (is4 || is6) && writes then waiting else abandoned;
            })
            s.sockets;
      next = suc s.next;
    }
    else s

abbrev pub end_ping : ℕ → SocketPhase → Pinging → Pinging
end_ping i phase s = record s {
  sockets = set_socket i (record (s.sockets i) { phase = phase }) s.sockets;
}

abbrev pub after_pong : ℕ → ℕ → Pinging → Pong → Pinging
after_pong i now s refused = end_ping i abandoned s
after_pong i now s panics = record s { crashed = true }
after_pong i now s accepted =
    end_ping i (answered now) (record s { records = put (s.sockets i).name now s.records })

-- The goroutine, from its read on, at a time in seconds.
unfoldable pub read_reply : ℕ → ℕ → Result ReplyBody → Pinging → Pinging
unfolding set_socket
read_reply i now (err e) s = end_ping i abandoned s
read_reply i now (ok reply) s =
    after_pong i now s (check_pong (s.sockets i).is4 (s.sockets i).is6 (s.sockets i).request reply)

pub data PingStep (s : Pinging) : Pinging → Type 0 where
  sends :
      (name : Bytes) (is4 is6 : Bool) (request : Echo) (dials writes : Bool)
      → s.crashed ≡ false
      → PingStep s (send_ping name is4 is6 request dials writes s)
  replies :
      (i now : ℕ) (r : Result ReplyBody)
      → s.crashed ≡ false
      → i < s.next
      → (s.sockets i).phase ≡ waiting
      → PingStep s (read_reply i now r s)

-- What `StartPingIPs` begins with, for the addresses of `CheckAlive`.
abbrev pub started_pings : List Bytes → Pinging
started_pings names = record {
  records = start_ping_ips names [];
  sockets = λ i. record {
    name = [];
    is4 = false;
    is6 = false;
    request = record { seq = 0; data_bytes = [] };
    phase = abandoned;
  };
  next = 0;
  crashed = false;
}

pub data Pinged (names : List Bytes) : Pinging → Type 0 where
  begins : Pinged names (started_pings names)
  goes_on : {s t : Pinging} → Pinged names s → PingStep s t → Pinged names t
