-- ===== src/Health/Answers.antt =====
-- What readiness says about the pings.
use scramjet_app.Base.{All, Bytes, List, some, ℕ, ◌*◌, ◌+◌, ◌<◌, ◌≡◌, ◌≤◌, ◌⊎◌}
use scramjet_app.Health.{PingRecord}
use scramjet_app.Health.Records.{find_record}
use scramjet_app.Health.Rounds.{Pinging, answered}

-- A socket of the address was answered at the time.
abbrev pub IsAnswered : Pinging → Bytes → ℕ → Type 0
IsAnswered s name t =
    (i : ℕ) × (i < s.next) × ((s.sockets i).name ≡ name) × ((s.sockets i).phase ≡ answered t)

abbrev HasRecord : PingRecord → Bytes → Type 0
HasRecord records name = (t : ℕ) × (find_record name records ≡ some t)

-- Every address has a record, which is zero or the time of an answer.
record IsRecorded (names : List Bytes) (s : Pinging) : Type 0 where
  listed : All (HasRecord s.records) names
  answers :
      (name : Bytes) (t : ℕ) → find_record name s.records ≡ some t → (t ≡ 0) ⊎ IsAnswered s name t

AreZero : PingRecord → Type 0
AreZero records = (name : Bytes) (t : ℕ) → find_record name records ≡ some t → t ≡ 0

-- An address with an answer that is at most the interval and two seconds old.
abbrev pub WasAnswered : ℕ → ℕ → Pinging → Bytes → Type 0
WasAnswered n now s name = (t : ℕ) × IsAnswered s name t × (now ≤ (t + (n + 2)) * 1000000000)
