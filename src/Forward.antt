-- ===== src/Forward.antt =====
-- wireproxy/routine.go, `connForward`, and the two goroutines at the end of `HTTPServer.serve`: two
-- copies between connections, each with its deferred closes. A connection is a number. `io.Copy` is
-- what its documentation says: reads and writes until the source ends or one of them fails.
pub mod Copies
pub mod Order
pub mod Ends
pub mod Delivery
pub mod Release
use scramjet_app.Base.{
  Bool, Bytes, [], drop, false, if◌then◌else◌, length, suc, take, true, ℕ, ◌++◌, ◌<◌, ◌==◌, ◌≡◌,
  ◌≢◌, ◌≤◌,
}

-- Where a copying goroutine stands: in `io.Copy`, before its first deferred close, before its second,
-- or returned.
pub data Phase : Type 0 where
  copying closing closing_second ended : Phase

pub record Copy : Type 0 where
  pub from : ℕ
  pub into : ℕ
  -- the connections that it closes, in order
  pub first_close : ℕ
  pub second_close : ℕ
  -- what `from` has yet to give, what is read and not yet written, and what `into` has taken
  pub source : Bytes
  pub held : Bytes
  pub sink : Bytes
  pub phase : Phase
  -- whether `io.Copy` returned an error
  pub failed : Bool

-- `Read` gives the next `n` bytes.
unfoldable pub read_chunk : ℕ → Copy → Copy
read_chunk n c = record c { held = take n c.source; source = drop n c.source }

-- `Write` takes `n` bytes of what was read, and has failed unless it takes all.
unfoldable pub write_chunk : ℕ → Copy → Copy
write_chunk n c = record c { sink = c.sink ++ take n c.held; held = drop n c.held }

-- `io.Copy` returns.
unfoldable pub return_copy : Bool → Copy → Copy
return_copy failed c = record c { phase = closing; failed = failed }

-- `connForward`: the deferred calls run last to first, so `into` is closed before `from`. The bytes
-- that `from` is going to give are `input`.
unfoldable pub conn_forward : ℕ → ℕ → Bytes → Copy
conn_forward from into input = record {
  from = from;
  into = into;
  first_close = into;
  second_close = from;
  source = input;
  held = [];
  sink = [];
  phase = copying;
  failed = false;
}

-- Which connections are open.
abbrev pub Opened : Type 0
Opened = ℕ → Bool

unfoldable pub close : ℕ → Opened → Opened
close c o = λ d. if d == c then false else o d

-- One step of one goroutine: the copy and the connections afterwards. A connection that is closed is
-- neither read nor written, and any read or write may fail.
pub data CopyStep (o : Opened) (c : Copy) : Copy → Opened → Type 0 where
  reads :
      (n : ℕ)
      → c.phase ≡ copying
      → c.held ≡ []
      → 0 < n
      → n ≤ length c.source
      → o c.from ≡ true
      → CopyStep o c (read_chunk n c) o
  writes :
      c.phase ≡ copying
      → c.held ≢ []
      → o c.into ≡ true
      → CopyStep o c (write_chunk (length c.held) c) o
  fails_to_write :
      (n : ℕ)
      → c.phase ≡ copying
      → n < length c.held
      → CopyStep o c (return_copy true (write_chunk n c)) o
  fails_to_read : c.phase ≡ copying → c.held ≡ [] → CopyStep o c (return_copy true c) o
  reads_end :
      c.phase ≡ copying
      → c.held ≡ []
      → c.source ≡ []
      → o c.from ≡ true
      → CopyStep o c (return_copy false c) o
  closes_first :
      c.phase ≡ closing → CopyStep o c (record c { phase = closing_second }) (close c.first_close o)
  closes_second :
      c.phase ≡ closing_second → CopyStep o c (record c { phase = ended }) (close c.second_close o)

-- The two goroutines and the connections that they share.
pub record Tunnel : Type 0 where
  pub left : Copy
  pub right : Copy
  pub opened : Opened

pub data Step (s : Tunnel) : Tunnel → Type 0 where
  left_moves :
      (c : Copy) (o : Opened)
      → CopyStep s.opened s.left c o
      → Step s (record { left = c; right = s.right; opened = o })
  right_moves :
      (c : Copy) (o : Opened)
      → CopyStep s.opened s.right c o
      → Step s (record { left = s.left; right = c; opened = o })

-- Runs, with their number of steps.
pub data Steps (s : Tunnel) : ℕ → Tunnel → Type 0 where
  none_yet : Steps s 0 s
  one_more : {n : ℕ} {t u : Tunnel} → Steps s n t → Step t u → Steps s (suc n) u

-- The goroutines of `tcpClientForward` and `tcpServerForward`: 0 is `conn`, 1 is `sconn`.
unfoldable pub tcp_tunnel : Bytes → Bytes → Tunnel
tcp_tunnel conn_input sconn_input = record {
  left = conn_forward 1 0 sconn_input;
  right = conn_forward 0 1 conn_input;
  opened = λ c. true;
}

-- Those of `STDIOTcpForward`: 0 is `input`, 1 is `sconn`, 2 is `output`.
unfoldable pub stdio_tunnel : Bytes → Bytes → Tunnel
stdio_tunnel input sconn_input = record {
  left = conn_forward 0 1 input;
  right = conn_forward 1 2 sconn_input;
  opened = λ c. true;
}

-- Those of `HTTPServer.serve`, which both close `peer` and then `conn`: 0 is `conn`, 1 is `peer`. The
-- request was read through a buffer over `conn`, and `io.Copy` reads `conn` itself: of what the client
-- sends after its request, the bytes that the buffer has read ahead are gone.
unfoldable pub http_tunnel : ℕ → Bytes → Bytes → Tunnel
http_tunnel read_ahead conn_input peer_input = record {
  left = record (conn_forward 1 0 peer_input) { first_close = 1; second_close = 0 };
  right = record (conn_forward 0 1 (drop read_ahead conn_input)) {
    first_close = 1;
    second_close = 0;
  };
  opened = λ c. true;
}
