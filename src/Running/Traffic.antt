-- ===== src/Running/Traffic.antt =====
-- What wrapped streams and sockets of src/rabbit_digger/running.rs report is what they moved.
use rabbit_digger.Address.{Address, SocketAddr, socket_addr}
use rabbit_digger.Base.{
  Bytes, ℕ, ◌+◌, ◌-◌, List, [], ◌∷◌, ◌++◌, Bool, true, false, length, length-append, ◌≡◌, refl,
  arith, if◌then◌else◌, MayPanic, panics, returns,
}
use rabbit_digger.ConnectionManager.{EventType}
use rabbit_digger.ConnectionManager.Charged.{SameCount, downs, ups}
use rabbit_digger.ConnectionManager.Connection.{ConnType, get_events, sends, poll}
use rabbit_digger.ConnectionManager.Pending.{
  pending_down, pending_up, pending-count_in, pending-count_out, get_events-Reports,
}
use rabbit_digger.Running.Wrap.{
  Poll, pending, done, failed, unless_aborted, poll_read, poll_write, poll_recv_from, poll_send_to,
  no_address,
}

-- A call with what its environment does: whether an earlier call has seen the stop, the timer, the
-- stop channel, the inner stream.
pub data Call : Type 0 where
  read_call : Bool → Bool → Bool → Poll Bytes → Bytes → Call
  write_call : Poll ℕ → Call
  recv_call : Bool → Bool → Bool → Poll (SocketAddr × Bytes) → Bytes → Call
  send_call : Poll ℕ → Bytes → Address → Call

-- The connection after some calls, the batches they sent, and the bytes that the inner stream or
-- socket gave to calls that succeeded, or took from them.
pub record Moved (V : Type 0) : Type 0 where
  pub conn : ConnType
  pub batches : List (List (EventType V))
  pub down : ℕ
  pub up : ℕ

-- The bytes of an inner answer.
abbrev bytes_read : Poll Bytes → ℕ
bytes_read (done bytes) = length bytes
bytes_read _ = 0

abbrev bytes_received : Poll (SocketAddr × Bytes) → ℕ
bytes_received (done (addr, bytes)) = length bytes
bytes_received _ = 0

abbrev bytes_taken : Poll ℕ → ℕ
bytes_taken (done n) = n
bytes_taken _ = 0

abbrev if_done : {A : Type 0} → MayPanic (Poll A) → ℕ → ℕ
if_done (returns (done a)) n = n
if_done _ n = 0

-- Packets are received into empty buffers and sent as a whole.
abbrev pub AllWhole : List Call → Type 0
AllWhole [] = Unit {0}
AllWhole (recv_call z h s inner buf ∷ ks) = (buf ≡ []) × AllWhole ks
AllWhole (send_call (done n) buf target ∷ ks) = (n ≡ length buf) × AllWhole ks
AllWhole (_ ∷ ks) = AllWhole ks

abbrev all_downs : {V : Type 0} → List (List (EventType V)) → ℕ
all_downs [] = 0
all_downs (b ∷ bs) = downs b + all_downs bs

abbrev all_ups : {V : Type 0} → List (List (EventType V)) → ℕ
all_ups [] = 0
all_ups (b ∷ bs) = ups b + all_ups bs

module _ {V : Type 0} where
  unfoldable pub do_call : Call → ConnType → Moved V
  do_call (read_call seen heartbeat stopped inner buf) c =
      let r = poll_read seen heartbeat stopped inner buf c in
      record {
        conn = r.conn;
        batches = r.batches;
        down = if_done r.result (bytes_read inner);
        up = 0;
      }
  do_call (write_call inner) c =
      let r = poll_write inner c in
      record {
        conn = r.conn;
        batches = r.batches;
        down = 0;
        up = if_done r.result (bytes_taken inner);
      }
  do_call (recv_call seen heartbeat stopped inner buf) c =
      let r = poll_recv_from seen heartbeat stopped inner buf c in
      record {
        conn = r.conn;
        batches = r.batches;
        down = if_done r.result (bytes_received inner);
        up = 0;
      }
  do_call (send_call inner buf target) c =
      let r = poll_send_to inner buf target c in
      record {
        conn = r.conn;
        batches = r.batches;
        down = 0;
        up = if_done r.result (bytes_taken inner);
      }

  unfoldable pub run : List Call → ConnType → Moved V
  run [] c = record { conn = c; batches = []; down = 0; up = 0 }
  run (k ∷ ks) c =
      let m = do_call k c in
      let rest = run ks m.conn in
      record {
        conn = rest.conn;
        batches = m.batches ++ rest.batches;
        down = m.down + rest.down;
        up = m.up + rest.up;
      }

  -- Nothing that was moved is lost: it was reported or is pending.
  abbrev pub Accounted : ConnType → Moved V → Type 0
  Accounted c m =
      SameCount (all_downs m.batches + pending_down m.conn) (pending_down c + m.down)
      × SameCount (all_ups m.batches + pending_up m.conn) (pending_up c + m.up)

  all-append :
      (xs bs : List (List (EventType V)))
      → (all_downs (xs ++ bs) ≡ all_downs xs + all_downs bs)
        × (all_ups (xs ++ bs) ≡ all_ups xs + all_ups bs)
  all-append [] bs = (omega arith, omega arith)
  all-append (a ∷ xs) bs = let ih = all-append xs bs in (omega arith, omega arith)

  all-sends :
      (es : List (EventType V)) → (all_downs (sends es) ≡ downs es) × (all_ups (sends es) ≡ ups es)
  unfolding sends
  all-sends [] = (refl, refl)
  all-sends (e ∷ es) = (omega arith, omega arith)

-- What a poll of the connection reports is no longer pending.
poll-Accounted :
    (V : Type 0) (seen heartbeat stopped : Bool) (c : ConnType)
    → (all_downs (poll {V = V} seen heartbeat stopped c).batches
          + pending_down (poll {V = V} seen heartbeat stopped c).conn
        ≡ pending_down c)
      × (all_ups (poll {V = V} seen heartbeat stopped c).batches
            + pending_up (poll {V = V} seen heartbeat stopped c).conn
          ≡ pending_up c)
unfolding poll
poll-Accounted V seen true stopped c =
    let r = get_events-Reports {V = V} c in
    let s = all-sends (get_events {V = V} c).0 in
    (omega (arith, r.down, r.down_left, s.0), omega (arith, r.up, r.up_left, s.1))
poll-Accounted V seen false stopped c = (omega arith, omega arith)

poll-aborted :
    (V : Type 0) (seen heartbeat stopped : Bool) (c : ConnType)
    → (poll {V = V} seen heartbeat stopped c).aborted ≡ (if seen then panics else returns stopped)
unfolding poll
poll-aborted V seen true stopped c = refl
poll-aborted V seen false stopped c = refl

read_call-Accounted :
    (V : Type 0) (z h s : Bool) (inner : Poll Bytes) (buf : Bytes) (c : ConnType)
    → Accounted {V = V} c (do_call (read_call z h s inner buf) c)
unfolding do_call poll_read unless_aborted
read_call-Accounted V true h s inner buf c =
    let p = poll-Accounted V true h s c in
    rw (do_call, poll_read, unless_aborted, poll-aborted) (omega (arith, p.0), omega (arith, p.1))
read_call-Accounted V false h true inner buf c =
    let p = poll-Accounted V false h true c in
    rw (do_call, poll_read, unless_aborted, poll-aborted) (omega (arith, p.0), omega (arith, p.1))
read_call-Accounted V false h false (done bytes) buf c =
    let p = poll-Accounted V false h false c in
    let q =
      pending-count_in (poll {V = V} false h false c).conn no_address
        (length (buf ++ bytes) - length buf) in
    let size = length-append buf bytes in
    let read : length (buf ++ bytes) - length buf ≡ length bytes = omega arith in
    rw (do_call, poll_read, unless_aborted, poll-aborted)
      (omega (arith, p.0, q.0, read), omega (arith, p.1, q.1))
read_call-Accounted V false h false pending buf c =
    let p = poll-Accounted V false h false c in
    rw (do_call, poll_read, unless_aborted, poll-aborted) (omega (arith, p.0), omega (arith, p.1))
read_call-Accounted V false h false (failed e) buf c =
    let p = poll-Accounted V false h false c in
    rw (do_call, poll_read, unless_aborted, poll-aborted) (omega (arith, p.0), omega (arith, p.1))

recv_call-Accounted :
    (V : Type 0) (z h s : Bool) (inner : Poll (SocketAddr × Bytes)) (c : ConnType)
    → Accounted {V = V} c (do_call (recv_call z h s inner []) c)
unfolding do_call poll_recv_from unless_aborted
recv_call-Accounted V true h s inner c =
    let p = poll-Accounted V true h s c in
    rw (do_call, poll_recv_from, unless_aborted, poll-aborted)
      (omega (arith, p.0), omega (arith, p.1))
recv_call-Accounted V false h true inner c =
    let p = poll-Accounted V false h true c in
    rw (do_call, poll_recv_from, unless_aborted, poll-aborted)
      (omega (arith, p.0), omega (arith, p.1))
recv_call-Accounted V false h false (done (addr, bytes)) c =
    let p = poll-Accounted V false h false c in
    let q =
      pending-count_in (poll {V = V} false h false c).conn (socket_addr addr) (length bytes) in
    rw (do_call, poll_recv_from, unless_aborted, poll-aborted)
      (omega (arith, p.0, q.0), omega (arith, p.1, q.1))
recv_call-Accounted V false h false pending c =
    let p = poll-Accounted V false h false c in
    rw (do_call, poll_recv_from, unless_aborted, poll-aborted)
      (omega (arith, p.0), omega (arith, p.1))
recv_call-Accounted V false h false (failed e) c =
    let p = poll-Accounted V false h false c in
    rw (do_call, poll_recv_from, unless_aborted, poll-aborted)
      (omega (arith, p.0), omega (arith, p.1))

write_call-Accounted :
    (V : Type 0) (inner : Poll ℕ) (c : ConnType)
    → Accounted {V = V} c (do_call (write_call inner) c)
unfolding do_call poll_write
write_call-Accounted V (done s) c =
    let q = pending-count_out c no_address s in (omega (arith, q.1), omega (arith, q.0))
write_call-Accounted V pending c = (omega arith, omega arith)
write_call-Accounted V (failed e) c = (omega arith, omega arith)

send_call-Accounted :
    (V : Type 0) (inner : Poll ℕ) (buf : Bytes) (target : Address) (c : ConnType)
    → AllWhole (send_call inner buf target ∷ [])
    → Accounted {V = V} c (do_call (send_call inner buf target) c)
unfolding do_call poll_send_to
send_call-Accounted V (done s) buf target c h =
    let q = pending-count_out c target (length buf) in (omega (arith, q.1), omega (arith, q.0, h.0))
send_call-Accounted V pending buf target c h = (omega arith, omega arith)
send_call-Accounted V (failed e) buf target c h = (omega arith, omega arith)

AllWhole-cons : (k : Call) (ks : List Call) → AllWhole (k ∷ ks) → AllWhole (k ∷ []) × AllWhole ks
AllWhole-cons (read_call z h s inner buf) ks w = (tt, w)
AllWhole-cons (write_call inner) ks w = (tt, w)
AllWhole-cons (recv_call z h s inner buf) ks w = ((w.0, tt), w.1)
AllWhole-cons (send_call (done n) buf target) ks w = ((w.0, tt), w.1)
AllWhole-cons (send_call pending buf target) ks w = (tt, w)
AllWhole-cons (send_call (failed e) buf target) ks w = (tt, w)

do_call-Accounted :
    (V : Type 0) (k : Call) (c : ConnType) → AllWhole (k ∷ []) → Accounted {V = V} c (do_call k c)
do_call-Accounted V (read_call z h s inner buf) c w = read_call-Accounted V z h s inner buf c
do_call-Accounted V (write_call inner) c w = write_call-Accounted V inner c
do_call-Accounted V (recv_call z h s inner buf) c w = rw w.0 (recv_call-Accounted V z h s inner c)
do_call-Accounted V (send_call inner buf target) c w = send_call-Accounted V inner buf target c w

-- After any calls on a wrapped stream or socket, whatever the timers and the stop channel did, where
-- packets were received into empty buffers and sent as a whole: the bytes in the reports together
-- with those that are pending are those that were pending before and those that the inner stream or
-- socket gave to, or took from, the calls that succeeded, in each direction, modulo 2 ^ 64.
pub run-Accounted :
    (V : Type 0) (ks : List Call) (c : ConnType) → AllWhole ks → Accounted {V = V} c (run ks c)
unfolding run
run-Accounted V [] c w = (omega arith, omega arith)
run-Accounted V (k ∷ ks) c w =
    let (now, later) = AllWhole-cons k ks w in
    let first = do_call-Accounted V k c now in
    let rest = run-Accounted V ks (do_call {V = V} k c).conn later in
    let parts =
      all-append (do_call {V = V} k c).batches
        (run {V = V} ks (do_call {V = V} k c).conn).batches in
    (omega (arith, first.0, rest.0, parts.0), omega (arith, first.1, rest.1, parts.1))
