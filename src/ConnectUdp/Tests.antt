-- ===== src/ConnectUdp/Tests.antt =====
-- A run of the copying of packets, and the theorem about it at concrete ends.
use rabbit_digger.Address.{Address, domain}
use rabbit_digger.Base.{
  Bytes, ℕ, ◌≤◌, List, [], ◌∷◌, ◌++◌, none, length, take, returns, ◌≡◌, ◌≢◌, refl, ap, inl, arith,
  length-take,
}
use rabbit_digger.Base.Io.{Poll, pending, done, done-inj}
use rabbit_digger.ConnectUdp.{CopyBuffer, Ends, Copy, new, new_packets, new_packet, poll_copy}
use rabbit_digger.ConnectUdp.Filling.{Flows, Kept}
use rabbit_digger.ConnectUdp.Order.{poll_copy-Kept}
use rabbit_digger.ConnectUdp.Queue.{no_packets, Sized, Clean}

-- Packets that are still to come, and those that came.
abbrev Source : Type 0
Source = List (Bytes × Address) × List (Bytes × Address)

-- A packet is cut to the size of the buffer.
abbrev next_packet : ℕ → Source → Poll (Bytes × Address) × Source
next_packet n ([], g) = (pending, ([], g))
next_packet n ((b, a) ∷ ps, g) = (done (take n b, a), (ps, g ++ (take n b, a) ∷ []))

next_packet-given :
    (n : ℕ) (r : Source) {b : Bytes} {x : Address}
    → (next_packet n r).0 ≡ done (b, x)
    → ((next_packet n r).1.1 ≡ r.1 ++ (b, x) ∷ []) × (length b ≤ n)
next_packet-given n ([], g) e = cc
next_packet-given n ((b, a) ∷ ps, g) {b = c} {x} e =
    let same = done-inj e in
    let size = ap (λ p. length p.0) same in
    (ap (λ p. g ++ p ∷ []) same, omega (arith, length-take n b))

next_packet_waits :
    (n : ℕ) (r : Source)
    → ((p : Bytes × Address) → (next_packet n r).0 ≢ done p)
    → (next_packet n r).1.1 ≡ r.1
next_packet_waits n ([], g) h = refl
next_packet_waits n ((b, a) ∷ ps, g) h = absurd (h (take n b, a) refl)

abbrev ends : Ends
ends = record {
  X = Address;
  into = λ a. a;
  target = returns;
  R = Source;
  poll_read = next_packet;
  W = List (Bytes × Address);
  poll_write = λ b a w. (done (length b), w ++ (b, a) ∷ []);
  given = λ r. r.1;
  sent = λ w. w;
  target-into = λ x. refl;
  read-given = next_packet-given;
  read_waits = next_packet_waits;
  write-sent = λ b x w e. refl;
  write_waits = λ b x w h. absurd (h (length b) refl);
}

abbrev name : Address
name = domain (b'a' ∷ []) 53

-- A buffer of four bytes, and at most two of them.
abbrev small : CopyBuffer
small = record {
  pool = record { buf = 0 ∷ 0 ∷ 0 ∷ 0 ∷ []; filled = none } ∷ [];
  queue = [];
  max_buffer_size = 2;
}

abbrev copy : Copy ends
copy = record {
  c = small;
  r = ((1 ∷ 2 ∷ [], name) ∷ (3 ∷ [], name) ∷ (4 ∷ [], name) ∷ [], []);
  w = [];
}

copy-Flows : Flows ends 2 copy []
unfolding Clean
copy-Flows = record {
  sized = record {
    bound = refl;
    clean = (refl, tt);
    inhabited = omega arith;
    within = omega arith;
  };
  queued = inl no_packets;
  same = refl;
}

start-Sized : Sized 16 (new 1 16)
unfolding new new_packets new_packet Clean
start-Sized = record {
  bound = refl;
  clean = (refl, tt);
  inhabited = omega arith;
  within = omega arith;
}

poll_copy-Kept_example : Kept ends 2 (poll_copy ends 5 copy)
poll_copy-Kept_example = poll_copy-Kept ends 2 5 copy [] copy-Flows
