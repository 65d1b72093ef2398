-- ===== src/ConnectionManager/Pending.antt =====
-- The bytes that a connection has counted and not reported, and what a report says of them.
use mathlib.Core.List.{lookup}
use rabbit_digger.Address.{Address, Address-discrete}
use rabbit_digger.Base.{ℕ, ◌+◌, List, [], ◌∷◌, ◌++◌, ◌≡◌, refl, arith, map, Option-cases, inl, inr}
use rabbit_digger.Base.Assoc.{sum_values, sum_values-insert_new, sum_values-insert_old}
use rabbit_digger.ConnectionManager.{add64, EventType, recv_from, send_to, Protocol, tcp, udp}
use rabbit_digger.ConnectionManager.Charged.{SameCount, downs, ups, AllCounts}
use rabbit_digger.ConnectionManager.Connection.{
  ConnType, tcp_conn, udp_conn, tcp_events, udp_events, get_events, count_at, count_in, count_out,
  default_conn,
}

abbrev amount : ℕ → ℕ
amount n = n

abbrev pub pending_down : ConnType → ℕ
pending_down (tcp_conn t) = t.read_size
pending_down (udp_conn u) = sum_values amount u.received

abbrev pub pending_up : ConnType → ℕ
pending_up (tcp_conn t) = t.write_size
pending_up (udp_conn u) = sum_values amount u.sent

sum-count_at :
    (a : Address) (n : ℕ) (m : List (Address × ℕ))
    → SameCount (sum_values amount (count_at a n m)) (sum_values amount m + n)
unfolding count_at
sum-count_at a n m = elim (Option-cases (lookup Address-discrete a m)) [
  | inl new ↦
      rw (count_at, new) (omega (arith, sum_values-insert_new Address-discrete amount a n m new))
  | inr (e, old) ↦
      rw (count_at, old)
        (omega (arith, sum_values-insert_old Address-discrete amount a (add64 e n) e m old))
]

pub pending-count_in :
    (c : ConnType) (a : Address) (n : ℕ)
    → SameCount (pending_down (count_in c a n)) (pending_down c + n)
      × (pending_up (count_in c a n) ≡ pending_up c)
unfolding count_in
pending-count_in (tcp_conn t) a n = (omega arith, refl)
pending-count_in (udp_conn u) a n = (sum-count_at a n u.received, refl)

pub pending-count_out :
    (c : ConnType) (a : Address) (n : ℕ)
    → SameCount (pending_up (count_out c a n)) (pending_up c + n)
      × (pending_down (count_out c a n) ≡ pending_down c)
unfolding count_out
pending-count_out (tcp_conn t) a n = (omega arith, refl)
pending-count_out (udp_conn u) a n = (sum-count_at a n u.sent, refl)

pub pending-default_conn :
    (p : Protocol) → (pending_down (default_conn p) ≡ 0) × (pending_up (default_conn p) ≡ 0)
unfolding default_conn sum_values
pending-default_conn tcp = (refl, refl)
pending-default_conn udp = (refl, refl)

udp_events-sent :
    (V : Type 0) (m : List (Address × ℕ))
    → AllCounts {V = V} (map (λ e. send_to e.0 e.1) m)
      × (downs {V = V} (map (λ e. send_to e.0 e.1) m) ≡ 0)
      × (ups {V = V} (map (λ e. send_to e.0 e.1) m) ≡ sum_values amount m)
unfolding sum_values
udp_events-sent V [] = (tt, refl, refl)
udp_events-sent V (e ∷ m) = let ih = udp_events-sent V m in ((tt, ih.0), omega arith, omega arith)

module _ {V : Type 0} where
  -- A report counts bytes and nothing else, all that was pending, and leaves nothing pending.
  pub record Reports (es : List (EventType V)) (c c' : ConnType) : Type 0 where
    pub counts : AllCounts es
    pub down : downs es ≡ pending_down c
    pub up : ups es ≡ pending_up c
    pub down_left : pending_down c' ≡ 0
    pub up_left : pending_up c' ≡ 0

  udp_events-received :
      (m : List (Address × ℕ)) (rest : List (EventType V))
      → AllCounts rest
      → AllCounts (map (λ e. recv_from e.0 e.1) m ++ rest)
        × (downs (map (λ e. recv_from e.0 e.1) m ++ rest) ≡ sum_values amount m + downs rest)
        × (ups (map (λ e. recv_from e.0 e.1) m ++ rest) ≡ ups rest)
  unfolding sum_values
  udp_events-received [] rest h = (h, omega arith, refl)
  udp_events-received (e ∷ m) rest h =
      let ih = udp_events-received m rest h in ((tt, ih.0), omega arith, omega arith)

  pub get_events-Reports :
      (c : ConnType) → Reports (get_events {V = V} c).0 c (get_events {V = V} c).1
  unfolding get_events tcp_events udp_events sum_values
  get_events-Reports (tcp_conn t) = ground arith
  get_events-Reports (udp_conn u) =
      let sent = udp_events-sent V u.sent in
      let all = udp_events-received u.received (map (λ e. send_to e.0 e.1) u.sent) sent.0 in
      record {
        counts = all.0;
        down = omega arith;
        up = omega arith;
        down_left = refl;
        up_left = refl;
      }
