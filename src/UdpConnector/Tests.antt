-- ===== src/UdpConnector/Tests.antt =====
-- Runs of the UDP connector, with a socket that is the list of the packets it sent.
use rabbit_digger.Address.{Address, domain}
use rabbit_digger.Base.{Bytes, List, [], ◌∷◌, ◌++◌, length, none, some, returns, ◌≡◌, refl, ◌⊎◌}
use rabbit_digger.Base.Io.{pending, done}
use rabbit_digger.Net.{NetResult, ok, err, not_matched}
use rabbit_digger.UdpConnector.{
  UdpIo, binded, binding, new, poll_recv_from, poll_send_to, send_in, send_binding, bound,
  send_binded,
}
use rabbit_digger.UdpConnector.Life.{Reach, begin, sent, Usable, Broken, Reach-Outcome}

-- A future is the result that it gives at once.
abbrev pub log : UdpIo
log = record {
  Udp = List Bytes;
  poll_recv_from = λ u. (pending, u);
  poll_send_to = λ b t u. (done (length b), u ++ b ∷ []);
  local_addr = λ u. err not_matched;
  Fut = NetResult (List Bytes);
  poll_fut = λ f. (some f, f);
}

abbrev target : Address
target = domain (b'a' ∷ []) 53

abbrev works : Bytes → Address → NetResult (List Bytes)
works b t = ok []

abbrev refuses : Bytes → Address → NetResult (List Bytes)
refuses b t = err not_matched

runs :
    (poll_send_to log (1 ∷ []) target (new log works)
      ≡ returns (done 1, record { permits = 1; state = binded ((1 ∷ []) ∷ []) }))
    × (poll_recv_from log 5 0 (new log works).state ≡ some (pending, new log works))
unfolding poll_send_to new send_in send_binding bound send_binded poll_recv_from
runs = (refl, refl)

refused : Reach log refuses (record { permits = 1; state = binding none })
unfolding poll_send_to new send_in send_binding bound
refused = sent (1 ∷ []) target begin refl

Reach-Outcome_example :
    Usable log (record { permits = 1; state = binding none })
    ⊎ Broken log (record { permits = 1; state = binding none })
Reach-Outcome_example =
    Reach-Outcome log refuses (record { permits = 1; state = binding none }) refused
