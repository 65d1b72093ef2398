-- ===== src/UdpConnector/Life.antt =====
-- The life of a `UdpConnector` of rd-std/src/util/udp_connector.rs: what its operations do in the
-- states that it comes to.
use mathlib.Core.Path.{subst}
use rabbit_digger.Address.{Address, SocketAddr}
use rabbit_digger.Base.{
  Bytes, ℕ, zero, suc, Option, none, some, returns, panics, ◌≡◌, refl, ◌⊎◌, inl, inr, arith, sym,
  ap, ◌∙◌, some-inj, returns-inj,
}
use rabbit_digger.Base.Io.{Poll, pending}
use rabbit_digger.Net.{NetResult, ok, err}
use rabbit_digger.UdpConnector.{
  UdpIo, Connector, State, idle, binding, binded, UdpConnector, new, poll_recv_from, send_binded,
  bound, send_binding, send_in, poll_send_to,
}

module _ (io : UdpIo) where
  -- The states that a new connector comes to by sends and receives that return.
  pub data Reach (c : Connector io) : UdpConnector io → Type 0 where
    begin : Reach c (new io c)
    sent :
        (buf : Bytes) (target : Address) {u : UdpConnector io} {r : Poll ℕ} {u' : UdpConnector io}
        → Reach c u
        → poll_send_to io buf target u ≡ returns (r, u')
        → Reach c u'
    received :
        (fuel : ℕ) {u : UdpConnector io} {r : Poll (Bytes × SocketAddr)} {u' : UdpConnector io}
        → Reach c u
        → poll_recv_from io fuel u.permits u.state ≡ some (r, u')
        → Reach c u'

  -- No permit is there before the first packet is sent, and one once the future was ready.
  Sound : ℕ → State io → Type 0
  Sound p (idle none) = ⊥
  Sound p (idle (some c)) = p ≡ 0
  Sound p (binding (some f)) = p ≡ 0
  Sound p (binding none) = p ≡ 1
  Sound p (binded udp) = p ≡ 1

  SoundAfter : {A : Type 0} → A × UdpConnector io → Type 0
  unfolding Sound
  SoundAfter q = Sound q.1.permits q.1.state

  bound-Sound :
      (buf : Bytes) (target : Address) (p : ℕ) (q : Option (NetResult io.Udp) × io.Fut)
      → p ≡ 0
      → SoundAfter (bound io buf target p q)
  unfolding bound send_binded Sound SoundAfter
  bound-Sound buf target p (none, f) h = h
  bound-Sound buf target p (some (ok udp), f) h = omega arith
  bound-Sound buf target p (some (err e), f) h = omega arith

  -- What a send does in a sound state, and that it panics only after a bind has failed.
  send_in-Sound :
      (buf : Bytes) (target : Address) (p : ℕ) (s : State io)
      → Sound p s
      → (s ≡ binding none)
        ⊎ ((q : Poll ℕ × UdpConnector io) × (send_in io buf target p s ≡ returns q) × SoundAfter q)
  unfolding send_in send_binding send_binded Sound SoundAfter
  send_in-Sound buf target p (idle none) h = absurd h
  send_in-Sound buf target p (idle (some c)) h =
      let q = io.poll_fut (c buf target) in
      inr (bound io buf target p q, refl, bound-Sound buf target p q h)
  send_in-Sound buf target p (binding (some f)) h =
      let q = io.poll_fut f in inr (bound io buf target p q, refl, bound-Sound buf target p q h)
  send_in-Sound buf target p (binding none) h = inl refl
  send_in-Sound buf target p (binded udp) h = inr (send_binded io buf target p udp, refl, h)

  receive-Sound :
      (fuel p : ℕ) (s : State io)
      → Sound p s
      → (s ≡ binding none)
        ⊎ ((q : Poll (Bytes × SocketAddr) × UdpConnector io) × (poll_recv_from io fuel p s ≡ some q)
            × SoundAfter q)
  unfolding poll_recv_from Sound SoundAfter
  receive-Sound fuel p (idle none) h = absurd h
  receive-Sound fuel zero (idle (some c)) h =
      inr ((pending, record { permits = 0; state = idle (some c) }), refl, h)
  receive-Sound fuel (suc p) (idle (some c)) h = absurd (omega arith)
  receive-Sound fuel zero (binding (some f)) h =
      inr ((pending, record { permits = 0; state = binding (some f) }), refl, h)
  receive-Sound fuel (suc p) (binding (some f)) h = absurd (omega arith)
  receive-Sound fuel p (binding none) h = inl refl
  receive-Sound fuel p (binded udp) h = inr (
    ((io.poll_recv_from udp).0, record { permits = p; state = binded (io.poll_recv_from udp).1 }),
    refl,
    h,
  )

  after_failure_send :
      (buf : Bytes) (target : Address) (p : ℕ) (s : State io)
      → s ≡ binding none
      → send_in io buf target p s ≡ panics
  unfolding send_in send_binding
  after_failure_send buf target p s e = ap (send_in io buf target p) e

  spins : (fuel n : ℕ) → poll_recv_from io fuel (suc n) (binding none) ≡ none
  unfolding poll_recv_from
  spins zero n = refl
  spins (suc fuel) n = spins fuel n

  after_failure_receive :
      (fuel p : ℕ) (s : State io) → Sound p s → s ≡ binding none → poll_recv_from io fuel p s ≡ none
  unfolding Sound
  after_failure_receive fuel p s h e =
      let one : p ≡ 1 = subst (Sound p) e h in
      ap (poll_recv_from io fuel p) e
      ∙ ap (λ n. poll_recv_from io fuel n (binding none)) one
      ∙ spins fuel 0

  Reach-Sound : (c : Connector io) {u : UdpConnector io} → Reach c u → Sound u.permits u.state
  unfolding Sound new poll_send_to SoundAfter
  Reach-Sound c begin = refl
  Reach-Sound c (sent buf target {u} {r} {u'} h e) =
      elim (send_in-Sound buf target u.permits u.state (Reach-Sound c h)) [
        | inl dead ↦ cc (after_failure_send buf target u.permits u.state dead, e)
        | inr (q, z, good) ↦ subst (λ x. Sound x.1.permits x.1.state) (returns-inj (sym z ∙ e)) good
      ]
  Reach-Sound c (received fuel {u} {r} {u'} h e) =
      elim (receive-Sound fuel u.permits u.state (Reach-Sound c h)) [
        | inl dead ↦ cc (after_failure_receive fuel u.permits u.state (Reach-Sound c h) dead, e)
        | inr (q, z, good) ↦ subst (λ x. Sound x.1.permits x.1.state) (some-inj (sym z ∙ e)) good
      ]

  -- What can be done: a send and a receive return, a receive at once.
  pub record Usable (u : UdpConnector io) : Type 0 where
    pub sends :
        (buf : Bytes) (target : Address)
        → (q : Poll ℕ × UdpConnector io) × (poll_send_to io buf target u ≡ returns q)
    pub receives :
        (q : Poll (Bytes × SocketAddr) × UdpConnector io) × (poll_recv_from io 0 u.permits u.state
          ≡ some q)

  -- A bind has failed: every send panics, and a receive loops until its budget is used up, whatever
  -- that is.
  pub record Broken (u : UdpConnector io) : Type 0 where
    pub bind_failed : u.state ≡ binding none
    pub send_panics : (buf : Bytes) (target : Address) → poll_send_to io buf target u ≡ panics
    pub receive_loops : (fuel : ℕ) → poll_recv_from io fuel u.permits u.state ≡ none

  -- In every state that a connector comes to, both a send and a receive return, the latter without
  -- going round its loop; or the bind has failed, and then every send panics and every receive goes
  -- round its loop until the budget of the task is used up, whatever that is.
  pub Reach-Outcome : (c : Connector io) (u : UdpConnector io) → Reach c u → Usable u ⊎ Broken u
  unfolding poll_send_to
  Reach-Outcome c u h =
      let good = Reach-Sound c h in
      elim (receive-Sound 0 u.permits u.state good) [
        | inl dead ↦ inr (record {
          bind_failed = dead;
          send_panics = λ buf target. after_failure_send buf target u.permits u.state dead;
          receive_loops = λ fuel. after_failure_receive fuel u.permits u.state good dead;
        })
        | inr (q, z, g) ↦ inl (record {
          sends = λ buf target. elim (send_in-Sound buf target u.permits u.state good) [
            | inl dead ↦ cc (after_failure_receive 0 u.permits u.state good dead, z)
            | inr (q', z', g') ↦ (q', z')
          ];
          receives = (q, z);
        })
      ]
