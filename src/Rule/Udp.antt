-- ===== src/Rule/Udp.antt =====
-- `RuleNet::udp_bind` of rd-std/src/rule/rule_net.rs: a socket that is bound, in the net of the rule
-- for the first target, when the first packet is sent.
use rabbit_digger.Address.{Address}
use rabbit_digger.Base.{
  Bytes, ℕ, List, Option, none, some, MayPanic, returns, ◌>>=◌, ◌≡◌, ◌⊎◌, inl, inr, refl,
}
use rabbit_digger.Base.Io.{IoError, Poll, pending, done, failed}
use rabbit_digger.Context.{Context, ok as made}
use rabbit_digger.Context.Fields.{CommonFields}
use rabbit_digger.Net.{
  Net, Sockets, NetError, NetResult, ok, err, not_matched as no_rule, context_error, io_error,
  udp_bind,
}
use rabbit_digger.Rule.Cache.{LruCache}
use rabbit_digger.Rule.MatchContext.{MatchContext, from_context_address}
use rabbit_digger.Rule.Matcher.{Libraries}
use rabbit_digger.Rule.Net.{
  RuleItem, Routed, routed, not_matched, context_error as bad_context, get_rule,
}
use rabbit_digger.UdpConnector.{UdpIo}
use rabbit_digger.Rule.Routing.{
  AllWellFormed, CacheIsRight, Outcome, first, no_rule as none_matches, IsFirst, NoneMatches,
  route-Outcome,
}

module _ (lib : Libraries) (lru : LruCache MatchContext ℕ) {V : Type 0} (fields : CommonFields V)
    (io : UdpIo) (sockets : Sockets) (to_udp : sockets.UdpSocket → io.Udp) where
  -- The target net binds, or the error of `get_rule` is returned.
  unfoldable pub bind_by :
      Routed (RuleItem lib.Cidr (Net V sockets))
      → Context V
      → Address
      → NetResult sockets.UdpSocket × Context V
  bind_by (routed item) ctx bind_addr = udp_bind item.target ctx bind_addr
  bind_by not_matched ctx bind_addr = (err no_rule, ctx)
  bind_by (bad_context e) ctx bind_addr = (err (context_error e), ctx)

  -- `udp.send_to(&buf, &target_addr).await?; Ok(udp)`, with the first answer of the socket.
  unfoldable pub after_send : Poll ℕ × io.Udp → Option (NetResult io.Udp)
  after_send (pending, udp) = none
  after_send (done n, udp) = some (ok udp)
  after_send (failed e, udp) = some (err (io_error e))

  unfoldable pub send_first :
      Bytes → Address → NetResult sockets.UdpSocket × Context V → Option (NetResult io.Udp)
  send_first buf target (ok udp, ctx) = after_send (io.poll_send_to buf target (to_udp udp))
  send_first buf target (err e, ctx) = some (err e)

  -- The first poll of the future that the connector of `udp_bind` makes.
  unfoldable pub connect_first :
      List (RuleItem lib.Cidr (Net V sockets))
      → Context V
      → Address
      → Bytes
      → Address
      → lru.Cache
      → MayPanic (Option (NetResult io.Udp) × lru.Cache)
  connect_first rules ctx bind_addr buf target cache =
      get_rule lib lru fields rules ctx target cache >>= λ (found, cache').
      returns (send_first buf target (bind_by found ctx bind_addr), cache')

  -- What the first poll of the future gives, by what the net bound: nothing yet, while the socket does
  -- not take the packet; the socket that has sent the packet; or the error of the bind or of the send.
  pub data FirstSend (buf : Bytes) (target : Address)
      : NetResult sockets.UdpSocket × Context V → Option (NetResult io.Udp) → Type 0 where
    not_bound : (e : NetError) (ctx : Context V) → FirstSend buf target (err e, ctx) (some (err e))
    waits :
        (u : sockets.UdpSocket) (ctx : Context V) (udp : io.Udp)
        → io.poll_send_to buf target (to_udp u) ≡ (pending, udp)
        → FirstSend buf target (ok u, ctx) none
    sent :
        (u : sockets.UdpSocket) (ctx : Context V) (n : ℕ) (udp : io.Udp)
        → io.poll_send_to buf target (to_udp u) ≡ (done n, udp)
        → FirstSend buf target (ok u, ctx) (some (ok udp))
    refused :
        (u : sockets.UdpSocket) (ctx : Context V) (e : IoError) (udp : io.Udp)
        → io.poll_send_to buf target (to_udp u) ≡ (failed e, udp)
        → FirstSend buf target (ok u, ctx) (some (err (io_error e)))

  after_send-FirstSend :
      (buf : Bytes) (target : Address) (u : sockets.UdpSocket) (ctx : Context V)
      (q : Poll ℕ × io.Udp)
      → io.poll_send_to buf target (to_udp u) ≡ q
      → FirstSend buf target (ok u, ctx) (after_send q)
  unfolding after_send
  after_send-FirstSend buf target u ctx (pending, udp) e = waits u ctx udp e
  after_send-FirstSend buf target u ctx (done n, udp) e = sent u ctx n udp e
  after_send-FirstSend buf target u ctx (failed x, udp) e = refused u ctx x udp e

  send_first-FirstSend :
      (buf : Bytes) (target : Address) (q : NetResult sockets.UdpSocket × Context V)
      → FirstSend buf target q (send_first buf target q)
  unfolding send_first
  send_first-FirstSend buf target (ok u, ctx) =
      after_send-FirstSend buf target u ctx (io.poll_send_to buf target (to_udp u)) refl
  send_first-FirstSend buf target (err e, ctx) = not_bound e ctx

  -- The rule that goes first binds and sends, or there is none that matches.
  abbrev pub SentByRule :
      List (RuleItem lib.Cidr (Net V sockets))
      → Context V
      → Address
      → Bytes
      → Address
      → MatchContext
      → Option (NetResult io.Udp)
      → Type 0
  SentByRule rules ctx bind_addr buf target m result =
      ((i : ℕ) × (item : RuleItem lib.Cidr (Net V sockets)) × IsFirst lib rules m i item
        × FirstSend buf target (udp_bind item.target ctx bind_addr) result)
      ⊎ (NoneMatches lib rules m × (result ≡ some (err no_rule)))

  bind_by-SentByRule :
      (rules : List (RuleItem lib.Cidr (Net V sockets))) (ctx : Context V) (bind_addr : Address)
      (buf : Bytes) (target : Address) {m : MatchContext}
      (found : Routed (RuleItem lib.Cidr (Net V sockets)))
      → Outcome lib rules m found
      → SentByRule rules ctx bind_addr buf target m
          (send_first buf target (bind_by found ctx bind_addr))
  unfolding bind_by send_first
  bind_by-SentByRule rules ctx bind_addr buf target _ (first i item f) =
      inl (i, item, f, send_first-FirstSend buf target (udp_bind item.target ctx bind_addr))
  bind_by-SentByRule rules ctx bind_addr buf target _ (none_matches h) = inr (h, refl)

  -- If the rules are well formed, the first packet's target gives a match context and the cache holds
  -- right indices, the future for the first packet does not panic: the net of the first rule that
  -- matches that target binds, to the address of the bind, and the packet goes to its target through
  -- that socket; the first poll gives the socket, nothing yet, or the error of the bind or the send. If
  -- no rule matches, it is `NotMatched`. The cache is right again.
  pub connect_first_lem :
      (rules : List (RuleItem lib.Cidr (Net V sockets))) (ctx : Context V) (bind_addr : Address)
      (buf : Bytes) (target : Address) (cache : lru.Cache) {m : MatchContext}
      → AllWellFormed lib rules
      → CacheIsRight lib lru rules cache
      → from_context_address lib.text fields ctx target ≡ made m
      → (result : Option (NetResult io.Udp)) × (cache' : lru.Cache) × (connect_first rules ctx
            bind_addr buf target cache
          ≡ returns (result, cache'))
        × SentByRule rules ctx bind_addr buf target m result
        × CacheIsRight lib lru rules cache'
  unfolding connect_first get_rule
  connect_first_lem rules ctx bind_addr buf target cache {m} w right e =
      let (found, cache', run, outcome, kept) = route-Outcome lib lru rules m cache w right in
      (
        send_first buf target (bind_by found ctx bind_addr),
        cache',
        rw (get_rule, e, run),
        bind_by-SentByRule rules ctx bind_addr buf target found outcome,
        kept,
      )
