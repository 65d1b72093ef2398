-- ===== src/ConnectUdp/Queue.antt =====
-- The pool and the queue of rd-std/src/context/connect_udp.rs as a bounded queue of packets.
use mathlib.Core.Path.{subst}
use rabbit_digger.Address.{Address}
use rabbit_digger.Base.{
  Bytes, ℕ, zero, suc, ◌+◌, ◌≤◌, ◌<◌, List, [], ◌∷◌, ◌++◌, none, some, true, false, length, take,
  drop, ◌≡◌, refl, ap, arith, length-append, take-append,
}
use rabbit_digger.ConnectTcp.{overwrite}
use rabbit_digger.ConnectUdp.{
  PacketBuffer, new_packet, new_packets, CopyBuffer, is_filled, wants_buffer, fill_last, last_size,
}

module _ {X : Type 0} (into : X → Address) where
  -- A queue of buffers that are all filled, with the packets that it holds.
  pub data Full : List PacketBuffer → List (Bytes × X) → Type 0 where
    no_packets : Full [] []
    packet :
        (p : PacketBuffer) (len : ℕ) (x : X) (q : List PacketBuffer) (ps : List (Bytes × X))
        → p.filled ≡ some (len, into x)
        → len ≤ length p.buf
        → Full q ps
        → Full (p ∷ q) ((take len p.buf, x) ∷ ps)

  -- The same with a buffer at the back that is not filled.
  pub data Open : List PacketBuffer → List (Bytes × X) → Type 0 where
    at_back : (p : PacketBuffer) → p.filled ≡ none → Open (p ∷ []) []
    before :
        (p : PacketBuffer) (len : ℕ) (x : X) (q : List PacketBuffer) (ps : List (Bytes × X))
        → p.filled ≡ some (len, into x)
        → len ≤ length p.buf
        → Open q ps
        → Open (p ∷ q) ((take len p.buf, x) ∷ ps)

  pub wants-Full :
      (q : List PacketBuffer) (ps : List (Bytes × X)) → Full q ps → wants_buffer q ≡ true
  unfolding wants_buffer is_filled
  wants-Full _ _ no_packets = refl
  wants-Full _ _ (packet p len x _ _ e h no_packets) = ap is_filled e
  wants-Full _ _ (packet p len x _ _ e h (packet p' len' x' q ps e' h' f)) =
      wants-Full (p' ∷ q) _ (packet p' len' x' q ps e' h' f)

  pub wants-Open :
      (q : List PacketBuffer) (ps : List (Bytes × X)) → Open q ps → wants_buffer q ≡ false
  unfolding wants_buffer is_filled
  wants-Open _ _ (at_back p e) = ap is_filled e
  wants-Open _ _ (before p len x _ _ e h (at_back p' e')) = ap is_filled e'
  wants-Open _ _ (before p len x _ _ e h (before p' len' x' q ps e' h' f)) =
      wants-Open (p' ∷ q) _ (before p' len' x' q ps e' h' f)

  pub push-Open :
      (p : PacketBuffer) (q : List PacketBuffer) (ps : List (Bytes × X))
      → p.filled ≡ none
      → Full q ps
      → Open (q ++ p ∷ []) ps
  push-Open p _ _ e no_packets = at_back p e
  push-Open p _ _ e (packet p' len x q ps e' h f) =
      before p' len x (q ++ p ∷ []) ps e' h (push-Open p q ps e f)

  pub length-Full :
      (q : List PacketBuffer) (ps : List (Bytes × X)) → Full q ps → length q ≡ length ps
  length-Full _ _ no_packets = refl
  length-Full _ _ (packet p len x q ps e h f) = ap suc (length-Full q ps f)

  pub length-Open :
      (q : List PacketBuffer) (ps : List (Bytes × X)) → Open q ps → length q ≡ suc (length ps)
  length-Open _ _ (at_back p e) = refl
  length-Open _ _ (before p len x q ps e h f) = ap suc (length-Open q ps f)

  -- A packet at the back of the queue.
  pub fill_last-Full :
      (b : Bytes) (y : X) (q : List PacketBuffer) (ps : List (Bytes × X))
      → length b ≤ last_size q
      → Open q ps
      → Full (fill_last b (into y) q) (ps ++ (b, y) ∷ [])
  unfolding fill_last last_size overwrite
  fill_last-Full b y _ _ l (at_back p e) =
      subst
        (λ d.
          Full (record { buf = overwrite b p.buf; filled = some (length b, into y) } ∷ [])
            ((d, y) ∷ []))
        (take-append b (drop (length b) p.buf))
        (packet (record { buf = overwrite b p.buf; filled = some (length b, into y) }) (length b) y
          [] [] refl (omega (arith, length-append b (drop (length b) p.buf))) no_packets)
  fill_last-Full b y _ _ l (before p len x _ _ e h (at_back p' e')) =
      packet p len x _ _ e h (fill_last-Full b y (p' ∷ []) [] l (at_back p' e'))
  fill_last-Full b y _ _ l (before p len x _ _ e h (before p' len' x' q ps e' h' f)) =
      packet p len x _ _ e h (fill_last-Full b y (p' ∷ q) _ l (before p' len' x' q ps e' h' f))

  pub length-fill_last :
      (b : Bytes) (a : Address) (q : List PacketBuffer) → length (fill_last b a q) ≡ length q
  unfolding fill_last
  length-fill_last b a [] = refl
  length-fill_last b a (p ∷ []) = refl
  length-fill_last b a (p ∷ p' ∷ q) = ap suc (length-fill_last b a (p' ∷ q))

unfoldable pub Clean : List PacketBuffer → Type 0
Clean [] = Unit {0}
Clean (p ∷ ps) = (p.filled ≡ none) × Clean ps

pub new_packets-Clean : (n : ℕ) (ps : List PacketBuffer) → Clean ps → Clean (new_packets n ++ ps)
unfolding new_packets new_packet Clean
new_packets-Clean zero ps c = c
new_packets-Clean (suc n) ps c = (refl, new_packets-Clean n ps c)

pub length-new_packets : (n : ℕ) → length (new_packets n) ≡ n
unfolding new_packets
length-new_packets zero = refl
length-new_packets (suc n) = ap suc (length-new_packets n)

-- There is a buffer, there are at most `m`, and those in the pool are empty.
pub record Sized (m : ℕ) (c : CopyBuffer) : Type 0 where
  pub bound : c.max_buffer_size ≡ m
  pub clean : Clean c.pool
  pub inhabited : 0 < length c.pool + length c.queue
  pub within : length c.pool + length c.queue ≤ m
