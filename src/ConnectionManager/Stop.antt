-- ===== src/ConnectionManager/Stop.antt =====
-- `stop_connection` and `stop_connections` of src/rabbit_digger/connection_manager.rs. Sending on a
-- stop channel succeeds if its receiver, which the connection holds, is still `alive`.
use mathlib.Core.List.{lookup}
use rabbit_digger.Base.{
  ℕ, ◌+◌, List, [], ◌∷◌, ◌++◌, Option, none, some, ◌≡◌, ◌≢◌, refl, ◌∙◌, arith, Bool, false,
  if◌then◌else◌, ℕ_discrete, length, length-append, sym, ap, Bool-cases, if_pos, if_neg,
  Option-cases, inl, inr,
}
use rabbit_digger.Base.Assoc.{lookup-cons}
use rabbit_digger.ConnectionManager.{ConnectionInfo, ConnectionState, find, put}
use rabbit_digger.ConnectionManager.Charged.{find-put_self, find-put_ne}

-- The state after a stop, and the channels on which the stop signal was delivered.
pub record Stopped (V : Type 0) : Type 0 where
  pub state : ConnectionState V
  pub signals : List ℕ

-- `sender.send(())` on the sender that was taken: the channels that get the signal.
unfoldable pub signal : (ℕ → Bool) → Option ℕ → List ℕ
signal alive none = []
signal alive (some sender) = if alive sender then sender ∷ [] else []

-- `sender.send(()).is_ok()`, and `unwrap_or_default()` where no sender is left.
unfoldable pub sent_ok : (ℕ → Bool) → Option ℕ → Bool
sent_ok alive none = false
sent_ok alive (some sender) = alive sender

-- The stoppers that connections still hold, in the order of the connections.
abbrev pub hold : Option ℕ → List ℕ → List ℕ
hold none others = others
hold (some sender) others = sender ∷ others

abbrev pub stoppers : {V : Type 0} → List (ℕ × ConnectionInfo V) → List ℕ
stoppers [] = []
stoppers ((uuid, conn) ∷ rest) = hold conn.stop_sender (stoppers rest)

-- Those whose receiver is alive.
abbrev pub those_alive : (ℕ → Bool) → List ℕ → List ℕ
those_alive alive [] = []
those_alive alive (c ∷ cs) = if alive c then c ∷ those_alive alive cs else those_alive alive cs

abbrev without_stopper : {V : Type 0} → ConnectionInfo V → ConnectionInfo V
without_stopper conn = record conn { stop_sender = none }

length-signal :
    (alive : ℕ → Bool) (o : Option ℕ) → length (signal alive o) ≡ (if sent_ok alive o then 1 else 0)
unfolding signal sent_ok
length-signal alive none = refl
length-signal alive (some c) = ground arith

signal-those_alive :
    (alive : ℕ → Bool) (o : Option ℕ) (cs : List ℕ)
    → signal alive o ++ those_alive alive cs ≡ those_alive alive (hold o cs)
unfolding signal
signal-those_alive alive none cs = refl
signal-those_alive alive (some c) cs = elim (Bool-cases (alive c)) [
  | inl yes_ ↦ rw yes_ refl
  | inr no_ ↦ rw no_ refl
]

module _ {V : Type 0} (alive : ℕ → Bool) where
  unfoldable pub stop_connection : ℕ → ConnectionState V → Stopped V × Bool
  stop_connection uuid s = elim (find uuid s) [
    | none ↦ (record { state = s; signals = [] }, false)
    | some conn ↦ (
      record { state = put uuid (without_stopper conn) s; signals = signal alive conn.stop_sender },
      sent_ok alive conn.stop_sender,
    )
  ]

  -- The loop of `stop_connections`, with its count.
  unfoldable pub stop_each : List (ℕ × ConnectionInfo V) → List (ℕ × ConnectionInfo V) × List ℕ × ℕ
  stop_each [] = ([], [], 0)
  stop_each ((uuid, conn) ∷ rest) =
      let (rest', signals, stopped) = stop_each rest in
      (
        (uuid, without_stopper conn) ∷ rest',
        signal alive conn.stop_sender ++ signals,
        length (signal alive conn.stop_sender) + stopped,
      )

  unfoldable pub stop_connections : ConnectionState V → Stopped V × ℕ
  stop_connections s =
      let (connections, signals, stopped) = stop_each s.connections in
      (record { state = record s { connections = connections }; signals = signals }, stopped)

  stop_connection-none :
      (uuid : ℕ) (s : ConnectionState V)
      → find uuid s ≡ none
      → stop_connection uuid s ≡ (record { state = s; signals = [] }, false)
  unfolding stop_connection
  stop_connection-none uuid s e = rw (stop_connection, e)

  stop_connection-some :
      (uuid : ℕ) {conn : ConnectionInfo V} (s : ConnectionState V)
      → find uuid s ≡ some conn
      → stop_connection uuid s ≡ (
        record {
          state = put uuid (without_stopper conn) s;
          signals = signal alive conn.stop_sender;
        },
        sent_ok alive conn.stop_sender,
      )
  unfolding stop_connection
  stop_connection-some uuid s e = rw (stop_connection, e)

  -- What stopping `uuid` returns depends on its own entry alone.
  stop_connection-find :
      (uuid : ℕ) (s t : ConnectionState V)
      → find uuid s ≡ find uuid t
      → ((stop_connection uuid s).0.signals ≡ (stop_connection uuid t).0.signals)
        × ((stop_connection uuid s).1 ≡ (stop_connection uuid t).1)
  stop_connection-find uuid s t e = elim (Option-cases (find uuid t)) [
    | inl gone ↦
        rw (stop_connection-none uuid s (e ∙ gone), stop_connection-none uuid t gone) (refl, refl)
    | inr (conn, here) ↦
        rw (stop_connection-some uuid s (e ∙ here), stop_connection-some uuid t here) (refl, refl)
  ]

  -- Stopping a connection reports success exactly when one signal went out; stopping it again sends
  -- nothing and reports failure; what stopping another connection returns is as before.
  pub stop_connection_once :
      (uuid q : ℕ) (s : ConnectionState V)
      → q ≢ uuid
      → let (first, stopped) = stop_connection uuid s in
        let (second, again) = stop_connection uuid first.state in
        (length first.signals ≡ (if stopped then 1 else 0))
        × (second.signals ≡ [])
        × (again ≡ false)
        × ((stop_connection q first.state).0.signals ≡ (stop_connection q s).0.signals)
        × ((stop_connection q first.state).1 ≡ (stop_connection q s).1)
  unfolding signal sent_ok
  stop_connection_once uuid q s ne = elim (Option-cases (find uuid s)) [
    | inl gone ↦
        rw (stop_connection-none uuid s gone, stop_connection-none uuid s gone)
          (refl, refl, refl, refl, refl)
    | inr (conn, here) ↦
        let kept = put uuid (without_stopper conn) s in
        let others =
          stop_connection-find q kept s (find-put_ne uuid (without_stopper conn) s q ne) in
        rw
          (
            stop_connection-some uuid s here,
            stop_connection-some uuid kept (find-put_self uuid (without_stopper conn) s),
          )
          (length-signal alive conn.stop_sender, refl, refl, others.0, others.1)
  ]

  find-all_stopped :
      (q : ℕ) (m : List (ℕ × ConnectionInfo V)) {conn : ConnectionInfo V}
      → lookup ℕ_discrete q (stop_each m).0 ≡ some conn
      → conn.stop_sender ≡ none
  unfolding stop_each
  find-all_stopped q [] h = unfold lookup in cc
  find-all_stopped q ((u, c) ∷ m) {conn} h =
      let e = sym (lookup-cons ℕ_discrete q u (without_stopper c) (stop_each m).0) ∙ h in
      elim (ℕ_discrete q u) [
        | yes p ↦
            let same : some (without_stopper c) ≡ some conn =
              sym (if_pos (ℕ_discrete q u) p _ _) ∙ e in
            ground arith
        | no n ↦ find-all_stopped q m (sym (if_neg (ℕ_discrete q u) n _ _) ∙ e)
      ]

  stop_each-signals : (m : List (ℕ × ConnectionInfo V)) → length (stop_each m).1 ≡ (stop_each m).2
  unfolding stop_each
  stop_each-signals [] = refl
  stop_each-signals ((u, c) ∷ m) =
      omega (arith, length-append (signal alive c.stop_sender) (stop_each m).1, stop_each-signals m)

  stop_each-stoppers :
      (m : List (ℕ × ConnectionInfo V)) → (stop_each m).1 ≡ those_alive alive (stoppers m)
  unfolding stop_each
  stop_each-stoppers [] = refl
  stop_each-stoppers ((u, c) ∷ m) =
      ap (λ l. signal alive c.stop_sender ++ l) (stop_each-stoppers m)
      ∙ signal-those_alive alive c.stop_sender (stoppers m)

  stop_each_again :
      (m : List (ℕ × ConnectionInfo V)) → stop_each (stop_each m).0 ≡ ((stop_each m).0, [], 0)
  unfolding stop_each signal
  stop_each_again [] = refl
  stop_each_again ((u, c) ∷ m) = ground (arith, stop_each_again m)

  stop_connection_after :
      (q : ℕ) (s : ConnectionState V)
      → ((conn : ConnectionInfo V) → find q s ≡ some conn → conn.stop_sender ≡ none)
      → ((stop_connection q s).0.signals ≡ []) × ((stop_connection q s).1 ≡ false)
  unfolding signal sent_ok
  stop_connection_after q s h = elim (Option-cases (find q s)) [
    | inl gone ↦ rw (stop_connection-none q s gone) (refl, refl)
    | inr (conn, here) ↦ rw (stop_connection-some q s here, h conn here) (refl, refl)
  ]

  -- `stop_connections` signals, in order, the connections whose receiver is alive among all those
  -- that still have their stopper, returns how many these are and leaves the totals; after it no
  -- stop, of one connection or of all, sends a signal or reports one.
  pub stop_connections_all :
      (q : ℕ) (s : ConnectionState V)
      → let (first, stopped) = stop_connections s in
        let (second, again) = stop_connections first.state in
        (first.signals ≡ those_alive alive (stoppers s.connections))
        × (length first.signals ≡ stopped)
        × (first.state.total_upload ≡ s.total_upload)
        × (first.state.total_download ≡ s.total_download)
        × (second.signals ≡ [])
        × (again ≡ 0)
        × ((stop_connection q first.state).0.signals ≡ [])
        × ((stop_connection q first.state).1 ≡ false)
  unfolding stop_connections
  stop_connections_all q s =
      let twice = stop_each_again s.connections in
      let after = record s { connections = (stop_each s.connections).0 } in
      let one = stop_connection_after q after (λ c h. find-all_stopped q s.connections h) in
      (
        stop_each-stoppers s.connections,
        stop_each-signals s.connections,
        refl,
        refl,
        rw twice,
        rw twice,
        one.0,
        one.1,
      )
