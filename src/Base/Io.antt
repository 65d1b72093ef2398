-- ===== src/Base/Io.antt =====
-- Asynchronous input and output: the outcome of a poll, and the streams that code copies between.
use Prim.Native.Nat.{ℕ, ◌≤◌, ◌<◌}
use mathlib.Core.List.{List, [], ◌++◌}
use mathlib.Core.Logic.{◌≢◌, ◌⊎◌, inl, inr}
use mathlib.Core.Path.{◌≡◌, refl}
use rabbit_digger.Base.Lists.{length, take}

-- `io::Error`, by what the code itself makes; any other comes from outside.
pub data IoError : Type 0 where
  aborted_by_user write_zero not_found : IoError
  other : ℕ → IoError

-- `Poll<io::Result<A>>`.
pub data Poll (A : Type 0) : Type 0 where
  pending : Poll A
  done : A → Poll A
  failed : IoError → Poll A

-- A stream, `AsyncRead` with `AsyncWrite`. `incoming` is what is still to be read from it, `written`
-- what was written to it. A read hands out bytes off the front of `incoming`, as many as fit, and
-- none only at the end; a write takes a prefix of what it is given; nothing else moves a byte.
pub record Stream : Type 1 where
  pub T : Type 0
  pub poll_read : ℕ → T → Poll (List ℕ) × T
  pub poll_write : List ℕ → T → Poll ℕ × T
  pub poll_flush : T → Poll (Unit {0}) × T
  pub poll_shutdown : T → Poll (Unit {0}) × T
  pub incoming : T → List ℕ
  pub written : T → List ℕ
  pub read-incoming :
      (n : ℕ) (t : T) {b : List ℕ}
      → (poll_read n t).0 ≡ done b
      → (incoming t ≡ b ++ incoming (poll_read n t).1) × (length b ≤ n)
  pub read_end : (n : ℕ) (t : T) → 0 < n → (poll_read n t).0 ≡ done [] → incoming t ≡ []
  pub read_waits :
      (n : ℕ) (t : T)
      → ((b : List ℕ) → (poll_read n t).0 ≢ done b)
      → incoming (poll_read n t).1 ≡ incoming t
  pub read-written : (n : ℕ) (t : T) → written (poll_read n t).1 ≡ written t
  pub write-written :
      (s : List ℕ) (t : T) {i : ℕ}
      → (poll_write s t).0 ≡ done i
      → (written (poll_write s t).1 ≡ written t ++ take i s) × (i ≤ length s)
  pub write_waits :
      (s : List ℕ) (t : T)
      → ((i : ℕ) → (poll_write s t).0 ≢ done i)
      → written (poll_write s t).1 ≡ written t
  pub write-incoming : (s : List ℕ) (t : T) → incoming (poll_write s t).1 ≡ incoming t
  pub flush-written : (t : T) → written (poll_flush t).1 ≡ written t
  pub flush-incoming : (t : T) → incoming (poll_flush t).1 ≡ incoming t
  pub shutdown-written : (t : T) → written (poll_shutdown t).1 ≡ written t
  pub shutdown-incoming : (t : T) → incoming (poll_shutdown t).1 ≡ incoming t

pub Poll-cases :
    {A : Type 0} (p : Poll A)
    → (p ≡ pending) ⊎ (((e : IoError) × (p ≡ failed e)) ⊎ ((a : A) × (p ≡ done a)))
Poll-cases pending = inl refl
Poll-cases (failed e) = inr (inl (e, refl))
Poll-cases (done a) = inr (inr (a, refl))

pub done-inj : {A : Type 0} {a b : A} → done a ≡ done b → a ≡ b
done-inj e = cc
