-- ===== src/Peekable/Order.antt =====
-- Peeks and reads of rd-std/src/util/peekable_tcpstream.rs, in any order: no byte is lost, doubled or
-- moved.
use mathlib.Core.List.{append_assoc}
use rabbit_digger.Base.{
  Bytes, ℕ, zero, suc, ◌-◌, ◌≤◌, List, [], ◌∷◌, ◌++◌, Option, none, some, Bool, true, false, ◌&&◌,
  ltb, length, take, drop, ◌≡◌, refl, sym, ap, ◌∙◌, arith, MayPanic, returns, ◌>>=◌, at_range, min,
  Option-cases, Bool-cases, inl, inr, length-append, length-take, take-append-drop,
}
use rabbit_digger.Peekable.{
  Source, PeekableTcpStream, read_first, poll_read, fill_buf, peek_filled, peek_exact,
}

take-take :
    {A : Type 0} (n m : ℕ) (xs : List A) → n ≤ length (take m xs) → take n (take m xs) ≡ take n xs
take-take zero m xs h = refl
take-take (suc n) zero xs h = absurd (omega arith)
take-take (suc n) (suc m) [] h = refl
take-take (suc n) (suc m) (x ∷ xs) h = ap (◌∷◌ x) (take-take n m xs (omega arith))

take-append-le :
    {A : Type 0} (n : ℕ) (xs ys : List A) → n ≤ length xs → take n (xs ++ ys) ≡ take n xs
take-append-le zero xs ys h = refl
take-append-le (suc n) [] ys h = absurd (omega arith)
take-append-le (suc n) (x ∷ xs) ys h = ap (◌∷◌ x) (take-append-le n xs ys (omega arith))

at_range_prefix :
    {A : Type 0} (n : ℕ) (xs : List A) → n ≤ length xs → at_range xs 0 n ≡ returns (take n xs)
at_range_prefix n xs h = ground arith

take-empty : {A : Type 0} (n : ℕ) (xs : List A) → take (suc n) xs ≡ [] → xs ≡ []
take-empty n [] h = refl
take-empty n (x ∷ xs) h = cc h

pub ltb-false : (a b : ℕ) → ltb a b ≡ false → b ≤ a
ltb-false a b h = ground arith

module _ (source : Source) where
  open source use {
    Tcp, read_some, read_exact, incoming, read_some-incoming, read_some_none, read_exact-incoming,
  }

  -- All that is still to be read: what was peeked at, then what comes in.
  abbrev pub unread : PeekableTcpStream source → Bytes
  unread p = p.buf ++ incoming p.tcp

  abbrev pub bytes_of : Option Bytes → Bytes
  bytes_of none = []
  bytes_of (some b) = b

  read_first-unread :
      (wrap remaining : ℕ) (p : PeekableTcpStream source) (first : Bytes)
      → take (suc wrap) p.buf ≡ first
      → let q = read_first source first remaining p in unread p ≡ bytes_of q.0 ++ unread q.1
  unfolding read_first
  read_first-unread wrap remaining p [] e = elim (Option-cases (read_some remaining p.tcp).0) [
    | inl waits ↦ rw waits (ap (λ i. p.buf ++ i) (sym (read_some_none remaining p.tcp waits)))
    | inr (b, came) ↦ rw (came, take-empty wrap p.buf e) (read_some-incoming remaining p.tcp came)
  ]
  read_first-unread wrap remaining p (b ∷ first) e =
      let n = min (suc (length first)) remaining in
      let same = rw e at (take-take n (suc wrap) p.buf (rw e (omega arith))) in
      ap (λ x. x ++ incoming p.tcp) (sym (take-append-drop n p.buf))
      ∙ append_assoc (take n p.buf) (drop n p.buf) (incoming p.tcp)
      ∙ ap (λ x. x ++ (drop n p.buf ++ incoming p.tcp)) (sym same)

  poll_read-unread :
      (wrap remaining : ℕ) (p : PeekableTcpStream source)
      → let q = poll_read source wrap remaining p in unread p ≡ bytes_of q.0 ++ unread q.1
  unfolding poll_read
  poll_read-unread wrap remaining p =
      read_first-unread wrap remaining p (take (suc wrap) p.buf) refl

  -- What a peek that returns so has done.
  abbrev pub Peeked :
      ℕ → PeekableTcpStream source → Option Bytes → PeekableTcpStream source → Type 0
  Peeked size p none q = q.buf ≡ p.buf
  Peeked size p (some b) q = (length b ≡ size) × (take size (unread p) ≡ b) × (unread q ≡ unread p)

  abbrev Filled : ℕ → PeekableTcpStream source → Bool → PeekableTcpStream source → Type 0
  Filled size p true q = (size ≤ length q.buf) × (unread q ≡ unread p)
  Filled size p false q = q.buf ≡ p.buf

  fill_buf-Filled :
      (size : ℕ) (p : PeekableTcpStream source)
      → let f = fill_buf source size p in Filled size p f.0 f.1
  unfolding fill_buf
  fill_buf-Filled size p = elim (Bool-cases (ltb (length p.buf) size)) [
    | inr enough ↦ rw (fill_buf, enough) (ltb-false (length p.buf) size enough, refl)
    | inl less ↦ elim (Option-cases (read_exact (size - length p.buf) p.tcp).0) [
      | inl fails ↦ rw (fill_buf, less, fails) refl
      | inr (b, came) ↦
          let (long, next) = read_exact-incoming (size - length p.buf) p.tcp came in
          rw (fill_buf, less, came)
            (
              omega (arith, long, length-append p.buf b),
              append_assoc p.buf b _ ∙ ap (λ i. p.buf ++ i) (sym next),
            )
    ]
  ]

  peek_filled-Peeked :
      (size : ℕ) (p : PeekableTcpStream source) (good : Bool) (q : PeekableTcpStream source)
      → Filled size p good q
      → (r : Option Bytes) × (q' : PeekableTcpStream source) × (peek_filled source size good q
          ≡ returns (r, q'))
        × Peeked size p r q'
  unfolding peek_filled
  peek_filled-Peeked size p false q f = (none, q, refl, f)
  peek_filled-Peeked size p true q (le, same) = (
    some (take size q.buf),
    q,
    rw (at_range_prefix size q.buf le),
    (
      omega (arith, length-take size q.buf),
      rw (← same) (take-append-le size q.buf (incoming q.tcp) le),
      same,
    ),
  )

  -- A peek never panics. If it succeeds, it gives the next bytes that are to be read, as many as were
  -- asked for, and leaves all of them to be read; if it fails, what was peeked at before is kept.
  pub peek_exact_lem :
      (size : ℕ) (p : PeekableTcpStream source)
      → (r : Option Bytes) × (q : PeekableTcpStream source) × (peek_exact source size p
          ≡ returns (r, q))
        × Peeked size p r q
  unfolding peek_exact
  peek_exact_lem size p =
      let (good, q) = fill_buf source size p in
      peek_filled-Peeked size p good q (fill_buf-Filled size p)

-- A read into a buffer with so many bytes left, while the ring buffer wraps around somewhere; or a
-- peek at so many bytes.
pub data Op : Type 0 where
  read_op : ℕ → ℕ → Op
  peek_op : ℕ → Op

abbrev is_some : {A : Type 0} → Option A → Bool
is_some (some a) = true
is_some none = false

module _ (source : Source) where
  open source use {incoming}

  -- The bytes that the reads give, whether all peeks succeed, and the stream after it.
  unfoldable pub run :
      List Op → PeekableTcpStream source → MayPanic (Bytes × Bool × PeekableTcpStream source)
  run [] p = returns ([], true, p)
  run (read_op wrap n ∷ ops) p =
      let (r, q) = poll_read source wrap n p in
      run ops q >>= λ (d, good, z). returns (bytes_of source r ++ d, good, z)
  run (peek_op n ∷ ops) p = peek_exact source n p >>= λ rq.
      run ops rq.1 >>= λ (d, good, z). returns (d, is_some rq.0 && good, z)

  -- What was unread is what the reads gave and what is unread now.
  abbrev pub InOrder : Bool → Bytes → PeekableTcpStream source → PeekableTcpStream source → Type 0
  InOrder true d p z = unread source p ≡ d ++ unread source z
  InOrder false d p z = Unit {0}

  InOrder-read :
      (good : Bool) (b d : Bytes) (p q z : PeekableTcpStream source)
      → unread source p ≡ b ++ unread source q
      → InOrder good d q z
      → InOrder good (b ++ d) p z
  InOrder-read true b d p q z e h =
      e ∙ ap (λ x. b ++ x) h ∙ sym (append_assoc b d (unread source z))
  InOrder-read false b d p q z e h = tt

  InOrder-peek :
      (n : ℕ) (r : Option Bytes) (good : Bool) (d : Bytes) (p q z : PeekableTcpStream source)
      → Peeked source n p r q
      → InOrder good d q z
      → InOrder (is_some r && good) d p z
  InOrder-peek n none good d p q z h k = tt
  InOrder-peek n (some b) true d p q z (l, t, same) k = sym same ∙ k
  InOrder-peek n (some b) false d p q z h k = tt

  -- Any sequence of peeks and reads is carried out without a panic; if all its peeks succeed, the
  -- reads give the bytes of the stream in their order, none lost and none given twice, up to where
  -- the reading stands after it.
  pub run_lem :
      (ops : List Op) (p : PeekableTcpStream source)
      → (d : Bytes) × (good : Bool) × (z : PeekableTcpStream source) × (run ops p
          ≡ returns (d, good, z))
        × InOrder good d p z
  unfolding run
  run_lem [] p = ([], true, p, refl, refl)
  run_lem (read_op wrap n ∷ ops) p =
      let (r, q) = poll_read source wrap n p in
      let (d, good, z, e, h) = run_lem ops q in
      (
        bytes_of source r ++ d,
        good,
        z,
        rw e,
        InOrder-read good (bytes_of source r) d p q z (poll_read-unread source wrap n p) h,
      )
  run_lem (peek_op n ∷ ops) p =
      let (r, q, e, k) = peek_exact_lem source n p in
      let (d, good, z, e', h) = run_lem ops q in
      (d, is_some r && good, z, rw (e, e'), InOrder-peek n r good d p q z k h)
