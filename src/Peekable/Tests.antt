-- ===== src/Peekable/Tests.antt =====
-- Runs of the peekable stream, and the theorems about it on a stream of given bytes.
use rabbit_digger.Base.{
  Bytes, ℕ, [], ◌∷◌, ◌++◌, Option, none, some, Bool, true, if◌then◌else◌, ltb, length, take, drop,
  ◌≡◌, refl, sym, arith, returns, some-inj, length-take, take-append-drop, Bool-cases, inl, inr,
}
use rabbit_digger.Peekable.{
  Source, PeekableTcpStream, new, read_first, poll_read, fill_buf, peek_filled, peek_exact,
}
use rabbit_digger.Peekable.Order.{
  ltb-false, Peeked, peek_exact_lem, read_op, peek_op, run, InOrder, run_lem,
}

abbrev exact : ℕ → Bytes → Option Bytes × Bytes
exact n t = if ltb (length t) n then (none, []) else (some (take n t), drop n t)

pub exact_lem :
    (n : ℕ) (t : Bytes) {b : Bytes}
    → (exact n t).0 ≡ some b
    → (length b ≡ n) × (t ≡ b ++ (exact n t).1)
exact_lem n t h = elim (Bool-cases (ltb (length t) n)) [
  | inl short ↦ let no_bytes = rw short at h in cc no_bytes
  | inr long ↦
      let got = some-inj (rw long at h) in
      rw (long, ← got)
        (omega (arith, length-take n t, ltb-false (length t) n long), sym (take-append-drop n t))
]

-- A stream of bytes that are all there.
abbrev pub bytes : Source
bytes = record {
  Tcp = Bytes;
  read_some = λ n t. (some (take n t), drop n t);
  read_exact = exact;
  incoming = λ t. t;
  read_some-incoming = λ n t h. rw (← some-inj h) (sym (take-append-drop n t));
  read_some_none = λ n t h. cc h;
  read_exact-incoming = exact_lem;
}

abbrev stream : PeekableTcpStream bytes
stream = new bytes (1 ∷ 2 ∷ 3 ∷ 4 ∷ [])

runs :
    (run bytes (peek_op 3 ∷ read_op 0 5 ∷ read_op 1 5 ∷ peek_op 1 ∷ read_op 0 9 ∷ []) stream
      ≡ returns (1 ∷ 2 ∷ 3 ∷ 4 ∷ [], true, new bytes []))
    × (peek_exact bytes 5 stream ≡ returns (none, new bytes []))
unfolding run new read_first poll_read fill_buf peek_filled peek_exact
runs = (refl, refl)

peek_exact_lem_example :
    (r : Option Bytes) × (q : PeekableTcpStream bytes) × (peek_exact bytes 2 stream
      ≡ returns (r, q))
    × Peeked bytes 2 stream r q
peek_exact_lem_example = peek_exact_lem bytes 2 stream

run_lem_example :
    (d : Bytes) × (good : Bool) × (z : PeekableTcpStream bytes) × (run bytes
        (peek_op 3 ∷ read_op 0 5 ∷ [])
        stream
      ≡ returns (d, good, z))
    × InOrder bytes good d stream z
run_lem_example = run_lem bytes (peek_op 3 ∷ read_op 0 5 ∷ []) stream
