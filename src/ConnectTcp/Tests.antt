-- ===== src/ConnectTcp/Tests.antt =====
-- Runs of the copying between two TCP streams, and the theorems about it on concrete streams.
use rabbit_digger.Base.{
  Bytes, ℕ, zero, suc, ◌<◌, [], ◌∷◌, ◌++◌, length, take, drop, ◌≡◌, ◌≢◌, refl, sym, ap, arith,
  length-take, take-append-drop, false,
}
use rabbit_digger.Base.Io.{done, Stream, done-inj}
use rabbit_digger.ConnectTcp.{
  CopyBuffer, finished, out_of_fuel, Copy, overwrite, take_in, read_answer, read_if, read_in,
  advance, write_next, write_out, finish_answer, finish_if, finish, and_then, round, poll_copy,
}
use rabbit_digger.ConnectTcp.Both.{CopyBidirectional, running, poll}
use rabbit_digger.ConnectTcp.Invariant.{Good}
use rabbit_digger.ConnectTcp.Delivered.{Delivers, poll_copy-Delivers}
use rabbit_digger.ConnectTcp.Ends.{poll_copy-in_fuel}
use rabbit_digger.ConnectTcp.Both.Delivered.{BothGood, Carries, poll-Carries}

take-least : (n : ℕ) (s : Bytes) → take (length (take n s)) s ≡ take n s
take-least zero s = refl
take-least (suc n) [] = refl
take-least (suc n) (x ∷ s) = ap (◌∷◌ x) (take-least n s)

take_nothing : (n : ℕ) (s : Bytes) → 0 < n → take n s ≡ [] → s ≡ []
take_nothing zero s h e = absurd (omega arith)
take_nothing (suc n) [] h e = refl
take_nothing (suc n) (x ∷ s) h e = cc

-- A stream whose bytes are all there, and which takes two bytes at a time.
abbrev pipe : Stream
pipe = record {
  T = Bytes × Bytes;
  poll_read = λ n t. (done (take n t.0), (drop n t.0, t.1));
  poll_write = λ s t. (done (length (take 2 s)), (t.0, t.1 ++ take 2 s));
  poll_flush = λ t. (done tt, t);
  poll_shutdown = λ t. (done tt, t);
  incoming = λ t. t.0;
  written = λ t. t.1;
  read-incoming =
      λ n t e. rw (← done-inj e) (sym (take-append-drop n t.0), omega (arith, length-take n t.0));
  read_end = λ n t h e. take_nothing n t.0 h (done-inj e);
  read_waits = λ n t h. absurd (h (take n t.0) refl);
  read-written = λ n t. refl;
  write-written = λ s t e.
      rw (← done-inj e) (ap (λ x. t.1 ++ x) (sym (take-least 2 s)), omega (arith, length-take 2 s));
  write_waits = λ s t h. absurd (h (length (take 2 s)) refl);
  write-incoming = λ s t. refl;
  flush-written = λ t. refl;
  flush-incoming = λ t. refl;
  shutdown-written = λ t. refl;
  shutdown-incoming = λ t. refl;
}

abbrev left : Bytes × Bytes
left = (1 ∷ 2 ∷ 3 ∷ 4 ∷ 5 ∷ [], [])

abbrev right : Bytes × Bytes
right = (6 ∷ [], [])

abbrev buffer : CopyBuffer
buffer = record {
  read_done = false;
  need_flush = false;
  pos = 0;
  cap = 0;
  amt = 0;
  buf = 0 ∷ 0 ∷ 0 ∷ [];
}

abbrev copy : Copy pipe pipe
copy = record { c = buffer; r = left; w = right }

buffer-Good : (r : Bytes × Bytes) → Good pipe pipe buffer r
buffer-Good r = record {
  ordered = omega arith;
  inside = omega arith;
  roomy = omega arith;
  ended = λ e. cc;
}

copies :
    (poll_copy pipe pipe 9 copy).0 ≡ finished 5
    × (poll_copy pipe pipe 9 copy).1.w ≡ (6 ∷ [], 1 ∷ 2 ∷ 3 ∷ 4 ∷ 5 ∷ [])
unfolding poll_copy round and_then finish finish_if finish_answer write_out write_next advance
    read_in read_if read_answer take_in overwrite
copies = (refl, refl)

poll_copy-Delivers_example : Delivers pipe pipe copy (poll_copy pipe pipe 9 copy)
poll_copy-Delivers_example = poll_copy-Delivers pipe pipe 9 copy (buffer-Good left)

poll_copy-in_fuel_example : (poll_copy pipe pipe 9 copy).0 ≢ out_of_fuel
poll_copy-in_fuel_example = poll_copy-in_fuel pipe pipe 9 copy (buffer-Good left) (omega arith)

abbrev both : CopyBidirectional pipe pipe
both = record { a = left; b = right; a_to_b = running buffer; b_to_a = running buffer }

both-Good : BothGood pipe pipe both
both-Good = record { good_ab = buffer-Good left; good_ba = buffer-Good right }

poll-Carries_example : Carries pipe pipe (1 ∷ 2 ∷ 3 ∷ 4 ∷ 5 ∷ []) (6 ∷ []) (poll pipe pipe 9 both)
poll-Carries_example = poll-Carries pipe pipe 9 both both-Good
