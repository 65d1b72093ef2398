-- ===== src/ConnectionManager/Charged.antt =====
-- What a report does to the table: it charges the bytes that it names to its connection and to the
-- totals, modulo 2 ^ 64, and leaves every other connection alone.
use rabbit_digger.Base.{
  ℕ, ◌+◌, ◌%◌, List, [], ◌∷◌, some, ◌≡◌, ◌≢◌, refl, arith, foldl, ℕ_discrete, ◌∙◌,
}
use rabbit_digger.Base.Assoc.{lookup-insert_self, lookup-insert_ne}
use rabbit_digger.ConnectionManager.{
  u64_mod, add64, EventType, read, write, recv_from, send_to, ConnectionInfo, ConnectionState, find,
  put, add_download, add_upload, apply_event,
}

-- The same number of bytes, as 64-bit counters show it.
abbrev pub SameCount : ℕ → ℕ → Type 0
SameCount a b = a % u64_mod ≡ b % u64_mod

module _ {V : Type 0} where
  abbrev pub down_of : EventType V → ℕ
  down_of (read n) = n
  down_of (recv_from a n) = n
  down_of _ = 0

  abbrev pub up_of : EventType V → ℕ
  up_of (write n) = n
  up_of (send_to a n) = n
  up_of _ = 0

  abbrev pub downs : List (EventType V) → ℕ
  downs [] = 0
  downs (e ∷ es) = down_of e + downs es

  abbrev pub ups : List (EventType V) → ℕ
  ups [] = 0
  ups (e ∷ es) = up_of e + ups es

  -- The events of a report: byte counts, nothing else.
  abbrev pub IsCount : EventType V → Type 0
  IsCount (read n) = Unit
  IsCount (write n) = Unit
  IsCount (recv_from a n) = Unit
  IsCount (send_to a n) = Unit
  IsCount _ = ⊥

  abbrev pub AllCounts : List (EventType V) → Type 0
  AllCounts [] = Unit {0}
  AllCounts (e ∷ es) = IsCount e × AllCounts es

  pub record Charged (uuid : ℕ) (down up : ℕ) (info : ConnectionInfo V) (s s' : ConnectionState V)
      : Type 0 where
    pub after : ConnectionInfo V
    pub found : find uuid s' ≡ some after
    pub download : SameCount after.download (info.download + down)
    pub upload : SameCount after.upload (info.upload + up)
    pub total_down : SameCount s'.total_download (s.total_download + down)
    pub total_up : SameCount s'.total_upload (s.total_upload + up)
    pub others : (q : ℕ) → q ≢ uuid → find q s' ≡ find q s

  pub find-put_self :
      (uuid : ℕ) (i : ConnectionInfo V) (s : ConnectionState V) → find uuid (put uuid i s) ≡ some i
  find-put_self uuid i s = lookup-insert_self ℕ_discrete uuid i s.connections

  pub find-put_ne :
      (uuid : ℕ) (i : ConnectionInfo V) (s : ConnectionState V) (q : ℕ)
      → q ≢ uuid
      → find q (put uuid i s) ≡ find q s
  find-put_ne uuid i s q ne = lookup-insert_ne ℕ_discrete uuid q i s.connections ne

  module _ {uuid : ℕ} {info : ConnectionInfo V} {s : ConnectionState V}
      (here : find uuid s ≡ some info) where
    pub Charged-none : Charged uuid 0 0 info s s
    Charged-none = record {
      after = info;
      found = here;
      download = omega arith;
      upload = omega arith;
      total_down = omega arith;
      total_up = omega arith;
      others = λ q ne. refl;
    }

    add_download-Charged : (n : ℕ) → Charged uuid n 0 info s (add_download uuid n s)
    unfolding add_download
    add_download-Charged n =
        rw (add_download, here)
          (record {
            after = record info { download = add64 info.download n };
            found = find-put_self uuid _ s;
            download = omega arith;
            upload = omega arith;
            total_down = omega arith;
            total_up = omega arith;
            others = find-put_ne uuid _ s;
          })

    add_upload-Charged : (n : ℕ) → Charged uuid 0 n info s (add_upload uuid n s)
    unfolding add_upload
    add_upload-Charged n =
        rw (add_upload, here)
          (record {
            after = record info { upload = add64 info.upload n };
            found = find-put_self uuid _ s;
            download = omega arith;
            upload = omega arith;
            total_down = omega arith;
            total_up = omega arith;
            others = find-put_ne uuid _ s;
          })

    apply_event-Charged :
        (e : EventType V) (time : ℕ)
        → IsCount e
        → Charged uuid (down_of e) (up_of e) info s (apply_event uuid time s e)
    unfolding apply_event
    apply_event-Charged (read n) time h = add_download-Charged n
    apply_event-Charged (recv_from a n) time h = add_download-Charged n
    apply_event-Charged (write n) time h = add_upload-Charged n
    apply_event-Charged (send_to a n) time h = add_upload-Charged n
    apply_event-Charged _ time h = absurd h

  Charged-trans :
      {uuid d d' u u' : ℕ} {info : ConnectionInfo V} {s t v : ConnectionState V}
      → (c : Charged uuid d u info s t) → Charged uuid d' u' c.after t v
      → Charged uuid (d + d') (u + u') info s v
  Charged-trans c e = record {
    after = e.after;
    found = e.found;
    download = omega (arith, c.download, e.download);
    upload = omega (arith, c.upload, e.upload);
    total_down = omega (arith, c.total_down, e.total_down);
    total_up = omega (arith, c.total_up, e.total_up);
    others = λ q ne. e.others q ne ∙ c.others q ne;
  }

  -- A report of a connection that is in the table charges all its bytes.
  pub report-Charged :
      (es : List (EventType V)) {uuid : ℕ} (time : ℕ) {info : ConnectionInfo V}
      {s : ConnectionState V}
      → find uuid s ≡ some info
      → AllCounts es
      → Charged uuid (downs es) (ups es) info s (foldl (apply_event uuid time) s es)
  report-Charged [] time here h = Charged-none here
  report-Charged (e ∷ es) time here h =
      let first = apply_event-Charged here e time h.0 in
      Charged-trans first (report-Charged es time first.found h.1)
