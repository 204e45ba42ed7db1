-- ===== src/Writer/Kept.antt =====
-- Each step of the writer keeps the books.
use fastconf.Base.{
  ◌≤◌, ◌≡◌, refl, ap, ◌∙◌, inl, inr, Bool, true, false, ◌||◌, List, [], ◌∷◌, ◌++◌, arith,
  Bool-cases, length, length-append, ltb→lt,
}
use fastconf.Writer.{
  serve, resync, reject_pending, finish, Entry, Loop, reload_chan_cap, queued, ran, refused,
  refreshed, skipped, enqueue, has_room,
}
use fastconf.Writer.Log.{
  queued_in, ran_in, refused_in, owed_after, queued_in-append, ran_in-append, refused_in-append,
  owed-append,
}
use mathlib.Core.List.{append-nil, append_assoc}

module _ {R : Type 0} where
  -- The queue holds what was queued and neither ran nor was refused, first in first out; nothing is
  -- refused before the close, and what was refused came after all that ran; the token is there
  -- exactly if a refresh is owed; and the queue keeps to its capacity.
  pub record IsKept (s : Loop R) : Type 0 where
    pub in_order : queued_in s.log ≡ (ran_in s.log ++ refused_in s.log) ++ s.queue
    pub open_runs : s.closed ≡ false → refused_in s.log ≡ []
    pub token_owed : owed_after false s.log ≡ s.token
    pub bounded : length s.queue ≤ reload_chan_cap

  -- An entry that no list counts and that owes nothing.
  abbrev IsQuiet : Entry R → Type 0
  IsQuiet e = (queued_in (e ∷ []) ≡ []) × (ran_in (e ∷ []) ≡ []) × (refused_in (e ∷ []) ≡ [])

  pub noted-IsKept :
      (s : Loop R) (e : Entry R) (t : Bool)
      → IsKept s
      → IsQuiet e
      → owed_after s.token (e ∷ []) ≡ t
      → IsKept (record s { token = t; log = s.log ++ e ∷ [] })
  noted-IsKept s e t k (q, r, f) o = record {
    in_order =
        rw
          (
            queued_in-append s.log (e ∷ []),
            ran_in-append s.log (e ∷ []),
            refused_in-append s.log (e ∷ []),
            q,
            r,
            f,
            append-nil (queued_in s.log),
            append-nil (ran_in s.log),
            append-nil (refused_in s.log),
          )
          k.in_order;
    open_runs = λ c. refused_in-append s.log (e ∷ []) ∙ rw (k.open_runs c) f;
    token_owed = owed-append false s.log (e ∷ []) ∙ rw k.token_owed o;
    bounded = k.bounded;
  }

  pub enqueue-IsKept : (s : Loop R) (r : R) → IsKept s → has_room s ≡ true → IsKept (enqueue r s)
  enqueue-IsKept s r k h = record {
    in_order =
        queued_in-append s.log (queued r ∷ [])
        ∙ rw
            (
              k.in_order,
              ran_in-append s.log (queued r ∷ []),
              refused_in-append s.log (queued r ∷ []),
              append-nil (ran_in s.log),
              append-nil (refused_in s.log),
            )
            (append_assoc (ran_in s.log ++ refused_in s.log) s.queue (r ∷ []));
    open_runs = λ c. refused_in-append s.log (queued r ∷ []) ∙ rw (k.open_runs c) refl;
    token_owed = owed-append false s.log (queued r ∷ []) ∙ k.token_owed;
    bounded =
        ground (arith, length-append s.queue (r ∷ []), ltb→lt (length s.queue) reload_chan_cap h);
  }

  -- The phase, and an event watch that is paused or not, play no part.
  pub moved-IsKept :
      (s t : Loop R)
      → t.log ≡ s.log
      → t.queue ≡ s.queue
      → t.token ≡ s.token
      → (t.closed ≡ false → s.closed ≡ false)
      → IsKept s
      → IsKept t
  moved-IsKept s t l q o c k = record {
    in_order = rw (l, q) k.in_order;
    open_runs = λ d. rw l (k.open_runs (c d));
    token_owed = rw (l, o) k.token_owed;
    bounded = rw q k.bounded;
  }

  pub serve-IsKept :
      (s : Loop R) (r : R) (q : List R) → s.queue ≡ r ∷ q → IsKept s → IsKept (serve r q s)
  serve-IsKept s r q h k = elim (Bool-cases s.closed) [
    | inl e ↦ record {
      in_order =
          rw
            (
              e,
              queued_in-append s.log (refused r ∷ []),
              ran_in-append s.log (refused r ∷ []),
              refused_in-append s.log (refused r ∷ []),
              append-nil (queued_in s.log),
              append-nil (ran_in s.log),
              k.in_order,
              h,
              append_assoc (ran_in s.log) (refused_in s.log) (r ∷ q),
              append_assoc (ran_in s.log) (refused_in s.log ++ r ∷ []) q,
              append_assoc (refused_in s.log) (r ∷ []) q,
            )
            refl;
      open_runs = λ c. cc;
      token_owed = rw (e, owed-append false s.log (refused r ∷ [])) k.token_owed;
      bounded = ground (arith, k.bounded, h, ap length h);
    }
    | inr e ↦ record {
      in_order =
          rw
            (
              e,
              queued_in-append s.log (ran r ∷ []),
              ran_in-append s.log (ran r ∷ []),
              refused_in-append s.log (ran r ∷ []),
              append-nil (queued_in s.log),
              k.in_order,
              h,
              k.open_runs e,
              append-nil (ran_in s.log),
              append-nil (ran_in s.log ++ r ∷ []),
              append_assoc (ran_in s.log) (r ∷ []) q,
            )
            refl;
      open_runs = λ c.
          rw (e, refused_in-append s.log (ran r ∷ []), append-nil (refused_in s.log))
            (k.open_runs e);
      token_owed = rw (e, owed-append false s.log (ran r ∷ [])) k.token_owed;
      bounded = ground (arith, k.bounded, h, ap length h);
    }
  ]

  pub resync-IsKept : (s : Loop R) → IsKept s → IsKept (resync s)
  unfolding resync
  resync-IsKept s k = elim (Bool-cases (s.paused || s.closed)) [
    | inl e ↦ rw e (
        moved-IsKept (record s { token = false; log = s.log ++ skipped ∷ [] }) _ refl refl refl
          (λ c. c) (noted-IsKept s skipped false k (refl, refl, refl) refl))
    | inr e ↦ rw e (
        moved-IsKept (record s { token = false; log = s.log ++ refreshed ∷ [] }) _ refl refl refl
          (λ c. c) (noted-IsKept s refreshed false k (refl, refl, refl) refl))
  ]

  rejected :
      (q : List R) (b : Bool)
      → (queued_in (reject_pending q) ≡ [])
        × (ran_in (reject_pending q) ≡ [])
        × (refused_in (reject_pending q) ≡ q)
        × (owed_after b (reject_pending q) ≡ b)
  unfolding reject_pending
  rejected [] b = (refl, refl, refl, refl)
  rejected (r ∷ q) b = let (u, v, w, o) = rejected q b in (u, v, ap (λ k. r ∷ k) w, o)

  pub finish-IsKept : (s : Loop R) → s.closed ≡ true → IsKept s → IsKept (finish s)
  finish-IsKept s h k =
      let (u, v, w, o) = rejected s.queue s.token in
      let all = reject_pending s.queue in
      record {
        in_order =
            rw
              (
                queued_in-append s.log all,
                ran_in-append s.log all,
                refused_in-append s.log all,
                u,
                v,
                w,
                append-nil (queued_in s.log),
                append-nil (ran_in s.log),
                append-nil (ran_in s.log ++ (refused_in s.log ++ s.queue)),
                k.in_order,
              )
              (append_assoc (ran_in s.log) (refused_in s.log) s.queue);
        open_runs = λ c. cc;
        token_owed = owed-append false s.log all ∙ rw k.token_owed o;
        bounded = ground arith;
      }
