-- ===== src/Writer/Ledger.antt =====
-- What the two queues keep of the requests and events that reach them.
use fastconf.Base.{
  ◌≤◌, ◌≡◌, refl, sym, ap, ◌∙◌, ◌⊎◌, inl, inr, Bool, true, false, List, [], ◌∷◌, ◌++◌, arith,
  Bool-cases, length, if_cases,
}
use fastconf.Writer.{
  write, send, turned_away, submit, write_at, event, wait_for, ignored, submit_request, new_loop,
  Phase, write_step, on_event, act, prefer_request, Action, act_all, send_request, Branch, Loop,
  reload_chan_cap, dropped, skipped, has_room, offer, discard, offer_event, discard_token, at_check,
  at_prefer, at_wait, at_tail, returned, on_done, on_request, on_token, pause, resume, close,
}
use fastconf.Writer.Log.{queued_in, ran_in, refused_in, owed_after}
use fastconf.Writer.Kept.{
  IsKept, noted-IsKept, enqueue-IsKept, moved-IsKept, serve-IsKept, resync-IsKept, finish-IsKept,
}

module _ {R : Type 0} where
  wait_for-IsKept :
      (b : Branch) (c : Bool) (q : List R) (t : Bool) (s : Loop R)
      → s.closed ≡ c
      → s.queue ≡ q
      → IsKept s
      → IsKept (wait_for b c q t s)
  wait_for-IsKept on_done true q t s h j k = finish-IsKept s h k
  wait_for-IsKept on_done false (r ∷ q) t s h j k = serve-IsKept s r q j k
  wait_for-IsKept on_done false [] true s h j k = resync-IsKept s k
  wait_for-IsKept on_done false [] false s h j k = k
  wait_for-IsKept on_request c (r ∷ q) t s h j k = serve-IsKept s r q j k
  wait_for-IsKept on_request true [] t s h j k = finish-IsKept s h k
  wait_for-IsKept on_request false [] true s h j k = resync-IsKept s k
  wait_for-IsKept on_request false [] false s h j k = k
  wait_for-IsKept on_token c q true s h j k = resync-IsKept s k
  wait_for-IsKept on_token true q false s h j k = finish-IsKept s h k
  wait_for-IsKept on_token false (r ∷ q) false s h j k = serve-IsKept s r q j k
  wait_for-IsKept on_token false [] false s h j k = k

  rephased : (s t : Loop R) → IsKept s → t ≡ record s { phase = t.phase } → IsKept t
  rephased s t k h =
      moved-IsKept s t (ap (λ (x : Loop R). x.log) h) (ap (λ (x : Loop R). x.queue) h)
        (ap (λ (x : Loop R). x.token) h) (λ c. sym (ap (λ (x : Loop R). x.closed) h) ∙ c) k

  prefer-IsKept : (q : List R) (s : Loop R) → s.queue ≡ q → IsKept s → IsKept (prefer_request q s)
  prefer-IsKept [] s h k = rephased s _ k refl
  prefer-IsKept (r ∷ q) s h k = serve-IsKept s r q h k

  write-IsKept : (b : Branch) (s : Loop R) → IsKept s → IsKept (write_step b s)
  unfolding write_step
  write-IsKept b s k = go s.phase
    where
      go : (p : Phase) → IsKept (write_at p b s)
      go at_check =
          if_cases IsKept s.closed _ _ (λ e. finish-IsKept s e k) (λ e. rephased s _ k refl)
      go at_prefer = prefer-IsKept s.queue s refl k
      go at_wait = wait_for-IsKept b s.closed s.queue s.token s refl refl k
      go at_tail = if_cases IsKept s.token _ _ (λ e. resync-IsKept s k) (λ e. rephased s _ k refl)
      go returned = k

  send-IsKept : (r : R) (s : Loop R) → IsKept s → IsKept (send_request r s)
  send-IsKept r s k = if_cases IsKept (has_room s) _ _ (enqueue-IsKept s r k) (λ e. k)

  offer-IsKept : (r : R) (s : Loop R) → IsKept s → IsKept (offer_event r s)
  unfolding offer_event
  offer-IsKept r s k =
      if_cases IsKept (has_room s) _ _ (enqueue-IsKept s r k)
        (λ f. noted-IsKept s (dropped r) true k (refl, refl, refl) refl)

  event-IsKept : (r : R) (s : Loop R) → IsKept s → IsKept (on_event r s)
  unfolding on_event
  event-IsKept r s k =
      if_cases IsKept s.paused _ _
        (λ e. noted-IsKept s (ignored r) s.token k (refl, refl, refl) refl)
        (λ e. offer-IsKept r s k)

  act-IsKept : (a : Action R) (s : Loop R) → IsKept s → IsKept (act a s)
  unfolding act submit_request discard_token
  act-IsKept (event r) s k = event-IsKept r s k
  act-IsKept (offer r) s k = offer-IsKept r s k
  act-IsKept (submit r) s k =
      if_cases IsKept s.closed _ _
        (λ e. noted-IsKept s (turned_away r) s.token k (refl, refl, refl) refl)
        (λ e. send-IsKept r s k)
  act-IsKept (send r) s k = send-IsKept r s k
  act-IsKept (write b) s k = write-IsKept b s k
  act-IsKept discard s k =
      if_cases IsKept s.token _ _ (λ e. noted-IsKept s skipped false k (refl, refl, refl) refl)
        (λ e. k)
  act-IsKept pause s k = moved-IsKept s _ refl refl refl (λ c. c) k
  act-IsKept resume s k = moved-IsKept s _ refl refl refl (λ c. c) k
  act-IsKept close s k = moved-IsKept s _ refl refl refl (λ c. cc) k

  pub acts-IsKept : (l : List (Action R)) (s : Loop R) → IsKept s → IsKept (act_all l s)
  unfolding act_all
  acts-IsKept [] s k = k
  acts-IsKept (a ∷ l) s k = acts-IsKept l (act a s) (act-IsKept a s k)

  pub start-IsKept : (l : List (Action R)) → IsKept (act_all l new_loop)
  start-IsKept l =
      acts-IsKept l new_loop (record {
        in_order = refl;
        open_runs = λ c. refl;
        token_owed = refl;
        bounded = ground arith;
      })

  -- After every interleaving of provider events, callers, pauses, the close and the writer's steps,
  -- from the start: the queued requests are, in order, those that ran, those that were refused, and
  -- those in the queue, none of them refused while the manager is not closed; the resync token is
  -- there exactly if an event was dropped and no refresh, or skip of one, came after it; and the
  -- queue holds at most 16 requests.
  pub nothing_lost :
      (l : List (Action R))
      → let s = act_all l new_loop in
        (queued_in s.log ≡ (ran_in s.log ++ refused_in s.log) ++ s.queue)
        × ((refused_in s.log ≡ []) ⊎ (s.closed ≡ true))
        × (owed_after false s.log ≡ s.token)
        × (length s.queue ≤ reload_chan_cap)
  nothing_lost l =
      let k = start-IsKept l in
      (
        k.in_order,
        elim (Bool-cases (act_all l new_loop).closed) [
          | inl e ↦ inr e
          | inr e ↦ inl (k.open_runs e)
        ],
        k.token_owed,
        k.bounded,
      )
