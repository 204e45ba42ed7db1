-- ===== src/Writer/Settled.antt =====
-- The writer returns only when the manager is closed.
use fastconf.Base.{if_cases, ◌≡◌, refl, Bool, true, false, not, ◌||◌, List, [], ◌∷◌, arith}
use fastconf.Writer.{
  discard_token, offer_event, Loop, Action, Branch, Phase, act, act_all, write_step, at_check,
  at_prefer, at_wait, at_tail, returned, on_done, on_request, on_token, event, submit, send, write,
  pause, resume, close, on_event, submit_request, resync, send_request, has_room, prefer_request,
  wait_for, write_at, offer, discard,
}
use fastconf.Writer.Rounds.{is_returned}

module _ {R : Type 0} where
  -- Only a closed manager's writer returns.
  abbrev pub IsSettled : Loop R → Type 0
  IsSettled s = (not (is_returned s.phase) || s.closed) ≡ true

  pub write-IsSettled : (b : Branch) (s : Loop R) → IsSettled s → IsSettled (write_step b s)
  unfolding write_step resync
  write-IsSettled b s h = go s.phase h
    where
      wait :
          (b : Branch) (c : Bool) (q : List R) (t : Bool)
          → s.closed ≡ c
          → IsSettled (wait_for b c q t s)
      wait on_done true q t e = e
      wait on_done false (r ∷ q) t e = refl
      wait on_done false [] true e = refl
      wait on_done false [] false e = h
      wait on_request c (r ∷ q) t e = refl
      wait on_request true [] t e = e
      wait on_request false [] true e = refl
      wait on_request false [] false e = h
      wait on_token c q true e = refl
      wait on_token true q false e = e
      wait on_token false (r ∷ q) false e = refl
      wait on_token false [] false e = h

      prefer : (q : List R) → IsSettled (prefer_request q s)
      prefer [] = refl
      prefer (r ∷ q) = refl

      go : (f : Phase) → (not (is_returned f) || s.closed) ≡ true → IsSettled (write_at f b s)
      go at_check k = if_cases IsSettled s.closed _ _ (λ e. e) (λ e. refl)
      go at_prefer k = prefer s.queue
      go at_wait k = wait b s.closed s.queue s.token refl
      go at_tail k = if_cases IsSettled s.token _ _ (λ e. refl) (λ e. refl)
      go returned k = h

  pub send-IsSettled : (r : R) (s : Loop R) → IsSettled s → IsSettled (send_request r s)
  send-IsSettled r s h = if_cases IsSettled (has_room s) _ _ (λ e. h) (λ e. h)

  pub act-IsSettled : (a : Action R) (s : Loop R) → IsSettled s → IsSettled (act a s)
  unfolding act on_event offer_event submit_request discard_token
  act-IsSettled (event r) s h =
      if_cases IsSettled s.paused _ _ (λ e. h)
        (λ e. if_cases IsSettled (has_room s) _ _ (λ f. h) (λ f. h))
  act-IsSettled (offer r) s h = if_cases IsSettled (has_room s) _ _ (λ e. h) (λ e. h)
  act-IsSettled discard s h = if_cases IsSettled s.token _ _ (λ e. h) (λ e. h)
  act-IsSettled (submit r) s h =
      if_cases IsSettled s.closed _ _ (λ e. h) (λ e. send-IsSettled r s h)
  act-IsSettled (send r) s h = send-IsSettled r s h
  act-IsSettled (write b) s h = write-IsSettled b s h
  act-IsSettled pause s h = h
  act-IsSettled resume s h = h
  act-IsSettled close s h = ground arith

  pub acts-IsSettled : (l : List (Action R)) (s : Loop R) → IsSettled s → IsSettled (act_all l s)
  unfolding act_all
  acts-IsSettled [] s h = h
  acts-IsSettled (a ∷ l) s h = acts-IsSettled l (act a s) (act-IsSettled a s h)
