-- ===== src/Writer/Rounds.antt =====
-- One step of the writer of an open manager that is not paused.
use fastconf.Base.{
  if_cases, ℕ, suc, ◌+◌, ◌-◌, ◌*◌, ◌≤◌, ◌≡◌, refl, ◌∙◌, Bool, true, false, List, [], ◌∷◌, ◌++◌,
  arith, length,
}
use fastconf.Writer.{
  Entry, Loop, Branch, Phase, write_step, ran, refreshed, at_check, at_prefer, at_wait, at_tail,
  returned, on_done, on_request, on_token, resync, serve, prefer_request, wait_for, write_at,
}
use fastconf.Writer.Log.{queued_in, queued_in-append}
use mathlib.Core.List.{append-nil}

-- The compensating reloads that ran.
abbrev pub refreshes : {R : Type 0} → List (Entry R) → ℕ
refreshes [] = 0
refreshes (refreshed ∷ l) = suc (refreshes l)
refreshes (_ ∷ l) = refreshes l

abbrev pub bit : Bool → ℕ
bit true = 1
bit false = 0

abbrev pub weight : Phase → ℕ
weight at_tail = 3
weight at_check = 2
weight at_prefer = 1
weight at_wait = 0
weight returned = 0

abbrev pub is_returned : Phase → Bool
is_returned returned = true
is_returned _ = false

pub weight-max : (f : Phase) → weight f ≤ 3
weight-max at_tail = ground arith
weight-max at_check = ground arith
weight-max at_prefer = ground arith
weight-max at_wait = ground arith
weight-max returned = ground arith

pub bit-max : (b : Bool) → bit b ≤ 1
bit-max true = ground arith
bit-max false = ground arith

pub bit_zero : (b : Bool) → bit b ≤ 0 → b ≡ false
bit_zero true h = ground arith
bit_zero false h = refl

module _ {R : Type 0} where
  refreshes-append : (a b : List (Entry R)) → refreshes (a ++ b) ≡ refreshes a + refreshes b
  refreshes-append [] b = ground arith
  refreshes-append (refreshed ∷ l) b = ground (arith, refreshes-append l b)
  refreshes-append (_ ∷ l) b = refreshes-append l b

  -- The steps that are left until the writer waits with nothing pending.
  abbrev pub left : Loop R → ℕ
  left s = 4 * length s.queue + 4 * bit s.token + weight s.phase

  -- What one step of the writer of an open manager that is not paused does.
  pub record IsStep (s t : Loop R) : Type 0 where
    pub queued_same : queued_in t.log ≡ queued_in s.log
    pub refresh_same : refreshes t.log + bit t.token ≡ refreshes s.log + bit s.token
    pub closed_same : t.closed ≡ s.closed
    pub paused_same : t.paused ≡ s.paused
    pub working : is_returned t.phase ≡ false
    pub progress : left t ≤ left s - 1

  serve-IsStep :
      (s : Loop R) (r : R) (q : List R)
      → s.queue ≡ r ∷ q
      → s.closed ≡ false
      → IsStep s (serve r q s)
  serve-IsStep s r q h c = record {
    queued_same = rw (c, queued_in-append s.log (ran r ∷ []), append-nil (queued_in s.log)) refl;
    refresh_same = rw (c, refreshes-append s.log (ran r ∷ [])) (ground arith);
    closed_same = refl;
    paused_same = refl;
    working = refl;
    progress = rw h (ground arith);
  }

  resync-IsStep :
      (s : Loop R) → s.token ≡ true → s.closed ≡ false → s.paused ≡ false → IsStep s (resync s)
  unfolding resync
  resync-IsStep s h c p = record {
    queued_same =
        rw (c, p, queued_in-append s.log (refreshed ∷ []), append-nil (queued_in s.log)) refl;
    refresh_same = rw (c, p, h, refreshes-append s.log (refreshed ∷ [])) (ground arith);
    closed_same = refl;
    paused_same = refl;
    working = refl;
    progress = rw h (ground arith);
  }

  -- Nothing is pending, and the writer waits.
  idle-IsStep : (s : Loop R) → s.queue ≡ [] → s.token ≡ false → s.phase ≡ at_wait → IsStep s s
  idle-IsStep s q t w = record {
    queued_same = refl;
    refresh_same = refl;
    closed_same = refl;
    paused_same = refl;
    working = rw w refl;
    progress = rw (q, t, w) (ground arith);
  }

  phase-IsStep :
      (s : Loop R) (p : Phase)
      → is_returned p ≡ false
      → suc (weight p) ≡ weight s.phase
      → IsStep s (record s { phase = p })
  phase-IsStep s p h w = record {
    queued_same = refl;
    refresh_same = refl;
    closed_same = refl;
    paused_same = refl;
    working = h;
    progress = ground arith;
  }

  wait_for-IsStep :
      (b : Branch) (c : Bool) (q : List R) (t : Bool) (s : Loop R)
      → s.closed ≡ c
      → s.queue ≡ q
      → s.token ≡ t
      → s.phase ≡ at_wait
      → c ≡ false
      → s.paused ≡ false
      → IsStep s (wait_for b c q t s)
  wait_for-IsStep on_done true q t s h j k w c p = cc
  wait_for-IsStep on_done false (r ∷ q) t s h j k w c p = serve-IsStep s r q j h
  wait_for-IsStep on_done false [] true s h j k w c p = resync-IsStep s k h p
  wait_for-IsStep on_done false [] false s h j k w c p = idle-IsStep s j k w
  wait_for-IsStep on_request c (r ∷ q) t s h j k w e p = serve-IsStep s r q j (h ∙ e)
  wait_for-IsStep on_request true [] t s h j k w c p = cc
  wait_for-IsStep on_request false [] true s h j k w c p = resync-IsStep s k h p
  wait_for-IsStep on_request false [] false s h j k w c p = idle-IsStep s j k w
  wait_for-IsStep on_token c q true s h j k w e p = resync-IsStep s k (h ∙ e) p
  wait_for-IsStep on_token true q false s h j k w c p = cc
  wait_for-IsStep on_token false (r ∷ q) false s h j k w c p = serve-IsStep s r q j h
  wait_for-IsStep on_token false [] false s h j k w c p = idle-IsStep s j k w

  prefer-IsStep :
      (q : List R) (s : Loop R)
      → s.queue ≡ q
      → s.phase ≡ at_prefer
      → s.closed ≡ false
      → IsStep s (prefer_request q s)
  prefer-IsStep [] s h w c = phase-IsStep s at_wait refl (rw w refl)
  prefer-IsStep (r ∷ q) s h w c = serve-IsStep s r q h c

  pub write-IsStep :
      (b : Branch) (s : Loop R)
      → s.closed ≡ false
      → s.paused ≡ false
      → is_returned s.phase ≡ false
      → IsStep s (write_step b s)
  unfolding write_step
  write-IsStep b s c p n = go s.phase refl n
    where
      go : (f : Phase) → s.phase ≡ f → is_returned f ≡ false → IsStep s (write_at f b s)
      go at_check w n =
          if_cases (IsStep s) s.closed _ _ (λ e. cc)
            (λ e. phase-IsStep s at_prefer refl (rw w refl))
      go at_prefer w n = prefer-IsStep s.queue s refl w c
      go at_wait w n = wait_for-IsStep b s.closed s.queue s.token s refl refl refl w c p
      go at_tail w n =
          if_cases (IsStep s) s.token _ _ (λ e. resync-IsStep s e c p)
            (λ e. phase-IsStep s at_check refl (rw w refl))
      go returned w n = cc
