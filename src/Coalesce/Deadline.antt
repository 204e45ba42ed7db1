-- ===== src/Coalesce/Deadline.antt =====
-- MaxLag bounds the life of every burst, and a swap commit shortens its window for good.
use fastconf.Base.{
  ℕ, ◌+◌, ◌≤◌, ◌<◌, ◌≡◌, refl, sym, ap, ◌∙◌, ◌≢◌, inl, inr, Bool, true, false, not, ◌||◌, Option,
  none, some, List, [], ◌∷◌, ◌++◌, arith, leb, ◌==◌, if◌then◌else◌, Bool-cases, Text, text_eq,
  text_eq_refl, some_eq,
}
use mathlib.Core.Path.{subst}
use fastconf.Coalesce.Delivery.{reasons-extend, if-false, live-push}
use fastconf.Coalesce.{
  fires, run_events, flush_burst, flush, push_event, stop, call, stops, Options, Burst, Coalescer,
  Event, pushes, seed, extend, push_burst,
}
use fastconf.Base.Dict
use fastconf.Base.Dict.{Dict, get-put, get-remove}

-- A pending burst: it has reasons, its timer goes off by its deadline, and its deadline is at most
-- MaxLag after `now`.
pub record IsTimely (lag now : ℕ) (b : Burst) : Type 0 where
  pub filled : b.reasons ≢ []
  pub in_time : b.fires_at ≤ b.deadline
  pub near : b.deadline ≤ now + lag

pub IsPunctual : ℕ → Coalescer → Type 0
IsPunctual now c =
    (key : Text) (b : Burst) → Dict.get key c.bursts ≡ some b → IsTimely c.opts.max_lag now b

-- Pushes carry a clock that does not go back, from `from` to `to`.
abbrev pub IsClocked : ℕ → List Event → ℕ → Type 0
IsClocked from [] to = from ≤ to
IsClocked from (pushes now key reason swap ∷ es) to = (from ≤ now) × IsClocked now es to
IsClocked from (_ ∷ es) to = IsClocked from es to

later : (lag a b : ℕ) (x : Burst) → a ≤ b → IsTimely lag a x → IsTimely lag b x
later lag a b x h t = record {
  filled = t.filled;
  in_time = t.in_time;
  near = omega (arith, t.near);
}

cons-filled : {A : Type 0} (l : List A) (x : A) → l ++ x ∷ [] ≢ []
cons-filled [] x h = cc
cons-filled (y ∷ l) x h = cc

extend-IsTimely :
    (o : Options) (b : Burst) (lag now : ℕ) (reason : Text) (swap : Bool)
    → leb b.deadline now ≡ false
    → IsTimely lag now b
    → IsTimely lag now (extend o b now reason swap)
unfolding extend
extend-IsTimely o b lag now reason swap h t = record {
  filled = rw (reasons-extend o b now reason swap) (cons-filled b.reasons reason);
  in_time = ground (arith, t.in_time);
  near = ground (arith, t.near);
}

put-IsPunctual :
    (c : Coalescer) (now : ℕ) (k : Text) (b : Burst) (m : Dict Burst)
    → IsTimely c.opts.max_lag now b
    → ((key : Text) (x : Burst) → Dict.get key m ≡ some x → IsTimely c.opts.max_lag now x)
    → (key : Text) (x : Burst) → Dict.get key (Dict.put k b m) ≡ some x
    → IsTimely c.opts.max_lag now x
put-IsPunctual c now k b m t rest key x h = elim (Bool-cases (text_eq k key)) [
  | inl e ↦ subst (IsTimely c.opts.max_lag now) (some_eq (rw (get-put k key b m, e) at h)) t
  | inr e ↦ rest key x (rw (get-put k key b m, e) at h)
]

remove-IsPunctual :
    (lag now : ℕ) (k : Text) (m : Dict Burst)
    → ((key : Text) (x : Burst) → Dict.get key m ≡ some x → IsTimely lag now x)
    → (key : Text) (x : Burst) → Dict.get key (Dict.remove k m) ≡ some x
    → IsTimely lag now x
remove-IsPunctual lag now k m rest key x h = elim (Bool-cases (text_eq k key)) [
  | inl e ↦ cc (rw (get-remove k key m, e) at h)
  | inr e ↦ rest key x (rw (get-remove k key m, e) at h)
]

seed-IsPunctual :
    (c : Coalescer) (now : ℕ) (k reason : Text) (swap : Bool)
    → IsPunctual now c
    → IsPunctual now (seed c now k reason swap)
unfolding seed IsPunctual
seed-IsPunctual c now k reason swap p =
    put-IsPunctual c now k _ c.bursts
      (record { filled = λ e. cc; in_time = omega arith; near = omega arith }) p

push_burst-IsPunctual :
    (c : Coalescer) (now : ℕ) (k reason : Text) (swap : Bool) (o : Option Burst)
    → Dict.get k c.bursts ≡ o
    → IsPunctual now c
    → IsPunctual now (push_burst c now k reason swap o)
unfolding IsPunctual
push_burst-IsPunctual c now k reason swap none h p = seed-IsPunctual c now k reason swap p
push_burst-IsPunctual c now k reason swap (some b) h p = elim (Bool-cases (leb b.deadline now)) [
  | inl e ↦ rw e (
      seed-IsPunctual
        (record c { bursts = Dict.remove k c.bursts; calls = call k b.reasons c.calls }) now k
        reason swap (remove-IsPunctual c.opts.max_lag now k c.bursts p))
  | inr e ↦ rw e (
      put-IsPunctual c now k _ c.bursts
        (extend-IsTimely c.opts b c.opts.max_lag now reason swap e (p k b h)) p)
]

push_event-IsPunctual :
    (c : Coalescer) (now : ℕ) (k reason : Text) (swap : Bool)
    → IsPunctual now c
    → IsPunctual now (push_event c now k reason swap)
unfolding push_event
push_event-IsPunctual c now k reason swap p = elim (Bool-cases c.stopped) [
  | inl e ↦
      subst (IsPunctual now)
        (sym (
          ap (λ (b : Bool). if b then c else push_burst c now k reason swap (Dict.get k c.bursts))
            e))
        p
  | inr e ↦
      subst (IsPunctual now)
        (sym (
          ap (λ (b : Bool). if b then c else push_burst c now k reason swap (Dict.get k c.bursts))
            e))
        (push_burst-IsPunctual c now k reason swap (Dict.get k c.bursts) refl p)
]

flush_burst-IsPunctual :
    (c : Coalescer) (now : ℕ) (k : Text) (self : ℕ) (o : Option Burst)
    → IsPunctual now c
    → IsPunctual now (flush_burst c k self o)
unfolding IsPunctual
flush_burst-IsPunctual c now k self none p = p
flush_burst-IsPunctual c now k self (some b) p =
    elim (Bool-cases (not (b.identity == self) || c.stopped)) [
      | inl e ↦ rw e p
      | inr e ↦ rw e (remove-IsPunctual c.opts.max_lag now k c.bursts p)
    ]

flush-IsPunctual :
    (c : Coalescer) (now : ℕ) (k : Text) (self : ℕ)
    → IsPunctual now c
    → IsPunctual now (flush c k self)
unfolding flush
flush-IsPunctual c now k self p = flush_burst-IsPunctual c now k self (Dict.get k c.bursts) p

no_burst : (key : Text) (b : Burst) → Dict.get key [] ≡ some b → ⊥
unfolding Dict.get
no_burst key b h = cc

pub bare-IsPunctual : (c : Coalescer) (now : ℕ) → c.bursts ≡ [] → IsPunctual now c
unfolding IsPunctual
bare-IsPunctual c now e key b h = absurd (no_burst key b (rw e at h))

stop-IsPunctual : (c : Coalescer) (now : ℕ) → IsPunctual now (stop c)
unfolding stop
stop-IsPunctual c now = bare-IsPunctual (record c { stopped = true; bursts = [] }) now refl

later-IsPunctual : (c : Coalescer) (a b : ℕ) → a ≤ b → IsPunctual a c → IsPunctual b c
unfolding IsPunctual
later-IsPunctual c a b h p key x e = later c.opts.max_lag a b x h (p key x e)

-- From a coalescer whose pending bursts are in time, over every sequence of pushes, timers and stops
-- under a clock that does not go back: every burst that is pending at the end has reasons, and its
-- timer goes off by its deadline, which is at most MaxLag ahead.
pub lag_bounded :
    (c : Coalescer) (es : List Event) (from to : ℕ)
    → IsPunctual from c
    → IsClocked from es to
    → IsPunctual to (run_events c es)
unfolding run_events
lag_bounded c [] from to p h = later-IsPunctual c from to h p
lag_bounded c (pushes now k reason swap ∷ es) from to p h =
    lag_bounded (push_event c now k reason swap) es now to
      (push_event-IsPunctual c now k reason swap (later-IsPunctual c from now h.0 p)) h.1
lag_bounded c (fires k self ∷ es) from to p h =
    lag_bounded (flush c k self) es from to (flush-IsPunctual c from k self p) h
lag_bounded c (stops ∷ es) from to p h = lag_bounded (stop c) es from to (stop-IsPunctual c from) h

stored : (k : Text) (b x : Burst) (m : Dict Burst) → Dict.get k (Dict.put k b m) ≡ some x → x ≡ b
stored k b x m h = sym (some_eq (rw (get-put k k b m, text_eq_refl k) at h))

seed-swap :
    (c : Coalescer) (now : ℕ) (k reason : Text) (b : Burst)
    → Dict.get k (seed c now k reason true).bursts ≡ some b
    → (b.fires_at ≤ now + c.opts.swap_hint) × (b.swap_seen ≡ true)
unfolding seed
seed-swap c now k reason b h = rw (stored k _ b c.bursts h) (omega arith, refl)

extend-swap :
    (o : Options) (b : Burst) (now : ℕ) (reason : Text)
    → ((extend o b now reason true).fires_at ≤ now + o.swap_hint)
      × ((extend o b now reason true).swap_seen ≡ true)
unfolding extend
extend-swap o b now reason = (omega arith, refl)

push_burst-swap :
    (c : Coalescer) (now : ℕ) (k reason : Text) (b : Burst) (o : Option Burst)
    → Dict.get k (push_burst c now k reason true o).bursts ≡ some b
    → (b.fires_at ≤ now + c.opts.swap_hint) × (b.swap_seen ≡ true)
push_burst-swap c now k reason b none h = seed-swap c now k reason b h
push_burst-swap c now k reason b (some old) h = elim (Bool-cases (leb old.deadline now)) [
  | inl e ↦ seed-swap _ now k reason b (rw e at h)
  | inr e ↦ rw (stored k _ b c.bursts (rw e at h)) (extend-swap c.opts old now reason)
]

live_push-eq :
    (c : Coalescer) (now : ℕ) (k reason : Text) (swap : Bool)
    → c.stopped ≡ false
    → push_event c now k reason swap ≡ push_burst c now k reason swap (Dict.get k c.bursts)
unfolding push_event
live_push-eq c now k reason swap h = if-false c _ c.stopped h

extend-swapped :
    (o : Options) (b : Burst) (now : ℕ) (reason : Text)
    → b.swap_seen ≡ true
    → extend o b now reason false ≡ record b { reasons = b.reasons ++ reason ∷ [] }
unfolding extend
extend-swapped o b now reason h = rw h refl

push_burst-swapped :
    (c : Coalescer) (now : ℕ) (k reason : Text) (b : Burst)
    → now < b.deadline
    → b.swap_seen ≡ true
    → Dict.get k (push_burst c now k reason false (some b)).bursts
      ≡ some (record b { reasons = b.reasons ++ reason ∷ [] })
push_burst-swapped c now k reason b h s =
    rw (early, extend-swapped c.opts b now reason s, get-put k k _ c.bursts, text_eq_refl k) refl
  where
    early : leb b.deadline now ≡ false
    early = ground arith

-- A swap commit that is pushed before Stop sets the timer of its key to go off within SwapHint, and
-- a push without a swap commit before the burst's deadline adds its reason and moves no timer.
pub swap_stays :
    (c : Coalescer) (now next : ℕ) (key reason reason' : Text) (b : Burst)
    → c.stopped ≡ false
    → Dict.get key (push_event c now key reason true).bursts ≡ some b
    → next < b.deadline
    → (b.fires_at ≤ now + c.opts.swap_hint)
      × (Dict.get key (push_event (push_event c now key reason true) next key reason' false).bursts
          ≡ some (record b { reasons = b.reasons ++ reason' ∷ [] }))
swap_stays c now next key reason reason' b live at early =
    let (soon, seen) =
      push_burst-swap c now key reason b (Dict.get key c.bursts)
        (rw (live_push-eq c now key reason true live) at at) in
    (
      soon,
      rw
          (
            live_push-eq (push_event c now key reason true) next key reason' false
                (live-push c now key reason true ∙ live),
            at,
          )
          (push_burst-swapped (push_event c now key reason true) next key reason' b early seen),
    )
