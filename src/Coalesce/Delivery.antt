-- ===== src/Coalesce/Delivery.antt =====
-- No reason is lost or delivered twice, whichever way the bursts end.
use fastconf.Coalesce.Groups.{
  delivered, pending, arriving, IsEndless, flat, AreJoined, AreFilled, Advances, Advances-later,
  group, flat-group, group-AreFilled, delivered-call,
}
use fastconf.Base.{
  ℕ, ◌≡◌, refl, sym, ap, ◌∙◌, inl, inr, Bool, false, not, ◌||◌, Option, none, some, List, [], ◌∷◌,
  ◌++◌, arith, leb, ◌==◌, if◌then◌else◌, Bool-cases, Text, text_eq, text_eq_iff, text_eq_refl,
  Option-cases, map,
}
use fastconf.Base.Dict
use fastconf.Base.Dict.{Dict, get-put, get-remove}
use fastconf.Coalesce.{
  Options, Burst, Coalescer, Event, pushes, fires, stops, push_event, flush, run_events, call, seed,
  extend, push_burst, join_unique,
}
use fastconf.Coalesce.Reasons.{join_unique_lem}
use mathlib.Core.List.{append-nil}

pub reasons-extend :
    (o : Options) (b : Burst) (now : ℕ) (reason : Text) (swap : Bool)
    → (extend o b now reason swap).reasons ≡ b.reasons ++ reason ∷ []
unfolding extend
reasons-extend o b now reason swap = ground arith

-- What one push adds for a key.
abbrev added : Text → Text → Text → List Text
added k key reason = if text_eq k key then reason ∷ [] else []

-- A burst that holds one reason more is stored under its key.
put-Advances :
    (c c' : Coalescer) (k reason key : Text) (b : Burst)
    → b.reasons ≡ pending k c ++ reason ∷ []
    → c'.calls ≡ c.calls
    → c'.bursts ≡ Dict.put k b c.bursts
    → Advances key c c' (added k key reason)
put-Advances c c' k reason key b h same stored = (
  [],
  ap (delivered key) same ∙ sym (append-nil (delivered key c.calls)),
  rw stored (elim (Bool-cases (text_eq k key)) [
    | inl e ↦ let p = (text_eq_iff k key).0 e in rw (get-put k key b c.bursts, e, h, p) refl
    | inr e ↦ rw (get-put k key b c.bursts, e) (sym (append-nil (pending key c)))
  ]),
  tt,
)

-- A burst is taken out and handed to `fn`.
abbrev taken : Coalescer → Text → Burst → Coalescer
taken c k b = record c { bursts = Dict.remove k c.bursts; calls = call k b.reasons c.calls }

taken-Advances :
    (c : Coalescer) (k key : Text) (b : Burst)
    → Dict.get k c.bursts ≡ some b
    → Advances key c (taken c k b) []
taken-Advances c k key b h = elim (Bool-cases (text_eq k key)) [
  | inl e ↦
      let p = (text_eq_iff k key).0 e in
      let here : Dict.get key c.bursts ≡ some b = rw p at h in
      (
        group b.reasons,
        rw (delivered-call key k b.reasons c.calls, e) refl,
        rw (get-remove k key c.bursts, e, here)
            (append-nil (flat (group b.reasons))
              ∙ flat-group b.reasons
              ∙ sym (append-nil b.reasons)),
        group-AreFilled b.reasons,
      )
  | inr e ↦ (
    [],
    rw (delivered-call key k b.reasons c.calls, e) refl,
    rw (get-remove k key c.bursts, e) (sym (append-nil (pending key c))),
    tt,
  )
]

taken-empty : (k : Text) (m : Dict Burst) → Dict.get k (Dict.remove k m) ≡ none
taken-empty k m = rw (get-remove k k m, text_eq_refl k) refl

push_burst-Advances :
    (c : Coalescer) (now : ℕ) (k reason key : Text) (swap : Bool) (o : Option Burst)
    → Dict.get k c.bursts ≡ o
    → Advances key c (push_burst c now k reason swap o) (added k key reason)
unfolding seed
push_burst-Advances c now k reason key swap none h =
    put-Advances c (seed c now k reason swap) k reason key _ (rw h refl) refl refl
push_burst-Advances c now k reason key swap (some b) h = elim (Bool-cases (leb b.deadline now)) [
  | inl e ↦ rw e (
      Advances-later key c (taken c k b) (seed (taken c k b) now k reason swap) []
        (added k key reason) (taken-Advances c k key b h)
        (put-Advances (taken c k b) (seed (taken c k b) now k reason swap) k reason key _
          (rw (taken-empty k c.bursts) refl) refl refl))
  | inr e ↦ rw e (
      put-Advances c (record c { bursts = Dict.put k (extend c.opts b now reason swap) c.bursts }) k
        reason key (extend c.opts b now reason swap)
        (rw h (reasons-extend c.opts b now reason swap)) refl refl)
]

pub if-false : {A : Type 0} (x y : A) (b : Bool) → b ≡ false → (if b then x else y) ≡ y
if-false x y b h = rw h refl

push-Advances :
    (c : Coalescer) (now : ℕ) (k reason key : Text) (swap : Bool)
    → c.stopped ≡ false
    → Advances key c (push_event c now k reason swap) (added k key reason)
unfolding push_event
push-Advances c now k reason key swap h =
    rw (if-false c (push_burst c now k reason swap (Dict.get k c.bursts)) c.stopped h)
      (push_burst-Advances c now k reason key swap (Dict.get k c.bursts) refl)

idle-Advances : (c : Coalescer) (key : Text) → Advances key c c []
idle-Advances c key =
    ([], sym (append-nil (delivered key c.calls)), sym (append-nil (pending key c)), tt)

flush-Advances : (c : Coalescer) (k key : Text) (self : ℕ) → Advances key c (flush c k self) []
unfolding flush
flush-Advances c k key self = elim (Option-cases (Dict.get k c.bursts)) [
  | inl e ↦ rw e (idle-Advances c key)
  | inr (b, e) ↦ elim (Bool-cases (not (b.identity == self) || c.stopped)) [
    | inl f ↦ rw (e, f) (idle-Advances c key)
    | inr f ↦ rw (e, f) (taken-Advances c k key b e)
  ]
]

added-arriving :
    (key k reason : Text) (rest : List Text)
    → added k key reason ++ rest ≡ (if text_eq k key then reason ∷ rest else rest)
added-arriving key k reason rest = ground arith

pub live-push :
    (c : Coalescer) (now : ℕ) (k reason : Text) (swap : Bool)
    → (push_event c now k reason swap).stopped ≡ c.stopped
unfolding push_event seed
live-push c now k reason swap = ground arith

live-flush : (c : Coalescer) (k : Text) (self : ℕ) → (flush c k self).stopped ≡ c.stopped
unfolding flush
live-flush c k self = ground arith

run_events-Advances :
    (c : Coalescer) (es : List Event) (key : Text)
    → c.stopped ≡ false
    → IsEndless es
    → Advances key c (run_events c es) (arriving key es)
unfolding run_events
run_events-Advances c [] key h n = idle-Advances c key
run_events-Advances c (pushes now k reason swap ∷ es) key h n =
    rw (← added-arriving key k reason (arriving key es)) (
      Advances-later key c (push_event c now k reason swap)
        (run_events (push_event c now k reason swap) es) (added k key reason) (arriving key es)
        (push-Advances c now k reason key swap h)
        (run_events-Advances (push_event c now k reason swap) es key
          (live-push c now k reason swap ∙ h) n))
run_events-Advances c (fires k self ∷ es) key h n =
    Advances-later key c (flush c k self) (run_events (flush c k self) es) [] (arriving key es)
      (flush-Advances c k key self)
      (run_events-Advances (flush c k self) es key (live-flush c k self ∙ h) n)
run_events-Advances c (stops ∷ es) key h n = absurd n

join_unique-AreJoined : (gs : List (List Text)) → AreJoined gs (map join_unique gs)
join_unique-AreJoined [] = tt
join_unique-AreJoined (g ∷ gs) = (join_unique_lem g, join_unique-AreJoined gs)

-- Until Stop, for every key and every sequence of pushes and timers, whether current or left over:
-- the reasons that the key's burst held and those that were pushed for it since, in order, are cut
-- into groups that are not empty, and the rest, which its burst still holds; and `fn` is called once
-- for each group, in order, with the texts of the group, each once, joined by commas.
pub reasons_kept :
    (c : Coalescer) (es : List Event) (key : Text)
    → c.stopped ≡ false
    → IsEndless es
    → (gs : List (List Text)) × (reasons : List Text) × (pending key c ++ arriving key es
        ≡ flat gs ++ pending key (run_events c es))
      × AreFilled gs
      × (delivered key (run_events c es).calls ≡ delivered key c.calls ++ reasons)
      × AreJoined gs reasons
reasons_kept c es key h n =
    let (gs, calls, held, filled) = run_events-Advances c es key h n in
    (gs, map join_unique gs, sym held, filled, calls, join_unique-AreJoined gs)
