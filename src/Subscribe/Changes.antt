-- ===== src/Subscribe/Changes.antt =====
-- What one subscriber is called with over a run of the writer.
use mathlib.Core.Path.{subst}
use fastconf.Base.{
  ℕ, ◌+◌, ◌≡◌, refl, sym, ap, ◌∙◌, ◌≢◌, ◌↔◌, inl, inr, Bool, true, false, Option, none, some, List,
  [], ◌∷◌, ◌++◌, arith, ltb, ◌==◌, if◌then◌else◌, Bool-cases, if_cases, some_eq,
}
use fastconf.Manager.{State, Manager, Request, run_all}
use fastconf.Manager.Invariant.{Told, run_all-Told}
use fastconf.Assembly.Sorting.{sort_stable, keep, keep-sort}
use fastconf.Subscribe.{
  Subscriber, Registry, Call, extracted, changed, call_subscriber, call_all, notify_subscribers,
  notify_commits,
}
use mathlib.Core.List.{append-nil}

-- The calls of one subscriber.
abbrev pub calls_of : {S : Type 0} → ℕ → List (Call S) → List (Call S)
calls_of id [] = []
calls_of id (c ∷ l) = if c.subscriber == id then c ∷ calls_of id l else calls_of id l

-- Calls that lead from one value to another without a gap, each with a change.
abbrev pub Leads : {S : Type 0} → Option S → List (Call S) → Option S → Type 0
Leads cur [] now = cur ≡ now
Leads cur (c ∷ l) now = (c.old ≡ cur) × (c.old ≢ c.new) × Leads c.new l now

calls_of-append :
    {S : Type 0} (id : ℕ) (a b : List (Call S))
    → calls_of id (a ++ b) ≡ calls_of id a ++ calls_of id b
calls_of-append id [] b = refl
calls_of-append id (c ∷ l) b = elim (Bool-cases (c.subscriber == id)) [
  | inl e ↦ rw e (ap (λ k. c ∷ k) (calls_of-append id l b))
  | inr e ↦ rw e (calls_of-append id l b)
]

changed-eq :
    {S : Type 0} (equal : S → S → Bool) (x y : Option S)
    → ((a b : S) → (equal a b ≡ true) ↔ (a ≡ b))
    → changed equal x y ≡ false
    → x ≡ y
changed-eq equal none none h k = refl
changed-eq equal none (some b) h k = cc
changed-eq equal (some a) none h k = cc
changed-eq equal (some a) (some b) h k = ap some ((h a b).0 (ground (arith, k)))

changed-ne :
    {S : Type 0} (equal : S → S → Bool) (x y : Option S)
    → ((a b : S) → (equal a b ≡ true) ↔ (a ≡ b))
    → changed equal x y ≡ true
    → x ≢ y
changed-ne equal none none h k e = cc
changed-ne equal none (some b) h k e = cc
changed-ne equal (some a) none h k e = cc
changed-ne equal (some a) (some b) h k e = cc (k, (h a b).1 (some_eq e))

module _ {V S : Type 0} where
  calls_of-one :
      (id : ℕ) (s : Subscriber V S) (prev next : Option (State V))
      → calls_of id (call_subscriber s prev next)
        ≡ (if s.id == id then call_subscriber s prev next else [])
  unfolding call_subscriber
  calls_of-one id s prev next =
      elim (Bool-cases (changed s.equal (extracted s prev) (extracted s next))) [
        | inl e ↦ rw e refl
        | inr e ↦
            rw e
              (if_cases (λ (l : List (Call S)). [] ≡ l) (s.id == id) [] [] (λ h. refl) (λ h. refl))
      ]

  calls_of-all :
      (id : ℕ) (l : List (Subscriber V S)) (prev next : Option (State V))
      → calls_of id (call_all l prev next)
        ≡ call_all (keep (λ (s : Subscriber V S). s.id == id) l) prev next
  unfolding call_all keep
  calls_of-all id [] prev next = refl
  calls_of-all id (s ∷ l) prev next = elim (Bool-cases (s.id == id)) [
    | inl e ↦
        calls_of-append id (call_subscriber s prev next) (call_all l prev next)
        ∙ rw (calls_of-one id s prev next, e, calls_of-all id l prev next) refl
    | inr e ↦
        calls_of-append id (call_subscriber s prev next) (call_all l prev next)
        ∙ rw (calls_of-one id s prev next, e) (calls_of-all id l prev next)
  ]

  -- A subscriber that is registered once is called with its own change, if there is one.
  notify-one :
      (r : Registry V S) (s : Subscriber V S) (prev : Option (State V)) (next : State V)
      → keep (λ (t : Subscriber V S). t.id == s.id) r.subscribers ≡ s ∷ []
      → calls_of s.id (notify_subscribers r prev next) ≡ call_subscriber s prev (some next)
  unfolding notify_subscribers call_all
  notify-one r s prev next h =
      calls_of-all s.id (sort_stable (λ a b. ltb a.id b.id) r.subscribers) prev (some next)
      ∙ ap (λ l. call_all l prev (some next))
          (keep-sort (λ (a b : Subscriber V S). ltb a.id b.id)
              (λ (t : Subscriber V S). t.id == s.id) r.subscribers (λ a b p q. ground (arith, p, q))
            ∙ h)
      ∙ append-nil (call_subscriber s prev (some next))

  one-Leads :
      (s : Subscriber V S) (cur next : Option (State V)) (l : List (Call S)) (now : Option S)
      → ((a b : S) → (s.equal a b ≡ true) ↔ (a ≡ b))
      → Leads (extracted s next) l now
      → Leads (extracted s cur) (call_subscriber s cur next ++ l) now
  unfolding call_subscriber
  one-Leads s cur next l now h k =
      elim (Bool-cases (changed s.equal (extracted s cur) (extracted s next))) [
        | inl e ↦ rw e (refl, changed-ne s.equal (extracted s cur) (extracted s next) h e, k)
        | inr e ↦
            let still = changed-eq s.equal (extracted s cur) (extracted s next) h e in
            rw e (subst (λ x. Leads x l now) (sym still) k)
      ]

  commits-Leads :
      (r : Registry V S) (s : Subscriber V S) (cur now : Option (State V)) (g g' : ℕ)
      (commits : List (Option (State V) × State V))
      → ((a b : S) → (s.equal a b ≡ true) ↔ (a ≡ b))
      → keep (λ (t : Subscriber V S). t.id == s.id) r.subscribers ≡ s ∷ []
      → Told cur g commits now g'
      → Leads (extracted s cur) (calls_of s.id (notify_commits r commits)) (extracted s now)
  unfolding notify_commits
  commits-Leads r s cur now g g' [] h k told = ap (extracted s) told.0
  commits-Leads r s cur now g g' ((prev, next) ∷ commits) h k (p, n, told) =
      let rest = commits-Leads r s (some next) now (g + 1) g' commits h k told in
      rw
        (
          p,
          calls_of-append s.id (notify_subscribers r cur next) (notify_commits r commits),
          notify-one r s cur next k,
        )
        (one-Leads s cur (some next) (calls_of s.id (notify_commits r commits)) (extracted s now) h
          rest)

  -- Over any sequence of requests, a subscriber that is registered once, with a comparator that tells
  -- exactly the equal values apart from the others, is called with every change of its value and with
  -- nothing else: its calls lead without a gap from the value that was published before to the one
  -- that is published after, each from a value to a different one.
  pub subscriber-Leads :
      {E : Type 0} (r : Registry V S) (s : Subscriber V S) (m : Manager V E)
      (reqs : List (Option E × Request V E))
      → ((a b : S) → (s.equal a b ≡ true) ↔ (a ≡ b))
      → keep (λ (t : Subscriber V S). t.id == s.id) r.subscribers ≡ s ∷ []
      → (new : List (Option (State V) × State V)) × ((run_all m reqs).commits ≡ m.commits ++ new)
        × Leads
            (extracted s m.state)
            (calls_of s.id (notify_commits r new))
            (extracted s (run_all m reqs).state)
  subscriber-Leads r s m reqs h k =
      let (new, commits, told) = run_all-Told m reqs in
      (
        new,
        commits,
        commits-Leads r s m.state (run_all m reqs).state m.gen (run_all m reqs).gen new h k told,
      )
