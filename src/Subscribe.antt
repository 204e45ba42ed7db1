-- ===== src/Subscribe.antt =====
-- subscribe.go: subscribers of extracted values, which the writer calls after each commit. `extract`
-- gives none for a nil pointer; `equal` is the comparator, or reflect.DeepEqual.
mod Tests
pub mod Changes
use fastconf.Base.{
  ℕ, ◌+◌, Bool, true, false, not, Option, none, some, List, [], ◌∷◌, ◌++◌, ltb, ◌==◌, if◌then◌else◌,
}
use fastconf.Manager.{State}
use fastconf.Assembly.Sorting.{sort_stable}

pub record Subscriber (V S : Type 0) : Type 0 where
  pub id : ℕ
  pub extract : V → Option S
  pub equal : S → S → Bool

-- `subscriberSeq` and the subscribers by id.
pub record Registry (V S : Type 0) : Type 0 where
  pub seq : ℕ
  pub subscribers : List (Subscriber V S)

-- A call of the user's function: the subscriber, and the old and the new value.
pub record Call (S : Type 0) : Type 0 where
  pub subscriber : ℕ
  pub old : Option S
  pub new : Option S

-- Whether the function is called.
abbrev pub changed : {S : Type 0} → (S → S → Bool) → Option S → Option S → Bool
changed equal none none = false
changed equal (some a) (some b) = not (equal a b)
changed equal _ _ = true

module _ {V S : Type 0} where
  unfoldable pub subscribe : Registry V S → (V → Option S) → (S → S → Bool) → Registry V S
  subscribe r extract equal = record {
    seq = r.seq + 1;
    subscribers = r.subscribers ++ record { id = r.seq + 1; extract = extract; equal = equal } ∷ [];
  }

  abbrev without : ℕ → List (Subscriber V S) → List (Subscriber V S)
  without id [] = []
  without id (s ∷ l) = if s.id == id then without id l else s ∷ without id l

  -- The function that `Subscribe` returns.
  unfoldable pub cancel : Registry V S → ℕ → Registry V S
  cancel r id = record r { subscribers = without id r.subscribers }

  -- The extracted value of a snapshot, if there is one.
  abbrev pub extracted : Subscriber V S → Option (State V) → Option S
  extracted s none = none
  extracted s (some state) = s.extract state.value

  -- The wrapper that `Subscribe` registers.
  unfoldable pub call_subscriber :
      Subscriber V S → Option (State V) → Option (State V) → List (Call S)
  call_subscriber s prev next =
      if changed s.equal (extracted s prev) (extracted s next)
      then record { subscriber = s.id; old = extracted s prev; new = extracted s next } ∷ []
      else []

  unfoldable pub call_all :
      List (Subscriber V S) → Option (State V) → Option (State V) → List (Call S)
  unfolding call_subscriber
  call_all [] prev next = []
  call_all (s ∷ l) prev next = call_subscriber s prev next ++ call_all l prev next

  -- `notifySubscribers`, with the snapshot that was committed
  unfoldable pub notify_subscribers : Registry V S → Option (State V) → State V → List (Call S)
  unfolding call_all sort_stable
  notify_subscribers r prev next =
      call_all (sort_stable (λ a b. ltb a.id b.id) r.subscribers) prev (some next)

  -- The calls for the commits of the writer, one after the other.
  unfoldable pub notify_commits : Registry V S → List (Option (State V) × State V) → List (Call S)
  unfolding notify_subscribers
  notify_commits r [] = []
  notify_commits r ((prev, next) ∷ commits) =
      notify_subscribers r prev next ++ notify_commits r commits
