-- ===== src/Writer/Log.antt =====
-- What the log says of the requests and events.
use fastconf.Base.{◌≡◌, refl, ap, Bool, true, false, List, [], ◌∷◌, ◌++◌}
use fastconf.Writer.{Entry, queued, dropped, ran, refused, refreshed, skipped}

-- The requests that were queued, that ran, and that were refused because the manager was closed.
abbrev pub queued_in : {R : Type 0} → List (Entry R) → List R
queued_in [] = []
queued_in (queued r ∷ l) = r ∷ queued_in l
queued_in (_ ∷ l) = queued_in l

abbrev pub ran_in : {R : Type 0} → List (Entry R) → List R
ran_in [] = []
ran_in (ran r ∷ l) = r ∷ ran_in l
ran_in (_ ∷ l) = ran_in l

abbrev pub refused_in : {R : Type 0} → List (Entry R) → List R
refused_in [] = []
refused_in (refused r ∷ l) = r ∷ refused_in l
refused_in (_ ∷ l) = refused_in l

-- Whether, after `b`, an event was dropped with no refresh, run or skipped, after it.
abbrev pub owed_after : {R : Type 0} → Bool → List (Entry R) → Bool
owed_after b [] = b
owed_after b (dropped r ∷ l) = owed_after true l
owed_after b (refreshed ∷ l) = owed_after false l
owed_after b (skipped ∷ l) = owed_after false l
owed_after b (_ ∷ l) = owed_after b l

module _ {R : Type 0} where
  pub queued_in-append : (a b : List (Entry R)) → queued_in (a ++ b) ≡ queued_in a ++ queued_in b
  queued_in-append [] b = refl
  queued_in-append (queued r ∷ l) b = ap (λ k. r ∷ k) (queued_in-append l b)
  queued_in-append (_ ∷ l) b = queued_in-append l b

  pub ran_in-append : (a b : List (Entry R)) → ran_in (a ++ b) ≡ ran_in a ++ ran_in b
  ran_in-append [] b = refl
  ran_in-append (ran r ∷ l) b = ap (λ k. r ∷ k) (ran_in-append l b)
  ran_in-append (_ ∷ l) b = ran_in-append l b

  pub refused_in-append :
      (a b : List (Entry R)) → refused_in (a ++ b) ≡ refused_in a ++ refused_in b
  refused_in-append [] b = refl
  refused_in-append (refused r ∷ l) b = ap (λ k. r ∷ k) (refused_in-append l b)
  refused_in-append (_ ∷ l) b = refused_in-append l b

  pub owed-append :
      (b : Bool) (x y : List (Entry R)) → owed_after b (x ++ y) ≡ owed_after (owed_after b x) y
  owed-append b [] y = refl
  owed-append b (dropped r ∷ l) y = owed-append true l y
  owed-append b (refreshed ∷ l) y = owed-append false l y
  owed-append b (skipped ∷ l) y = owed-append false l y
  owed-append b (_ ∷ l) y = owed-append b l y
