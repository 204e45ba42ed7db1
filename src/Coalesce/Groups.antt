-- ===== src/Coalesce/Groups.antt =====
-- What reached `fn` and what is pending for a key, and the groups into which bursts cut its reasons.
use fastconf.Base.{
  ◌≡◌, refl, sym, ap, ◌∙◌, inl, inr, Option, none, some, List, [], ◌∷◌, ◌++◌, arith, if◌then◌else◌,
  Bool-cases, Text, text_eq, All, All-append, map, join, ◌≢◌,
}
use fastconf.Base.Dict
use fastconf.Base.Dict.{Dict, get-put, get-remove}
use fastconf.Coalesce.{Burst, Coalescer, Event, pushes, stops, call, join_unique, has_text}
use fastconf.Coalesce.Reasons.{IsUnique}
use mathlib.Core.List.{append-nil, append_assoc}

-- What `fn` was called with for a key, call after call.
abbrev pub delivered : Text → List (Text × Text) → List Text
delivered key [] = []
delivered key ((k, reason) ∷ calls) =
    if text_eq k key then reason ∷ delivered key calls else delivered key calls

abbrev pub burst_reasons : Option Burst → List Text
burst_reasons none = []
burst_reasons (some b) = b.reasons

-- The reasons of a key that its burst still holds.
abbrev pub pending : Text → Coalescer → List Text
pending key c = burst_reasons (Dict.get key c.bursts)

-- The reasons that events push for a key.
abbrev pub arriving : Text → List Event → List Text
arriving key [] = []
arriving key (pushes now k reason swap ∷ es) =
    if text_eq k key then reason ∷ arriving key es else arriving key es
arriving key (_ ∷ es) = arriving key es

abbrev pub IsEndless : List Event → Type 0
IsEndless [] = Unit
IsEndless (stops ∷ es) = ⊥
IsEndless (_ ∷ es) = IsEndless es

abbrev pub flat : List (List Text) → List Text
flat [] = []
flat (g ∷ gs) = g ++ flat gs

-- The joined reason of a group lists texts without a repetition, and exactly those of the group.
abbrev pub IsJoined : List Text → Text → Type 0
IsJoined group reason =
    (u : List Text) × (reason ≡ join b',' u)
    × IsUnique u
    × ((t : Text) → has_text t u ≡ has_text t group)

-- One call for each group.
abbrev pub AreJoined : List (List Text) → List Text → Type 0
AreJoined [] [] = Unit
AreJoined (g ∷ gs) (r ∷ rs) = IsJoined g r × AreJoined gs rs
AreJoined _ _ = ⊥

abbrev pub AreFilled : List (List Text) → Type 0
AreFilled gs = All (λ (g : List Text). g ≢ []) gs

-- What happened to a key between two states, where `new` arrived for it.
abbrev pub Advances : Text → Coalescer → Coalescer → List Text → Type 0
Advances key c c' new =
    (gs : List (List Text)) × (delivered key c'.calls ≡ delivered key c.calls ++ map join_unique gs)
    × (flat gs ++ pending key c' ≡ pending key c ++ new)
    × AreFilled gs

flat-append : (xs ys : List (List Text)) → flat (xs ++ ys) ≡ flat xs ++ flat ys
flat-append [] ys = refl
flat-append (x ∷ xs) ys =
    ap (λ l. x ++ l) (flat-append xs ys) ∙ sym (append_assoc x (flat xs) (flat ys))

map-append :
    (xs ys : List (List Text))
    → map join_unique (xs ++ ys) ≡ map join_unique xs ++ map join_unique ys
map-append [] ys = refl
map-append (x ∷ xs) ys = ap (λ l. join_unique x ∷ l) (map-append xs ys)

pub Advances-later :
    (key : Text) (c c' c'' : Coalescer) (new more : List Text)
    → Advances key c c' new
    → Advances key c' c'' more
    → Advances key c c'' (new ++ more)
Advances-later key c c' c'' new more (gs, calls, held, filled) (gs', calls', held', filled') = (
  gs ++ gs',
  calls'
      ∙ ap (λ l. l ++ map join_unique gs') calls
      ∙ append_assoc (delivered key c.calls) (map join_unique gs) (map join_unique gs')
      ∙ ap (λ l. delivered key c.calls ++ l) (sym (map-append gs gs')),
  ap (λ l. l ++ pending key c'') (flat-append gs gs')
      ∙ append_assoc (flat gs) (flat gs') (pending key c'')
      ∙ ap (λ l. flat gs ++ l) held'
      ∙ sym (append_assoc (flat gs) (pending key c') more)
      ∙ ap (λ l. l ++ more) held
      ∙ append_assoc (pending key c) new more,
  All-append (λ (g : List Text). g ≢ []) gs gs' filled filled',
)

delivered-append :
    (key : Text) (xs ys : List (Text × Text))
    → delivered key (xs ++ ys) ≡ delivered key xs ++ delivered key ys
delivered-append key [] ys = refl
delivered-append key ((k, r) ∷ xs) ys = elim (Bool-cases (text_eq k key)) [
  | inl e ↦ rw (e, delivered-append key xs ys) refl
  | inr e ↦ rw e (delivered-append key xs ys)
]

-- The group that a burst's reasons are, if there are any.
abbrev pub group : List Text → List (List Text)
group [] = []
group (r ∷ rs) = (r ∷ rs) ∷ []

pub flat-group : (rs : List Text) → flat (group rs) ≡ rs
flat-group [] = refl
flat-group (r ∷ rs) = append-nil (r ∷ rs)

pub group-AreFilled : (rs : List Text) → AreFilled (group rs)
group-AreFilled [] = tt
group-AreFilled (r ∷ rs) = ((λ e. cc), tt)

pub delivered-call :
    (key k : Text) (rs : List Text) (calls : List (Text × Text))
    → delivered key (call k rs calls)
      ≡ delivered key calls ++ (if text_eq k key then map join_unique (group rs) else [])
delivered-call key k [] calls = ground (arith, append-nil (delivered key calls))
delivered-call key k (r ∷ rs) calls = elim (Bool-cases (text_eq k key)) [
  | inl e ↦ rw (delivered-append key calls ((k, join_unique (r ∷ rs)) ∷ []), e) refl
  | inr e ↦ rw (delivered-append key calls ((k, join_unique (r ∷ rs)) ∷ []), e) refl
]
