-- ===== src/Providers/Delays.antt =====
-- The delays between retries.
use fastconf.Base.{ℕ, zero, suc, ◌*◌, ◌≤◌, ◌<◌, min, ◌≡◌, refl, ap, ◌∙◌, List, [], ◌∷◌, arith}
use fastconf.Providers.Shared.{Backoff, next_delay, delays, delay_of, grown_delay, reset_delay}

-- A delay, its double, and so on, up to the longest.
abbrev pub doublings : ℕ → ℕ → ℕ → List ℕ
doublings longest zero d = []
doublings longest (suc n) d = min longest d ∷ doublings longest n (d * 2)

grown-min : (longest d : ℕ) → grown_delay longest (min longest d) ≡ min longest (d * 2)
grown-min longest d = ground arith

next-delay_of :
    (shortest longest cur : ℕ)
    → 0 < cur
    → delay_of (record { shortest = shortest; longest = longest; cur = cur }) ≡ cur
next-delay_of shortest longest cur h = ground arith

delays-from :
    (n d : ℕ) (b : Backoff)
    → 0 < d
    → 0 < b.longest
    → delay_of b ≡ min b.longest d
    → delays n b ≡ doublings b.longest n d
unfolding delays next_delay
delays-from zero d b z y h = refl
delays-from (suc n) d b z y h =
    let step : grown_delay b.longest (delay_of b) ≡ min b.longest (d * 2) =
      rw h (grown-min b.longest d) in
    let rest =
      delays-from n (d * 2) (record b { cur = grown_delay b.longest (delay_of b) }) (omega arith) y
        (rw step (next-delay_of b.shortest b.longest (min b.longest (d * 2)) (ground arith))) in
    ap (λ l. delay_of b ∷ l) rest ∙ ap (λ x. x ∷ doublings b.longest n (d * 2)) h

-- After a reset, for 0 < Min <= Max: the delays are Min, twice Min, four times Min and so on, each
-- cut off at Max.
pub delays-doublings :
    (n : ℕ) (b : Backoff)
    → 0 < b.shortest
    → b.shortest ≤ b.longest
    → delays n (reset_delay b) ≡ doublings b.longest n b.shortest
unfolding reset_delay
delays-doublings n b h k =
    delays-from n b.shortest (record b { cur = 0 }) h (omega arith) (ground arith)
