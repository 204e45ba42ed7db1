-- ===== src/Providers/Shared.antt =====
-- internal/providerutil/providerutil.go: the latest document of a streaming provider, grafts,
-- coercion on demand, and the delays between retries.
use fastconf.Base.{
  ℕ, zero, suc, ◌-◌, ◌*◌, Bool, true, false, not, Option, none, some, List, [], ◌∷◌, leb, ◌==◌,
  if◌then◌else◌, Text,
}
use fastconf.Confmap.Value.{Value, Fields, str, obj, end}
use fastconf.Assembly.{Snapshot}
use fastconf.Confmap.Path.{set}
use fastconf.Confmap.Coerce.{coerce}

-- `Latest`; no value is the nil map.
pub record Latest : Type 0 where
  pub value : Option Fields
  pub revision : Text
  pub loaded : Bool

abbrev pub text_or_old : Text → Text → Text
text_or_old [] old = old
text_or_old (c ∷ s) old = c ∷ s

-- `Store`
unfoldable pub store_document : Option Fields → Text → Latest → Latest
store_document value revision l = record {
  value = value;
  revision = text_or_old revision l.revision;
  loaded = true;
}

abbrev pub or_empty : Option Fields → Fields
or_empty none = end
or_empty (some m) = m

-- `Snapshot` of `Latest`
unfoldable pub latest_snapshot : Latest → Snapshot
latest_snapshot l = record {
  tree = some (or_empty l.value);
  revision = l.revision;
  stale = not l.loaded;
}

unfoldable pub graft_at : Fields → List Text → Fields
unfolding set
graft_at inner [] = inner
graft_at inner (p ∷ root) = set end (p ∷ root) (obj inner)

unfoldable pub maybe_coerce : (Text → Option Value) → Text → Bool → Value
unfolding coerce
maybe_coerce parse_float s false = str s
maybe_coerce parse_float s true =
    coerce parse_float (record { trims = false; ignore_case = true }) s

-- `Backoff`; durations are not negative. The code takes Max - cur of a positive int64, which does not
-- wrap; while cur is not above Max, it is the subtraction here.
pub record Backoff : Type 0 where
  pub shortest : ℕ
  pub longest : ℕ
  pub cur : ℕ

abbrev pub delay_of : Backoff → ℕ
delay_of b = if b.cur == 0 then b.shortest else b.cur

abbrev pub grown_delay : ℕ → ℕ → ℕ
grown_delay longest d = if leb (longest - d) d then longest else d * 2

-- `Next`
unfoldable pub next_delay : Backoff → ℕ × Backoff
next_delay b = (delay_of b, record b { cur = grown_delay b.longest (delay_of b) })

-- `Reset`
unfoldable pub reset_delay : Backoff → Backoff
reset_delay b = record b { cur = 0 }

-- The delays of so many calls of `Next`.
unfoldable pub delays : ℕ → Backoff → List ℕ
unfolding next_delay
delays zero b = []
delays (suc n) b = let (d, after) = next_delay b in d ∷ delays n after
