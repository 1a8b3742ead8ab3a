-- ===== src/Examples/TextClock.antt =====
-- Times as texts of as many letters, and a JSON of three texts.
use agdd.Prelude.{
  ℕ, zero, suc, String, ◌≡◌, ◌≢◌, refl, ap, Option, none, some, str_eq, if◌then◌else◌,
}
use agdd.Value.{Value, Fields, int, list, dict, nil, end, field, pos}

unfoldable pub ticks : ℕ → String
ticks zero = "t"
ticks (suc n) = String.◌∷◌ "t" (ticks n)

unfoldable count : String → ℕ
count String.[] = 0
count (String.◌∷◌ c s) = suc (count s)

unfoldable pub untick : String → ℕ
unfolding count
untick String.[] = 0
untick (String.◌∷◌ c s) = count s

abbrev pub fact : Fields
fact = field "a" (int (pos 1)) end

unfoldable pub small_dumps : Value → Option String
small_dumps (dict end) = some "{}"
small_dumps (dict (field k v fs)) = some "{'a': 1}"
small_dumps (list xs) = some "[]"
small_dumps _ = none

unfoldable pub small_loads : String → Value
small_loads t = if str_eq t "{}" then dict end else if str_eq t "[]" then list nil else dict fact

count-ticks : (n : ℕ) → count (ticks n) ≡ suc n
unfolding count ticks
count-ticks zero = refl
count-ticks (suc n) = ap suc (count-ticks n)

pub untick-ticks : (n : ℕ) → untick (ticks n) ≡ n
unfolding untick ticks
untick-ticks zero = refl
untick-ticks (suc n) = count-ticks n

pub ticks_not_empty : (n : ℕ) → ticks n ≢ ""
unfolding ticks
ticks_not_empty zero e = cc
ticks_not_empty (suc n) e = cc
