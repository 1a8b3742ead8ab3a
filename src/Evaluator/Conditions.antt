-- ===== src/Evaluator/Conditions.antt =====
-- The matching of tool names, arguments and contexts in
-- src/magsag/governance/permission_evaluator.py (`_matches_pattern` and what calls it).
use agdd.Prelude.{String, Bool, true, false, Option, none, some, str_eq, if◌then◌else◌}
use agdd.Result.{ok, raise, ◌>>=◌}
use agdd.Text.Fnmatch.{fnmatch}
use agdd.Value.{Value, Fields, str, dict, end, field}
use agdd.Value.Equality.{as_int, lt_int, get_field, py_eq}
use agdd.Evaluator.Policy.{Answer, type_error, Condition}

-- A comparison of the special patterns: a value that is no number fails the rule, and a bound that
-- is no number raises.
unfoldable pub compares : (Value → Value → Bool) → Value → Option Value → Answer Bool
unfolding as_int
compares test value none = ok true
compares test value (some bound) = elim (as_int value) [
  | none ↦ ok false
  | some _ ↦ elim (as_int bound) [ none ↦ raise type_error | some _ ↦ ok (test value bound) ]
]

abbrev pub less_than : Value → Value → Bool
less_than a b = elim (as_int a) [
  | none ↦ false
  | some n ↦ elim (as_int b) [ none ↦ false | some m ↦ lt_int n m ]
]

-- Both patterns texts: wildcards; else equality.
unfoldable pub matches_value : Value → Value → Bool
matches_value (str pattern) value = elim value [
  | str s ↦ fnmatch s pattern
  | v ↦ py_eq v (str pattern)
]
matches_value pattern value = py_eq value pattern

unfoldable pub matches_pattern : Value → Value → Answer Bool
unfolding compares get_field matches_value
matches_pattern (dict special) value = do
  below ← compares less_than value (get_field "less_than" special)
  if below
      then compares (λ a b. less_than b a) value (get_field "greater_than" special)
      else ok false
matches_pattern pattern value = ok (matches_value pattern value)

unfoldable pub matches_args : Fields → Fields → Answer Bool
unfolding matches_pattern get_field
matches_args args end = ok true
matches_args args (field key pattern rest) =
    let later = matches_args args rest in
    elim (get_field key args) [
      | none ↦ ok false
      | some value ↦ do good ← matches_pattern pattern value; if good then later else ok false
    ]

unfoldable pub matches_dict : Fields → Fields → Bool
unfolding matches_value get_field
matches_dict context end = true
matches_dict context (field key pattern rest) =
    let later = matches_dict context rest in
    elim (get_field key context) [
      | none ↦ false
      | some value ↦ if matches_value pattern value then later else false
    ]

-- `context.get("tool_args", {})`, which must be a dict wherever a key is looked up in it.
unfoldable pub tool_args_of : Fields → Answer Fields
unfolding get_field
tool_args_of context = elim (get_field "tool_args" context) [
  | none ↦ ok end
  | some v ↦ elim v [ dict args ↦ ok args | _ ↦ raise type_error ]
]

unfoldable pub matches_tool : String → Condition → Bool
matches_tool tool_name c =
    if elim c.tool [ none ↦ true | some t ↦ str_eq t tool_name ]
    then elim c.tool_pattern [ none ↦ true | some p ↦ fnmatch tool_name p ]
    else false

unfoldable pub matches_tool_args : Fields → Condition → Answer Bool
unfolding matches_args tool_args_of
matches_tool_args context c = elim c.args_match [
  | none ↦ ok true
  | some end ↦ ok true
  | some patterns ↦ do args ← tool_args_of context; matches_args args patterns
]

unfoldable pub matches_context : Fields → Condition → Bool
unfolding matches_dict
matches_context context c = elim c.context_match [
  | none ↦ true
  | some patterns ↦ matches_dict context patterns
]

unfoldable pub matches_context_rule : String → Fields → Condition → Answer Bool
unfolding matches_tool matches_tool_args matches_context
matches_context_rule tool_name context c =
    if matches_tool tool_name c
    then (do
      good ← matches_tool_args context c
      ok (if good then matches_context context c else false))
    else ok false
