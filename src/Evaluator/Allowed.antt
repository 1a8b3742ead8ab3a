-- ===== src/Evaluator/Allowed.antt =====
-- `list_allowed_tools` lists exactly the configured tools that need no approval.
use agdd.Prelude.{
  String, ◌≡◌, ◌↔◌, ◌⊎◌, if◌then◌else◌, List, [], ◌∷◌, refl, sym, inl, inr, Memᴰ, map, subst,
}
use agdd.Dict
use agdd.Result.{ok, first_value, ok-injective}
use agdd.Value.{Fields}
use agdd.Permissions.{ToolPermission, always, require_approval, never}
use agdd.Evaluator.Policy.{Policy, ToolConfig, Error}
use agdd.Evaluator.Evaluate.{is_always, evaluate, allowed_among, list_allowed_tools}

abbrev pub names : List (String × ToolConfig) → List String
names = map (λ e. e.0)

-- One round of the loop adds the tool exactly if its permission is `always`.
abbrev listed : ToolPermission → String → List String → List String
listed p u rest = if is_always p then u ∷ rest else rest

from_listed :
    (p : ToolPermission) (t u : String) (rest : List String)
    → Memᴰ t (listed p u rest)
    → ((t ≡ u) × (p ≡ always)) ⊎ Memᴰ t rest
from_listed always t u rest (Memᴰ.head e) = inl (e, refl)
from_listed always t u rest (Memᴰ.tail m) = inr m
from_listed require_approval t u rest m = inr m
from_listed never t u rest m = inr m

later_listed :
    (p : ToolPermission) (t u : String) (rest : List String)
    → Memᴰ t rest
    → Memᴰ t (listed p u rest)
later_listed always t u rest m = Memᴰ.tail m
later_listed require_approval t u rest m = m
later_listed never t u rest m = m

module _ (policy : Policy) (environment : String) (context : Fields) where
  -- The parts of a round that did not raise.
  round :
      (u : String) (w : ToolConfig) (tools : List (String × ToolConfig)) (l : List String)
      → allowed_among policy environment context ((u, w) ∷ tools) ≡ ok l
      → (p : ToolPermission) × (rest : List String) × (evaluate policy environment u context ≡ ok p)
        × (allowed_among policy environment context tools ≡ ok rest)
        × (listed p u rest ≡ l)
  unfolding allowed_among
  round u w tools l h =
      let (p, ep, h') = first_value (evaluate policy environment u context) _ (sym h) in
      let (rest, er, h'') = first_value (allowed_among policy environment context tools) _ h' in
      (p, rest, ep, er, ok-injective {E = Error} (listed p u rest) l (sym h''))

  allowed_among_sound :
      (tools : List (String × ToolConfig)) (l : List String) (t : String)
      → allowed_among policy environment context tools ≡ ok l
      → Memᴰ t l
      → Memᴰ t (names tools) × (evaluate policy environment t context ≡ ok always)
  unfolding allowed_among
  allowed_among_sound [] [] t h m = elim m [ ]
  allowed_among_sound [] (x ∷ l) t h m = cc
  allowed_among_sound ((u, w) ∷ tools) l t h m =
      let (p, rest, ep, er, e) = round u w tools l h in
      let later : Memᴰ t rest
          → Memᴰ t (names tools) × (evaluate policy environment t context ≡ ok always) =
        allowed_among_sound tools rest t er in
      elim (from_listed p t u rest (subst (Memᴰ t) (sym e) m)) [
        | inl (same, a) ↦ (Memᴰ.head same, cc (same, a, ep))
        | inr m' ↦ (Memᴰ.tail (later m').0, (later m').1)
      ]

  allowed_among_complete :
      (tools : List (String × ToolConfig)) (l : List String) (t : String)
      → allowed_among policy environment context tools ≡ ok l
      → Memᴰ t (names tools)
      → evaluate policy environment t context ≡ ok always
      → Memᴰ t l
  allowed_among_complete [] l t h m a = elim m [ ]
  allowed_among_complete ((u, w) ∷ tools) l t h (Memᴰ.head same) a =
      let (p, rest, ep, er, e) = round u w tools l h in
      subst (Memᴰ t) (cc (e, ok-injective {E = Error} p always (cc (same, a, ep))))
        (Memᴰ.head {xs = rest} same)
  allowed_among_complete ((u, w) ∷ tools) l t h (Memᴰ.tail m) a =
      let (p, rest, ep, er, e) = round u w tools l h in
      subst (Memᴰ t) e (later_listed p t u rest (allowed_among_complete tools rest t er m a))

-- Where no evaluation raises, the tools listed as allowed are exactly those that the policy
-- configures and that `evaluate` answers `always` for.
pub list_allowed_tools_exact :
    (policy : Policy) (environment : String) (context : Fields) (l : List String) (t : String)
    → list_allowed_tools policy environment context ≡ ok l
    → Memᴰ t l ↔ (
        Memᴰ t (names (Dict.items policy.tools))
        × (evaluate policy environment t context ≡ ok always))
unfolding list_allowed_tools
list_allowed_tools_exact policy environment context l t h = (
  allowed_among_sound policy environment context (Dict.items policy.tools) l t h,
  λ m. allowed_among_complete policy environment context (Dict.items policy.tools) l t h m.0 m.1,
)
