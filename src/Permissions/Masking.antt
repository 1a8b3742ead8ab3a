-- ===== src/Permissions/Masking.antt =====
-- What masking hides, and that masking again changes nothing.
use agdd.Prelude.{
  ℕ, ◌≤◌, String, ◌≡◌, refl, sym, ap, ◌∙◌, subst, true, false, ◌⊎◌, inl, inr, Option, some, List,
  [], ◌∷◌, ◌++◌, arith, str_eq, eq_iff, All, All-append, All-mem, Memᴰ, Bool-cases, length,
}
use agdd.Text.{codes, lower, occurs_in-append, mem_of_occurs_in}
use agdd.Value.{
  Value, Items, Fields, null, bool, int, str, other, list, tuple, dict, nil, cons, end, field,
}
use agdd.Permissions.{
  mask_scalar, redacted, sensitive_keywords, any_occurs, is_sensitive_key, is_long_token,
  should_mask, mask, mask_items, mask_fields, mask_tool_args,
}

redacted_short : is_long_token (str redacted) ≡ false
unfolding is_long_token
redacted_short = refl

mutual
  unfolding mask should_mask

  mask-mask : (hint : Option String) (v : Value) → mask hint (mask hint v) ≡ mask hint v
  mask-mask hint (dict fs) = ap dict (mask_fields-mask_fields fs)
  mask-mask hint (list xs) = ap list (mask_items-mask_items hint xs)
  mask-mask hint (tuple xs) = ap tuple (mask_items-mask_items hint xs)
  mask-mask hint null = ground (arith, redacted_short)
  mask-mask hint (bool b) = ground (arith, redacted_short)
  mask-mask hint (int n) = ground (arith, redacted_short)
  mask-mask hint (str s) = ground (arith, redacted_short)
  mask-mask hint (other s) = ground (arith, redacted_short)

  mask_items-mask_items :
      (hint : Option String) (xs : Items)
      → mask_items hint (mask_items hint xs) ≡ mask_items hint xs
  mask_items-mask_items hint nil = refl
  mask_items-mask_items hint (cons v xs) = cc (mask-mask hint v, mask_items-mask_items hint xs)

  mask_fields-mask_fields : (fs : Fields) → mask_fields (mask_fields fs) ≡ mask_fields fs
  mask_fields-mask_fields end = refl
  mask_fields-mask_fields (field k v fs) = cc (mask-mask (some k) v, mask_fields-mask_fields fs)

-- Masking arguments that are masked already changes nothing.
pub mask_tool_args_idem :
    (args : Fields) → mask_tool_args (mask_tool_args args) ≡ mask_tool_args args
unfolding mask_tool_args
mask_tool_args_idem args = mask_fields-mask_fields args

-- The values that are no container, each with the nearest key above it.
unfoldable mutual
  pub leaves : Option String → Value → List (Option String × Value)
  leaves hint (dict fs) = leaves_of_fields fs
  leaves hint (list xs) = leaves_of_items hint xs
  leaves hint (tuple xs) = leaves_of_items hint xs
  leaves hint null = (hint, null) ∷ []
  leaves hint (bool b) = (hint, bool b) ∷ []
  leaves hint (int n) = (hint, int n) ∷ []
  leaves hint (str s) = (hint, str s) ∷ []
  leaves hint (other s) = (hint, other s) ∷ []

  pub leaves_of_items : Option String → Items → List (Option String × Value)
  leaves_of_items hint nil = []
  leaves_of_items hint (cons v xs) = leaves hint v ++ leaves_of_items hint xs

  pub leaves_of_fields : Fields → List (Option String × Value)
  leaves_of_fields end = []
  leaves_of_fields (field k v fs) = leaves (some k) v ++ leaves_of_fields fs

abbrev IsHidden : Option String × Value → Type 0
IsHidden (hint, v) =
    ((is_sensitive_key hint ≡ false) ⊎ (v ≡ str redacted)) × (is_long_token v ≡ false)

plain-IsHidden :
    (hint : Option String) (v : Value) → should_mask hint v ≡ false → IsHidden (hint, v)
unfolding should_mask
plain-IsHidden hint v h = (inl (ground arith), ground arith)

scalar-IsHidden :
    (hint : Option String) (v : Value)
    → leaves hint v ≡ (hint, v) ∷ []
    → leaves hint (str redacted) ≡ (hint, str redacted) ∷ []
    → All IsHidden (leaves hint (mask_scalar hint v))
scalar-IsHidden hint v e r = elim (Bool-cases (should_mask hint v)) [
  | inl m ↦ rw (m, r) ((inr refl, redacted_short), tt)
  | inr m ↦ rw (m, e) (plain-IsHidden hint v m, tt)
]

mutual
  unfolding mask leaves

  mask-IsHidden : (hint : Option String) (v : Value) → All IsHidden (leaves hint (mask hint v))
  mask-IsHidden hint (dict fs) = mask_fields-IsHidden fs
  mask-IsHidden hint (list xs) = mask_items-IsHidden hint xs
  mask-IsHidden hint (tuple xs) = mask_items-IsHidden hint xs
  mask-IsHidden hint null = scalar-IsHidden hint null refl refl
  mask-IsHidden hint (bool b) = scalar-IsHidden hint (bool b) refl refl
  mask-IsHidden hint (int n) = scalar-IsHidden hint (int n) refl refl
  mask-IsHidden hint (str s) = scalar-IsHidden hint (str s) refl refl
  mask-IsHidden hint (other s) = scalar-IsHidden hint (other s) refl refl

  mask_items-IsHidden :
      (hint : Option String) (xs : Items) → All IsHidden (leaves_of_items hint (mask_items hint xs))
  mask_items-IsHidden hint nil = tt
  mask_items-IsHidden hint (cons v xs) =
      All-append IsHidden _ _ (mask-IsHidden hint v) (mask_items-IsHidden hint xs)

  mask_fields-IsHidden : (fs : Fields) → All IsHidden (leaves_of_fields (mask_fields fs))
  mask_fields-IsHidden end = tt
  mask_fields-IsHidden (field k v fs) =
      All-append IsHidden _ _ (mask-IsHidden (some k) v) (mask_fields-IsHidden fs)

any_occurs-mem :
    (w : String) (ws : List String) (l r : List ℕ)
    → Memᴰ w ws
    → any_occurs ws (l ++ (codes w ++ r)) ≡ true
unfolding any_occurs
any_occurs-mem w [] l r m = elim m [ ]
any_occurs-mem w (u ∷ ws) l r (Memᴰ.head e) =
    rw (← e) (ground (arith, occurs_in-append l (codes w) r))
any_occurs-mem w (u ∷ ws) l r (Memᴰ.tail m) = ground (arith, any_occurs-mem w ws l r m)

empty_key : any_occurs sensitive_keywords (lower (codes "")) ≡ false
unfolding any_occurs lower
empty_key = refl

is_sensitive_key-contains :
    (k w : String) (l r : List ℕ)
    → Memᴰ w sensitive_keywords
    → lower (codes k) ≡ l ++ (codes w ++ r)
    → is_sensitive_key (some k) ≡ true
unfolding is_sensitive_key
is_sensitive_key-contains k w l r m e = elim (Bool-cases (str_eq k "")) [
  | inl b ↦ absurd (
      cc (
        sym (
          subst (λ (s : String). any_occurs sensitive_keywords (lower (codes s)) ≡ true)
            ((eq_iff k "").0 b) occurs)
        ∙ empty_key))
  | inr b ↦ rw (b, occurs)
]
  where
    occurs : any_occurs sensitive_keywords (lower (codes k)) ≡ true
    occurs = ap (any_occurs sensitive_keywords) e ∙ any_occurs-mem w sensitive_keywords l r m

-- In masked arguments, every value that is no container and whose nearest key contains, in lower
-- case, one of the sensitive keywords is the redaction marker.
pub mask_hides_sensitive :
    (args : Fields) (k w : String) (l r : List ℕ) (v : Value)
    → Memᴰ w sensitive_keywords
    → lower (codes k) ≡ l ++ (codes w ++ r)
    → Memᴰ (some k, v) (leaves_of_fields (mask_tool_args args))
    → v ≡ str redacted
unfolding mask_tool_args
mask_hides_sensitive args k w l r v m e leaf = ground (
  arith,
  is_sensitive_key-contains k w l r m e,
  All-mem IsHidden (leaves_of_fields (mask_fields args)) (mask_fields-IsHidden args) leaf,
)

-- In masked arguments, every text of 32 characters or more has a space in it, whatever its key.
pub mask_hides_tokens :
    (args : Fields) (hint : Option String) (s : String)
    → Memᴰ (hint, str s) (leaves_of_fields (mask_tool_args args))
    → 32 ≤ length (codes s)
    → Memᴰ b' ' (codes s)
unfolding mask_tool_args is_long_token
mask_hides_tokens args hint s leaf long = mem_of_occurs_in b' ' (codes s) (
    ground (
      arith,
      All-mem IsHidden (leaves_of_fields (mask_fields args)) (mask_fields-IsHidden args) leaf,
    ))
