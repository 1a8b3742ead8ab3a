-- ===== src/Permissions/Hash.antt =====
-- The hash of the arguments does not depend on the order of their keys.
use agdd.Prelude.{String, ◌≡◌, ◌≢◌, refl, ap, ◌∙◌, arith}
use agdd.Text.{codes, codes-injective, text_leb_total, text_leb_antisymm, text_leb_trans}
use agdd.Value.{Value, Items, Fields, list, tuple, dict, nil, cons, end, field}
use agdd.Permissions.{
  insert_field, normalize_for_hash, normalize_items, normalize_fields, compute_args_hash,
}

infix 40 ◌≈◌
-- Two values that Python's `==` does not tell apart by the order of dict entries: neighbours with
-- different keys may change places, at any depth.
mutual
  pub data ◌≈◌ : Value → Value → Type 0 where
    same : (v : Value) → v ≈ v
    in_list : {xs ys : Items} → SameItems xs ys → list xs ≈ list ys
    in_tuple : {xs ys : Items} → SameItems xs ys → tuple xs ≈ tuple ys
    in_dict : {fs gs : Fields} → SameFields fs gs → dict fs ≈ dict gs

  pub data SameItems : Items → Items → Type 0 where
    none_left : SameItems nil nil
    each :
        {v w : Value} {xs ys : Items} → v ≈ w → SameItems xs ys → SameItems (cons v xs) (cons w ys)

  pub data SameFields : Fields → Fields → Type 0 where
    no_fields : SameFields end end
    keep :
        {v w : Value} {fs gs : Fields} (k : String)
        → v ≈ w
        → SameFields fs gs
        → SameFields (field k v fs) (field k w gs)
    swap :
        (k j : String) (v w : Value) (fs : Fields)
        → k ≢ j
        → SameFields (field k v (field j w fs)) (field j w (field k v fs))
    trans : {fs gs hs : Fields} → SameFields fs gs → SameFields gs hs → SameFields fs hs

pub insert_field_comm :
    (k j : String) (v w : Value) (fs : Fields)
    → k ≢ j
    → insert_field k v (insert_field j w fs) ≡ insert_field j w (insert_field k v fs)
unfolding insert_field
insert_field_comm k j v w end ne = ground (
  arith,
  text_leb_total (codes k) (codes j),
  text_leb_antisymm (codes k) (codes j),
  codes-injective k j,
)
insert_field_comm k j v w (field i u fs) ne = ground (
  arith,
  text_leb_total (codes k) (codes j),
  text_leb_total (codes k) (codes i),
  text_leb_total (codes j) (codes i),
  text_leb_antisymm (codes k) (codes j),
  codes-injective k j,
  text_leb_trans (codes k) (codes j) (codes i),
  text_leb_trans (codes j) (codes k) (codes i),
  text_leb_trans (codes k) (codes i) (codes j),
  text_leb_trans (codes j) (codes i) (codes k),
  insert_field_comm k j v w fs ne,
)

mutual
  unfolding normalize_for_hash

  normalize-≈ : {v w : Value} → v ≈ w → normalize_for_hash v ≡ normalize_for_hash w
  normalize-≈ (same v) = refl
  normalize-≈ (in_list h) = ap list (normalize-SameItems h)
  normalize-≈ (in_tuple h) = ap list (normalize-SameItems h)
  normalize-≈ (in_dict h) = ap dict (normalize-SameFields h)

  normalize-SameItems : {xs ys : Items} → SameItems xs ys → normalize_items xs ≡ normalize_items ys
  normalize-SameItems none_left = refl
  normalize-SameItems (each h t) = cc (normalize-≈ h, normalize-SameItems t)

  normalize-SameFields :
      {fs gs : Fields} → SameFields fs gs → normalize_fields fs ≡ normalize_fields gs
  normalize-SameFields no_fields = refl
  normalize-SameFields (keep k h t) = cc (normalize-≈ h, normalize-SameFields t)
  normalize-SameFields (swap k j v w fs ne) =
      insert_field_comm k j (normalize_for_hash v) (normalize_for_hash w) (normalize_fields fs) ne
  normalize-SameFields (trans h t) = normalize-SameFields h ∙ normalize-SameFields t

-- Whatever the digest, arguments that differ only in the order of keys, at any depth, have one hash.
pub compute_args_hash-SameFields :
    (digest : Value → String) (args args' : Fields)
    → SameFields args args'
    → compute_args_hash digest args ≡ compute_args_hash digest args'
unfolding compute_args_hash
compute_args_hash-SameFields digest args args' h =
    ap (λ fs. digest (dict fs)) (normalize-SameFields h)
