-- ===== src/Cache/Key/Alike.antt =====
-- The cache key does not depend on the order of lists and of keys.
use agdd.Prelude.{String, ◌≡◌, ◌≢◌, refl, ap, ◌∙◌, arith, true, Option}
use agdd.Text.{codes, codes-injective, text_leb_total, text_leb_antisymm, text_leb_trans}
use agdd.Value.{Value, Items, Fields, list, dict, nil, cons, end, field}
use agdd.Permissions.Hash.{insert_field_comm}
use agdd.Cache.Key.{
  text_of, all_serializable, insert_item, sort_items, sort_or_keep, normalize_input, normalize_each,
  normalize_entries, compute_key,
}

module _ (dumps : Value → Option String) where
  -- Values that differ in the order of the keys of dicts and of the items of lists, at any depth. Two
  -- items change places if their normalised values have different JSON texts, in a list whose
  -- normalised items all have one.
  mutual
    pub data Alike : Value → Value → Type 0 where
      same : (v : Value) → Alike v v
      in_list :
          {xs ys : Items}
          → all_serializable dumps (normalize_each dumps xs) ≡ true
          → AlikeItems xs ys
          → Alike (list xs) (list ys)
      in_dict : {fs gs : Fields} → AlikeFields fs gs → Alike (dict fs) (dict gs)

    pub data AlikeItems : Items → Items → Type 0 where
      no_items : AlikeItems nil nil
      each :
          {v w : Value} {xs ys : Items}
          → Alike v w
          → AlikeItems xs ys
          → AlikeItems (cons v xs) (cons w ys)
      swap_items :
          (v w : Value) (xs : Items)
          → text_of dumps (normalize_input dumps v) ≢ text_of dumps (normalize_input dumps w)
          → AlikeItems (cons v (cons w xs)) (cons w (cons v xs))
      trans_items : {xs ys zs : Items} → AlikeItems xs ys → AlikeItems ys zs → AlikeItems xs zs

    pub data AlikeFields : Fields → Fields → Type 0 where
      no_fields : AlikeFields end end
      keep :
          {v w : Value} {fs gs : Fields} (k : String)
          → Alike v w
          → AlikeFields fs gs
          → AlikeFields (field k v fs) (field k w gs)
      swap :
          (k j : String) (v w : Value) (fs : Fields)
          → k ≢ j
          → AlikeFields (field k v (field j w fs)) (field j w (field k v fs))
      trans : {fs gs hs : Fields} → AlikeFields fs gs → AlikeFields gs hs → AlikeFields fs hs

  insert_item_comm :
      (v w : Value) (xs : Items)
      → text_of dumps v ≢ text_of dumps w
      → insert_item dumps v (insert_item dumps w xs) ≡ insert_item dumps w (insert_item dumps v xs)
  unfolding insert_item
  insert_item_comm v w nil ne = ground (
    arith,
    text_leb_total (codes (text_of dumps v)) (codes (text_of dumps w)),
    text_leb_antisymm (codes (text_of dumps v)) (codes (text_of dumps w)),
    codes-injective (text_of dumps v) (text_of dumps w),
  )
  insert_item_comm v w (cons u xs) ne = ground (
    arith,
    text_leb_total (codes (text_of dumps v)) (codes (text_of dumps w)),
    text_leb_total (codes (text_of dumps v)) (codes (text_of dumps u)),
    text_leb_total (codes (text_of dumps w)) (codes (text_of dumps u)),
    text_leb_antisymm (codes (text_of dumps v)) (codes (text_of dumps w)),
    codes-injective (text_of dumps v) (text_of dumps w),
    text_leb_trans (codes (text_of dumps v)) (codes (text_of dumps w)) (codes (text_of dumps u)),
    text_leb_trans (codes (text_of dumps w)) (codes (text_of dumps v)) (codes (text_of dumps u)),
    text_leb_trans (codes (text_of dumps v)) (codes (text_of dumps u)) (codes (text_of dumps w)),
    text_leb_trans (codes (text_of dumps w)) (codes (text_of dumps u)) (codes (text_of dumps v)),
    insert_item_comm v w xs ne,
  )

  sort_both :
      (xs ys : Items)
      → all_serializable dumps xs ≡ all_serializable dumps ys
      → sort_items dumps xs ≡ sort_items dumps ys
      → all_serializable dumps xs ≡ true
      → sort_or_keep dumps xs ≡ sort_or_keep dumps ys
  unfolding sort_or_keep
  sort_both xs ys a s t = ground arith

  mutual
    unfolding normalize_input all_serializable sort_items

    normalize-Alike : {v w : Value} → Alike v w → normalize_input dumps v ≡ normalize_input dumps w
    normalize-Alike (same v) = refl
    normalize-Alike (in_list {xs} {ys} t h) = ap list (
        sort_both (normalize_each dumps xs) (normalize_each dumps ys)
          (all_serializable-AlikeItems h) (sort-AlikeItems h) t)
    normalize-Alike (in_dict h) = ap dict (normalize-AlikeFields h)

    all_serializable-AlikeItems :
        {xs ys : Items}
        → AlikeItems xs ys
        → all_serializable dumps (normalize_each dumps xs)
          ≡ all_serializable dumps (normalize_each dumps ys)
    all_serializable-AlikeItems no_items = refl
    all_serializable-AlikeItems (each h t) = cc (normalize-Alike h, all_serializable-AlikeItems t)
    all_serializable-AlikeItems (swap_items v w xs ne) = ground arith
    all_serializable-AlikeItems (trans_items h t) =
        all_serializable-AlikeItems h ∙ all_serializable-AlikeItems t

    sort-AlikeItems :
        {xs ys : Items}
        → AlikeItems xs ys
        → sort_items dumps (normalize_each dumps xs) ≡ sort_items dumps (normalize_each dumps ys)
    sort-AlikeItems no_items = refl
    sort-AlikeItems (each h t) = cc (normalize-Alike h, sort-AlikeItems t)
    sort-AlikeItems (swap_items v w xs ne) =
        insert_item_comm (normalize_input dumps v) (normalize_input dumps w)
          (sort_items dumps (normalize_each dumps xs)) ne
    sort-AlikeItems (trans_items h t) = sort-AlikeItems h ∙ sort-AlikeItems t

    normalize-AlikeFields :
        {fs gs : Fields}
        → AlikeFields fs gs
        → normalize_entries dumps fs ≡ normalize_entries dumps gs
    normalize-AlikeFields no_fields = refl
    normalize-AlikeFields (keep k h t) = cc (normalize-Alike h, normalize-AlikeFields t)
    normalize-AlikeFields (swap k j v w fs ne) =
        insert_field_comm k j (normalize_input dumps v) (normalize_input dumps w)
          (normalize_entries dumps fs) ne
    normalize-AlikeFields (trans h t) = normalize-AlikeFields h ∙ normalize-AlikeFields t

  -- Tool specifications, schemas and capabilities that differ only in the order of keys and of list
  -- items, at any depth, have one cache key, or raise alike. Items change places where their
  -- normalised values have different JSON texts, in lists whose items all have one.
  pub compute_key-Alike :
      (sha256 : String → String) (template_id : String) (tools tools' : Items)
      (schema schema' caps caps' : Fields)
      → Alike (list tools) (list tools')
      → Alike (dict schema) (dict schema')
      → Alike (dict caps) (dict caps')
      → compute_key dumps sha256 template_id tools schema caps
        ≡ compute_key dumps sha256 template_id tools' schema' caps'
  unfolding compute_key
  compute_key-Alike sha256 template_id tools tools' schema schema' caps caps' a b c =
      cc (normalize-Alike a, normalize-Alike b, normalize-Alike c)
