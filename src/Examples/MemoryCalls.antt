-- ===== src/Examples/MemoryCalls.antt =====
-- A store of memories with times as texts of as many letters.
use agdd.Prelude.{
  ℕ, zero, suc, String, ◌≡◌, refl, true, false, none, some, List, [], ◌∷◌, arith, leb,
}
use agdd.Text.{codes, text_leb}
use agdd.Examples.TextClock.{
  ticks, untick, fact, small_dumps, small_loads, untick-ticks, ticks_not_empty,
}
use agdd.Result.{ok}
use agdd.Value.{end}
use agdd.Memory.Entry.{session, MemoryEntry, validated}
use agdd.Memory.Row.{Codec, Row, entry_to_row, row_to_entry, text_items}
use agdd.Memory.Sqlite.{like, has_tags}
use agdd.Memory.Roundtrip.{IsClock, IsStorable, stored, row_to_entry-entry_to_row}
use agdd.Memory.Table.{view}
use agdd.Memory.Spec.{Operation, create, get, update, delete, expire, clean, run_all, spec_run_all}
use agdd.Memory.Runs.{fresh, run_all_refines_spec}

abbrev codec : Codec ℕ
codec = record {
  dumps = small_dumps;
  loads = small_loads;
  dumps_floats = λ l. "[1]";
  loads_floats = λ t. 1 ∷ [];
  isoformat = ticks;
  fromisoformat = untick;
}

ticks_in_order : (s t : ℕ) → text_leb (codes (ticks s)) (codes (ticks t)) ≡ leb s t
unfolding ticks text_leb
ticks_in_order zero zero = refl
ticks_in_order zero (suc t) = ground arith
ticks_in_order (suc zero) zero = ground arith
ticks_in_order (suc (suc s)) zero = ground arith
ticks_in_order (suc s) (suc t) = ground (arith, ticks_in_order s t)

clock : IsClock codec
clock = record { read_back = untick-ticks; not_empty = ticks_not_empty; in_order = ticks_in_order }

abbrev note : String → MemoryEntry ℕ
note id = record {
  memory_id = id;
  scope = session;
  agent_slug = "writer";
  run_id = some "r1";
  key = "facts";
  value = fact;
  created_at = 3;
  updated_at = 3;
  expires_at = some 8;
  pii_tags = [];
  retention_policy = none;
  embedding = some [];
  tags = [];
  metadata = end;
}

note-IsStorable : (id : String) → IsStorable codec (note id)
unfolding validated small_dumps small_loads text_items
note-IsStorable id = record {
  valid = refl;
  value = ("{'a': 1}", refl, refl);
  pii_tags = ("[]", refl, refl);
  tags = ("[]", refl, refl);
  metadata = ("{}", refl, refl);
  floats = λ x xs e. absurd (ground arith);
}

row_to_entry-entry_to_row_example :
    (r : Row) × (entry_to_row codec (note "m1") ≡ ok r)
    × (row_to_entry codec r ≡ ok (stored codec (note "m1")))
row_to_entry-entry_to_row_example =
    row_to_entry-entry_to_row codec clock (note "m1") (note-IsStorable "m1")

-- One entry is written twice and changed, and both are gone after their time.
abbrev history : List (Operation ℕ)
history =
    create (note "m1")
    ∷ create (note "m1")
    ∷ update 5 (note "m1")
    ∷ get 6 "m1"
    ∷ create (note "m2")
    ∷ delete "m2"
    ∷ expire 8
    ∷ clean 9 (some session) 30 false
    ∷ get 9 "m1"
    ∷ []

run_all_refines_spec_example :
    (view codec (run_all codec history (fresh codec clock true)).0.memories
      ≡ (spec_run_all codec history (λ id. none)).0)
    × ((run_all codec history (fresh codec clock true)).1
        ≡ (spec_run_all codec history (λ id. none)).1)
run_all_refines_spec_example =
    let m1 = note-IsStorable "m1" in
    run_all_refines_spec codec clock history true
      (m1, (m1, (m1, (tt, (note-IsStorable "m2", (tt, (tt, (tt, (tt, tt)))))))))

-- The filter of tags takes `_` for any character and does not see case, so that it lists entries
-- without the tag; and it does not find a tag that JSON escapes.
wild_tag : has_tags ("to_do" ∷ []) "[\"TO-DO\"]" ≡ true
unfolding has_tags like
wild_tag = refl

escaped_tag : has_tags ("a\"b" ∷ []) "[\"a\\\"b\"]" ≡ false
unfolding has_tags like
escaped_tag = refl
