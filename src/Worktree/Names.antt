-- ===== src/Worktree/Names.antt =====
-- src/magsag/worktree/naming.py. Texts are the codes of their characters; `lower` changes the
-- letters of ASCII.
use agdd.Prelude.{
  ℕ, Bool, true, false, ◌||◌, ◌&&◌, List, [], ◌∷◌, ◌++◌, map, leb, ◌==◌, if◌then◌else◌,
}
use agdd.Text.{codes, lower}

-- The characters that `str.strip()` takes away.
unfoldable pub is_space : ℕ → Bool
is_space c =
    (leb 9 c && leb c 13)
    || ((leb 28 c && leb c 32)
        || ((c == 133)
            || ((c == 160)
                || ((c == 5760)
                    || ((leb 8192 c && leb c 8202)
                        || ((c == 8232)
                            || ((c == 8233) || ((c == 8239) || ((c == 8287) || (c == 12288))))))))))

-- `-`, `.` and `_`
unfoldable pub is_edge : ℕ → Bool
is_edge c = (c == 45) || ((c == 46) || (c == 95))

-- `[a-z0-9._]`
unfoldable pub is_safe : ℕ → Bool
is_safe c = (leb 97 c && leb c 122) || ((leb 48 c && leb c 57) || ((c == 46) || (c == 95)))

unfoldable pub strip_start : (ℕ → Bool) → List ℕ → List ℕ
strip_start drop [] = []
strip_start drop (c ∷ s) = let rest = strip_start drop s in if drop c then rest else c ∷ s

unfoldable pub strip_end : (ℕ → Bool) → List ℕ → List ℕ
strip_end drop [] = []
strip_end drop (c ∷ s) = elim (strip_end drop s) [
  | [] ↦ if drop c then [] else c ∷ []
  | d ∷ t ↦ c ∷ d ∷ t
]

unfoldable pub strip : (ℕ → Bool) → List ℕ → List ℕ
strip drop s = strip_end drop (strip_start drop s)

-- `_SAFE_SEGMENT.sub("-", s)`: one hyphen for each run of other characters. The flag says that the
-- character before was one of them.
unfoldable pub replace_unsafe : Bool → List ℕ → List ℕ
replace_unsafe before [] = []
replace_unsafe before (c ∷ s) =
    let after_safe = replace_unsafe false s in
    let after_unsafe = replace_unsafe true s in
    if is_safe c then c ∷ after_safe else (if before then after_unsafe else 45 ∷ after_unsafe)

unfoldable pub replace_spaces : List ℕ → List ℕ
replace_spaces s = map (λ c. if c == 32 then 45 else c) s

-- `cleaned or "x"`
unfoldable pub or_x : List ℕ → List ℕ
or_x [] = codes "x"
or_x (c ∷ s) = c ∷ s

-- The flag is the argument `lower`, which is true by default.
unfoldable pub sanitize_segment : Bool → List ℕ → List ℕ
sanitize_segment lowered segment =
    let cleaned = strip is_space segment in
    or_x (
      strip is_edge
        (replace_unsafe false (replace_spaces (if lowered then lower cleaned else cleaned))))

unfoldable pub branch_name : List ℕ → List ℕ → List ℕ
branch_name run_id task =
    codes "wt/" ++ (sanitize_segment true run_id ++ (codes "/" ++ sanitize_segment true task))

unfoldable pub directory_name : List ℕ → List ℕ → List ℕ → List ℕ
directory_name run_id task short_sha =
    codes "wt-"
    ++ (sanitize_segment true run_id
        ++ (codes "-" ++ (sanitize_segment true task ++ (codes "-" ++ short_sha))))
