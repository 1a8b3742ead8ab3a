-- ===== src/Durable/Keys.antt =====
-- `f"{run_id}:{step_id}"` names one step of one run where no run has a colon, and else it may not.
use Prim.Native.String.{◌++◌ as append}
use text.Mathlib.TextLemmas.{append_assoc, nil-append, cons-append}
use agdd.Prelude.{ℕ, String, ◌≡◌, ◌≢◌, refl, ap, sym, ◌∙◌, List, [], ◌∷◌, ◌++◌, arith, All}
use agdd.Text.{codes, codes-injective}
use agdd.Durable.Snapshot.{snapshot_key}

codes-append : (s t : String) → codes (append s t) ≡ codes s ++ codes t
codes-append String.[] t = ap codes (nil-append t)
codes-append (String.◌∷◌ c s) t = rw (cons-append c s t) (cc (codes-append s t))

abbrev colon : ℕ
colon = b':'

-- No character of the text is a colon.
abbrev pub HasNoColon : String → Type 0
HasNoColon s = All (λ c. c ≢ colon) (codes s)

first_colon :
    (l l' m m' : List ℕ)
    → All (λ c. c ≢ colon) l
    → All (λ c. c ≢ colon) l'
    → l ++ (colon ∷ m) ≡ l' ++ (colon ∷ m')
    → (l ≡ l') × (m ≡ m')
first_colon [] [] m m' h h' e = (refl, ground arith)
first_colon [] (c ∷ l') m m' h h' e = absurd (h'.0 (ground arith))
first_colon (c ∷ l) [] m m' h h' e = absurd (h.0 (ground arith))
first_colon (c ∷ l) (d ∷ l') m m' h h' e =
    let (p, q) = first_colon l l' m m' h.1 h'.1 (ground arith) in (ground arith, q)

codes-key : (r p : String) → codes (snapshot_key r p) ≡ codes r ++ (colon ∷ codes p)
unfolding snapshot_key
codes-key r p = rw (codes-append r (append ":" p), codes-append ":" p) refl

-- Runs without a colon in their identifiers: equal keys are of one run and one step.
pub snapshot_key_injective :
    (r r' p p' : String)
    → HasNoColon r
    → HasNoColon r'
    → snapshot_key r p ≡ snapshot_key r' p'
    → (r ≡ r') × (p ≡ p')
snapshot_key_injective r r' p p' h h' e =
    let (x, y) =
      first_colon (codes r) (codes r') (codes p) (codes p') h h'
        (sym (codes-key r p) ∙ ap codes e ∙ codes-key r' p') in
    (codes-injective r r' x, codes-injective p p' y)

-- A colon may move from the step to the run without a change of the key.
pub snapshot_key_shift :
    (r p q : String) → snapshot_key (snapshot_key r p) q ≡ snapshot_key r (snapshot_key p q)
unfolding snapshot_key
snapshot_key_shift r p q =
    append_assoc r (append ":" p) (append ":" q) ∙ ap (append r) (append_assoc ":" p (append ":" q))
