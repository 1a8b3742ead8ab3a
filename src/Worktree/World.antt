-- ===== src/Worktree/World.antt =====
-- What the worktree manager of src/magsag/worktree/manager.py calls: git, the file system, the
-- environment, the clock and the event bus, as a parameter with a state of its own. Metrics and traces
-- are left out.
use agdd.Prelude.{ℕ, Bool, true, false, Option, List}
use agdd.Result.{Result, ok, raise}
use agdd.Worktree.Porcelain.{Text, WorktreeError}
use agdd.Worktree.Resolve.{WorktreeMetadata, WorktreeRecord}

pub data WorktreeEvent : Type 0 where
  created locked unlocked : WorktreeRecord → WorktreeEvent
  removed : WorktreeRecord → Bool → WorktreeEvent
  pruned : Text → ℕ → ℕ → WorktreeEvent
  repaired : WorktreeEvent

pub record World (S : Type 0) : Type 0 where
  -- The arguments of a git command and its directory; the exit code and the output.
  pub git : List Text → Text → S → S × (ℕ × Text)
  pub exists : Text → S → Bool
  pub resolve : Text → S → Text
  pub is_under : Text → Text → Bool
  pub join : Text → Text → Text
  pub load_metadata : Text → S → Result WorktreeError (Option WorktreeMetadata)
  pub write_metadata : Text → WorktreeMetadata → S → S × Result WorktreeError (Unit {0})
  pub unlink_metadata : Text → S → S
  pub allow_force : S → Text
  pub now : S → ℕ
  pub publish : WorktreeEvent → S → S

pub record WorktreeSettings : Type 0 where
  pub root : Text
  pub max_concurrency : ℕ
  pub ttl_spec : Text

-- A step that reads and changes the world, and may raise.
abbrev pub Step : Type 0 → Type 0 → Type 0
Step S A = S → S × Result WorktreeError A

infixl 5 ◌>>=◌
abbrev pub ◌>>=◌ : {S A B : Type 0} → Step S A → (A → Step S B) → Step S B
◌>>=◌ m f s = let (s', r) = m s in elim r [ raise error ↦ (s', raise error) | ok a ↦ f a s' ]

infixl 5 ◌>>◌
abbrev pub ◌>>◌ : {S A B : Type 0} → Step S A → Step S B → Step S B
m >> n = m >>= λ _. n

abbrev pub return : {S A : Type 0} → A → Step S A
return a s = (s, ok a)

abbrev pub throw : {S A : Type 0} → WorktreeError → Step S A
throw error s = (s, raise error)

abbrev pub from_result : {S A : Type 0} → Result WorktreeError A → Step S A
from_result r s = (s, r)

abbrev pub refuse_if : {S : Type 0} → Bool → WorktreeError → Step S (Unit {0})
refuse_if true error = throw error
refuse_if false error = return tt
