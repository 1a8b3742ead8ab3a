-- ===== src/Batch.antt =====
-- The client of batches, `BatchAPIClient` of src/magsag/optimization/batch.py. The OpenAI client, the
-- files, the clock and JSON are the parameter `Outside` with a state of its own, and an exception of
-- it is `outside_error`. A text is the codes of its characters.
pub mod Loop
pub mod Waiting
use agdd.Prelude.{
  ℕ, zero, suc, ◌-◌, String, Bool, true, false, not, ◌&&◌, Option, none, some, List, [], ◌∷◌, ◌++◌,
  ltb, ◌==◌, length, str_eq, if◌then◌else◌, get_or,
}
use agdd.Result.{Result, ok, raise, ◌>>=◌}
use agdd.Value.{pos, Value, Fields, null, int, str, dict, end, field}
use agdd.Value.Equality.{get_field}
use agdd.Worktree.Names.{is_space, strip}

pub data BatchEndpoint : Type 0 where
  chat_completions responses : BatchEndpoint

unfoldable pub endpoint_text : BatchEndpoint → String
endpoint_text chat_completions = "/v1/chat/completions"
endpoint_text responses = "/v1/responses"

pub data BatchStatus : Type 0 where
  validating failed in_progress finalizing completed expired cancelling cancelled : BatchStatus

pub data BatchError : Type 0 where
  -- ValueError, RuntimeError, TimeoutError and KeyError.
  too_large not_completed no_output unknown_status not_a_result : BatchError
  ended : BatchStatus → BatchError
  timed_out : BatchError
  outside_error : BatchError

pub record BatchRequest : Type 0 where
  pub custom_id : String
  pub url : BatchEndpoint
  pub body : Fields

pub record BatchResponse : Type 0 where
  pub custom_id : Value
  pub response : Value
  pub error : Option Value

-- The answer of the service about a batch.
pub record BatchAnswer : Type 0 where
  pub id : String
  pub status : String
  pub endpoint : String
  pub created_at : ℕ
  pub completed_at : Option ℕ
  pub failed_at : Option ℕ
  pub expires_at : Option ℕ
  pub request_counts : Option (ℕ × (ℕ × ℕ))
  pub metadata : Option Fields
  pub output_file_id : Option String

pub record BatchJob : Type 0 where
  pub id : String
  pub status : BatchStatus
  pub endpoint : String
  pub created_at : ℕ
  pub completed_at : Option ℕ
  pub failed_at : Option ℕ
  pub expires_at : Option ℕ
  pub request_counts : Fields
  pub metadata : Fields

abbrev pub Answer : Type 0 → Type 0 → Type 0
Answer S A = S × Result BatchError A

pub record Outside (S : Type 0) : Type 0 where
  pub dumps : Value → Result BatchError (List ℕ)
  pub loads : List ℕ → Result BatchError Value
  pub time : S → ℕ
  pub sleep : ℕ → S → S
  pub default_path : ℕ → String
  pub write_file : String → List ℕ → S → Answer S (Unit {0})
  -- files.create on the file at a path, and files.content.
  pub upload : String → S → Answer S String
  pub content : String → S → Answer S (List ℕ)
  -- batches.create with the file, the endpoint and the metadata, batches.retrieve and batches.cancel.
  pub create : String → String → Option Fields → S → Answer S BatchAnswer
  pub retrieve : String → S → Answer S BatchAnswer
  pub cancel : String → S → Answer S BatchAnswer

-- `BatchStatus(text)`
unfoldable pub status_of : String → Result BatchError BatchStatus
status_of t =
    if str_eq t "validating"
    then ok validating
    else if str_eq t "failed"
    then ok failed
    else if str_eq t "in_progress"
    then ok in_progress
    else if str_eq t "finalizing"
    then ok finalizing
    else if str_eq t "completed"
    then ok completed
    else if str_eq t "expired"
    then ok expired
    else if str_eq t "cancelling"
    then ok cancelling
    else if str_eq t "cancelled"
    then ok cancelled
    else raise unknown_status

abbrev counts_of : Option (ℕ × (ℕ × ℕ)) → Fields
counts_of none = end
counts_of (some (total, (done, bad))) =
    field "total" (int (pos total))
      (field "completed" (int (pos done)) (field "failed" (int (pos bad)) end))

unfoldable pub job_of : BatchAnswer → Result BatchError BatchJob
job_of a = status_of a.status >>= λ status. ok (record {
  id = a.id;
  status = status;
  endpoint = a.endpoint;
  created_at = a.created_at;
  completed_at = a.completed_at;
  failed_at = a.failed_at;
  expires_at = a.expires_at;
  request_counts = counts_of a.request_counts;
  metadata = get_or a.metadata end;
})

-- The next step, unless this one raised.
abbrev pub next : {S A B : Type 0} → Answer S A → (A → S → Answer S B) → Answer S B
next (s, raise error) f = (s, raise error)
next (s, ok a) f = f a s

abbrev pub max_batch_size : ℕ
max_batch_size = 50000

-- `text.split("\n")`
unfoldable pub split_lines : List ℕ → List (List ℕ)
split_lines [] = [] ∷ []
split_lines (d ∷ s) =
    let rest = split_lines s in
    if d == 10 then [] ∷ rest else elim rest [ [] ↦ (d ∷ []) ∷ [] | w ∷ ws ↦ (d ∷ w) ∷ ws ]

-- `if metadata`
abbrev given_metadata : Option Fields → Option Fields
given_metadata (some (field k v fs)) = some (field k v fs)
given_metadata _ = none

module _ {S : Type 0} (w : Outside S) where
  unfoldable pub to_jsonl : BatchRequest → Result BatchError (List ℕ)
  unfolding endpoint_text
  to_jsonl r = w.dumps (
      dict (
        field "custom_id" (str r.custom_id) (
          field "method" (str "POST")
            (field "url" (str (endpoint_text r.url)) (field "body" (dict r.body) end)))))

  unfoldable pub batch_text : List BatchRequest → Result BatchError (List ℕ)
  unfolding to_jsonl
  batch_text [] = ok []
  batch_text (r ∷ requests) =
      to_jsonl r >>= λ line. batch_text requests >>= λ rest. ok (line ++ (10 ∷ rest))

  -- The file is written at once here; where a request has no JSON, an exception ends the call.
  unfoldable pub create_batch_file : List BatchRequest → Option String → S → Answer S String
  create_batch_file requests output_path s =
      let path = get_or output_path (w.default_path (w.time s)) in
      if ltb max_batch_size (length requests)
      then (s, raise too_large)
      else next (s, batch_text requests)
          (λ text s1. next (w.write_file path text s1) (λ _ s2. (s2, ok path)))

  unfoldable pub create_batch : String → BatchEndpoint → Option Fields → S → Answer S BatchJob
  unfolding job_of endpoint_text
  create_batch input_file_id endpoint metadata s =
      next (w.create input_file_id (endpoint_text endpoint) (given_metadata metadata) s)
        (λ a s1. (s1, job_of a))

  unfoldable pub get_batch_status : String → S → Answer S BatchJob
  get_batch_status batch_id s = next (w.retrieve batch_id s) (λ a s1. (s1, job_of a))

  unfoldable pub cancel_batch : String → S → Answer S BatchJob
  cancel_batch batch_id s = next (w.cancel batch_id s) (λ a s1. (s1, job_of a))

  abbrev pub is_completed : BatchStatus → Bool
  is_completed completed = true
  is_completed _ = false

  abbrev result_of : Value → Result BatchError BatchResponse
  result_of (dict fs) = elim (get_field "custom_id" fs) [
    | none ↦ raise not_a_result
    | some id ↦ ok (record {
      custom_id = id;
      response = get_or (get_field "response" fs) (dict end);
      error = get_field "error" fs;
    })
  ]
  result_of _ = raise not_a_result

  -- Empty lines are left out.
  unfoldable pub results_of : List (List ℕ) → Result BatchError (List BatchResponse)
  unfolding get_field
  results_of [] = ok []
  results_of ([] ∷ lines) = results_of lines
  results_of ((d ∷ l) ∷ lines) =
      w.loads (d ∷ l) >>= result_of >>= λ r. results_of lines >>= λ rest. ok (r ∷ rest)

  -- `if output_path: … write`
  abbrev save : Option String → List ℕ → S → Answer S (Unit {0})
  save none text s = (s, ok tt)
  save (some path) text s = w.write_file path text s

  abbrev output_of : BatchAnswer → Result BatchError String
  output_of a = elim a.output_file_id [
    | none ↦ raise no_output
    | some id ↦ if str_eq id "" then raise no_output else ok id
  ]

  unfoldable pub download_results : String → Option String → S → Answer S (List BatchResponse)
  unfolding results_of split_lines strip is_space
  download_results batch_id output_path s = next (get_batch_status batch_id s) (λ batch s1.
      if not (is_completed batch.status)
      then (s1, raise not_completed)
      else next (w.retrieve batch_id s1) (λ details s2.
        next (s2, output_of details)
          (λ id s3. next (w.content id s3) (λ text s4.
            next (save output_path text s4)
              (λ _ s5. (s5, results_of (split_lines (strip is_space text))))))))
