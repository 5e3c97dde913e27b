-- ===== src/LocalApproval/Discards.antt =====
-- The pre-flight blocks, the publications of discard checks, and `status`.
use self_hosted_ci.Prelude.{
  ℕ, String, Bool, true, false, not, ◌&&◌, ◌||◌, Option, none, some, List, [], ◌∷◌, ◌++◌, ltb,
  length, ◌==◌, if◌then◌else◌, is_some, exists, lookup, update, map, nat_eq, string_eq, pair_eq,
}
use self_hosted_ci.Texts.{codes, is_repository, is_sha}
use self_hosted_ci.Effects.{
  ◌>>=◌, ◌>>◌, pure, raise_if, raise_unless, or_raise, gets, modify, atomic,
}
use self_hosted_ci.LocalApproval.Rows.{
  State, failed, Publication, stamp, ApprovalRow, BlockRow, DiscardRow, Tx, approval_error,
}
use self_hosted_ci.LocalApproval.Requests.{World}

abbrev is_block_of : String → ℕ → String → BlockRow → Bool
is_block_of repository pr_number head_sha b =
    b.repository == repository && b.pr_number == pr_number && b.head_sha == head_sha

unfoldable pub has_preflight_block : String → ℕ → String → Tx Bool
has_preflight_block repository pr_number head_sha =
    gets λ s. exists (is_block_of repository pr_number head_sha) s.blocks

-- `INSERT OR IGNORE`: is the block new?
unfoldable pub record_preflight_block : World → String → ℕ → String → String → Tx Bool
record_preflight_block w repository pr_number head_sha reason = do
  raise_unless
      (is_repository repository && ltb 0 pr_number && is_sha head_sha && not (reason == ""))
      approval_error
  known ← gets λ s. exists (is_block_of repository pr_number head_sha) s.blocks
  if known then pure false else (do
    modify λ s. record s {
      blocks =
          record {
            repository = repository;
            pr_number = pr_number;
            head_sha = head_sha;
            reason = reason;
            created_at = stamp w.now;
          }
          ∷ s.blocks;
    }
    pure true)

abbrev pub discard_key : DiscardRow → String × String
discard_key r = (r.scope, r.check_name)

abbrev pub is_scope : String → Bool
is_scope scope = not (scope == "") && not (ltb 512 (length (codes scope)))

-- `_discard_identity`
unfoldable pub discard_identity : String → String → Tx (Unit {0})
discard_identity scope check_name =
    raise_unless
      (is_scope scope
        && (check_name == "backend lint + test" || check_name == "frontend lint + test"))
      approval_error

unfoldable pub begin_discard_check : String → String → Tx (Unit {0})
begin_discard_check scope check_name = do
  discard_identity scope check_name
  known ← gets λ s. lookup discard_key (scope, check_name) s.discards
  if is_some known
      then pure tt
      else modify λ s. record s {
        discards =
            record {
              scope = scope;
              check_name = check_name;
              check_run_id = none;
              state = Publication.pending;
            }
            ∷ s.discards;
      }

abbrev is_other_run : Option ℕ → ℕ → Bool
is_other_run none id = false
is_other_run (some known) id = not (known == id)

unfoldable pub record_discard_check : String → String → ℕ → Tx (Unit {0})
record_discard_check scope check_name check_run_id = do
  discard_identity scope check_name
  raise_if (ltb check_run_id 1) approval_error
  atomic (do
    row ← or_raise (← gets λ s. lookup discard_key (scope, check_name) s.discards) approval_error
    raise_if (is_other_run row.check_run_id check_run_id) approval_error
    modify λ s. record s {
      discards =
          update discard_key (scope, check_name)
            (λ r. record r { check_run_id = some check_run_id; state = Publication.created })
            s.discards;
    })

abbrev is_made : Publication → Bool
is_made Publication.pending = false
is_made Publication.created = true
is_made Publication.completed = true

-- the row that the UPDATE of `complete_discard_check` finds
abbrev is_completable : Option DiscardRow → Bool
is_completable none = false
is_completable (some r) = is_some r.check_run_id && is_made r.state

unfoldable pub complete_discard_check : String → String → Tx (Unit {0})
complete_discard_check scope check_name = do
  discard_identity scope check_name
  row ← gets λ s. lookup discard_key (scope, check_name) s.discards
  raise_unless (is_completable row) approval_error
  modify λ s. record s {
    discards =
        update discard_key (scope, check_name) (λ r. record r { state = Publication.completed })
          s.discards;
  }

pub record DiscardProgress : Type 0 where
  pub checks : List (String × ℕ)
  pub completed : List String

abbrev is_completed : Publication → Bool
is_completed Publication.completed = true
is_completed _ = false

abbrev progress_of : List DiscardRow → String → DiscardProgress
progress_of [] scope = record { checks = []; completed = [] }
progress_of (r ∷ rows) scope =
    let rest = progress_of rows scope in
    if r.scope == scope
    then record {
      checks = elim r.check_run_id [
        | none ↦ rest.checks
        | some id ↦ (r.check_name, id) ∷ rest.checks
      ];
      completed = if is_completed r.state then r.check_name ∷ rest.completed else rest.completed;
    }
    else rest

unfoldable pub discard_check_progress : String → Tx DiscardProgress
discard_check_progress scope = do
  raise_unless (is_scope scope) approval_error
  gets λ s. progress_of s.discards scope

-- a line of `status`; a block has the generation 0, and expires when it was made
pub record StatusLine : Type 0 where
  pub request_id : Option String
  pub repository : String
  pub pr_number : ℕ
  pub head_sha : String
  pub head_generation : ℕ
  pub state : State
  pub created_at : ℕ
  pub expires_at : ℕ
  pub reason : Option String

abbrev line_of_row : ApprovalRow → StatusLine
line_of_row r = record {
  request_id = some r.request_id;
  repository = r.repository;
  pr_number = r.pr_number;
  head_sha = r.head_sha;
  head_generation = r.head_generation;
  state = r.state;
  created_at = r.created_at;
  expires_at = r.expires_at;
  reason = r.reason;
}

-- the request's text of a block, `preflight:repository:pr_number:head_sha`, is left out
abbrev line_of_block : BlockRow → StatusLine
line_of_block b = record {
  request_id = none;
  repository = b.repository;
  pr_number = b.pr_number;
  head_sha = b.head_sha;
  head_generation = 0;
  state = failed;
  created_at = b.created_at;
  expires_at = b.created_at;
  reason = some b.reason;
}

abbrev text_fits : Option String → String → Bool
text_fits none t = true
text_fits (some s) t = t == s

abbrev number_fits : Option ℕ → ℕ → Bool
number_fits none n = true
number_fits (some m) n = n == m

-- `ORDER BY created_at DESC`
abbrev place_line : StatusLine → List StatusLine → List StatusLine
place_line a [] = a ∷ []
place_line a (b ∷ lines) =
    if ltb a.created_at b.created_at then b ∷ place_line a lines else a ∷ b ∷ lines

abbrev sort_lines : Option String → Option ℕ → List StatusLine → List StatusLine
sort_lines repository pr_number [] = []
sort_lines repository pr_number (a ∷ lines) =
    let rest = sort_lines repository pr_number lines in
    if text_fits repository a.repository && number_fits pr_number a.pr_number
    then place_line a rest
    else rest

unfoldable pub status : Option String → Option ℕ → Tx (List StatusLine)
status repository pr_number = gets λ s.
    sort_lines repository pr_number (map line_of_row s.approvals)
    ++ sort_lines repository pr_number (map line_of_block s.blocks)
