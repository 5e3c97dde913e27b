-- ===== src/LocalApproval/Rows.antt =====
-- The tables of `LocalApprovalStore`, its statements, and its exceptions. An instant is its UTC time
-- in microseconds; the stamps of the tables are whole seconds.
use Prim.Native.Nat.{◌/◌, Ordering}
use Prim.Native.String.{compare as compare_text}
use self_hosted_ci.Prelude.{
  ℕ, ◌+◌, ◌*◌, String, Bool, true, false, ◌&&◌, ◌||◌, Option, none, some, List, [], ◌∷◌, ltb, ◌==◌,
  if◌then◌else◌, nat_eq, string_eq,
}
use self_hosted_ci.Json.{Fields}
use self_hosted_ci.Effects.{Outcome, Act}
use self_hosted_ci.GateStore.Rows.{Db}

pub data State : Type 0 where
  pending claimed completed failed revoked expired : State

abbrev pub is_pending : State → Bool
is_pending pending = true
is_pending _ = false

abbrev pub is_claimed : State → Bool
is_claimed claimed = true
is_claimed _ = false

abbrev pub is_completed : State → Bool
is_completed completed = true
is_completed _ = false

-- `state IN ('pending','claimed')`
abbrev pub is_active : State → Bool
is_active s = is_pending s || is_claimed s

-- `_stamp`, and `_parse` of a stamp
abbrev pub stamp : ℕ → ℕ
stamp t = t / 1000000

abbrev pub parse : ℕ → ℕ
parse s = s * 1000000

-- The text `repository:pr_number:head_sha`, kept as its three parts: a repository's name and a SHA hold
-- no colon, so the text determines them.
pub record ActiveKey : Type 0 where
  pub repository : String
  pub pr_number : ℕ
  pub head_sha : String

abbrev pub same_key : ActiveKey → ActiveKey → Bool
same_key a b =
    a.repository == b.repository && a.pr_number == b.pr_number && a.head_sha == b.head_sha

-- the table `approvals`
pub record ApprovalRow : Type 0 where
  pub request_id : String
  pub repository : String
  pub pr_number : ℕ
  pub head_sha : String
  pub head_generation : ℕ
  pub state : State
  pub request_json : String
  pub result_json : Option String
  pub reason : Option String
  pub created_at : ℕ
  pub expires_at : ℕ
  pub claim_until : Option ℕ
  pub active_key : Option ActiveKey
  pub durable : Bool

abbrev pub row_key : ApprovalRow → String
row_key r = r.request_id

-- the table `preflight_blocks`
pub record BlockRow : Type 0 where
  pub repository : String
  pub pr_number : ℕ
  pub head_sha : String
  pub reason : String
  pub created_at : ℕ

-- the table `discard_check_publications`
pub data Publication : Type 0 where
  pending created completed : Publication

pub record DiscardRow : Type 0 where
  pub scope : String
  pub check_name : String
  pub check_run_id : Option ℕ
  pub state : Publication

-- the database, the gate store beside it, and the attribute `current_request`
pub record Store : Type 0 where
  pub approvals : List ApprovalRow
  pub blocks : List BlockRow
  pub discards : List DiscardRow
  pub gates : Db
  pub current_request : Option Fields

-- `approval_error` is `LocalApprovalError`; `gate_error` comes from the gate store, `decode_error`
-- from `json.loads`, `other` from the resolver, the builder or a validator. `out_of_fuel` is none
-- of the program's.
pub data Failure : Type 0 where
  approval_error gate_error decode_error other out_of_fuel : Failure

abbrev pub Tx : Type 0 → Type 0
Tx A = Act Failure Store A

-- `UPDATE approvals SET … WHERE …`
unfoldable pub update_where :
    (ApprovalRow → Bool) → (ApprovalRow → ApprovalRow) → List ApprovalRow → List ApprovalRow
update_where test f [] = []
update_where test f (r ∷ rows) = (if test r then f r else r) ∷ update_where test f rows

-- the `rowcount` of such a statement
unfoldable pub matches : (ApprovalRow → Bool) → List ApprovalRow → ℕ
matches test [] = 0
matches test (r ∷ rows) = (if test r then 1 else 0) + matches test rows

unfoldable pub update_rows : (ApprovalRow → Bool) → (ApprovalRow → ApprovalRow) → Tx ℕ
update_rows test f s = (
  Outcome.ok (matches test s.approvals),
  record s { approvals = update_where test f s.approvals },
)

-- may `a` stand before `b` in `ORDER BY created_at,request_id`?
unfoldable pub precedes : ApprovalRow → ApprovalRow → Bool
precedes a b =
    ltb a.created_at b.created_at
    || a.created_at == b.created_at
      && elim (compare_text a.request_id b.request_id) [ Ordering.gt ↦ false | _ ↦ true ]

-- the first row that passes the test, in that order
unfoldable pub oldest : (ApprovalRow → Bool) → List ApprovalRow → Option ApprovalRow
oldest test [] = none
oldest test (r ∷ rows) =
    let rest = oldest test rows in
    if test r
    then elim rest [ none ↦ some r | some q ↦ some (if precedes r q then r else q) ]
    else rest

-- `… ORDER BY created_at DESC LIMIT 1`
unfoldable pub newest : (ApprovalRow → Bool) → List ApprovalRow → Option ApprovalRow
newest test [] = none
newest test (r ∷ rows) =
    let rest = newest test rows in
    if test r
    then elim rest [
      | none ↦ some r
      | some q ↦ some (if ltb r.created_at q.created_at then q else r)
    ]
    else rest
