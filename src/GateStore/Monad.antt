-- ===== src/GateStore/Monad.antt =====
-- Transactions: state and exceptions. `_transaction` commits, or rolls back and raises again.
use self_hosted_ci.Prelude.{ℕ, String, Bool, Option, none, some, if◌then◌else◌}
use self_hosted_ci.Json.{Fields}
use self_hosted_ci.GateStore.Rows.{Db}

-- `integrity` is `sqlite3.IntegrityError`; `type_error` is a subscript of `None`; `injected` is
-- what the fault hook raises.
pub data Error : Type 0 where
  conflict fenced replay control_failure late_evidence value_error : Error
  integrity type_error injected : Error

pub data Result (A : Type 0) : Type 0 where
  ok : A → Result A
  err : Error → Result A

pub data Stage : Type 0 where
  after_admission_insert after_marker_insert after_winner after_terminal after_outbox : Stage

-- What the store is given: the JSON codec (`json.dumps` with sorted keys, `json.loads`), SHA-256 as
-- hexadecimal text, the texts of a number and of an instant, and the hook that may raise.
pub record Services : Type 0 where
  pub dumps : Fields → String
  pub loads : String → Option Fields
  pub sha256 : String → String
  pub decimal : ℕ → String
  pub isoformat : ℕ → String
  pub raises : Stage → Bool

abbrev pub Tx : Type 0 → Type 0
Tx A = Db → Result A × Db

module _ {A : Type 0} where
  abbrev pub pure : A → Tx A
  pure a db = (ok a, db)

  abbrev pub raise : Error → Tx A
  raise e db = (err e, db)

  abbrev pub gets : (Db → A) → Tx A
  gets f db = (ok (f db), db)

  abbrev pub or_raise : Option A → Error → Tx A
  or_raise none e = raise e
  or_raise (some a) e = pure a

infixl 5 ◌>>=◌ ◌>>◌
abbrev pub ◌>>=◌ : {A B : Type 0} → Tx A → (A → Tx B) → Tx B
◌>>=◌ m f db = let (r, db') = m db in elim r [ ok a ↦ f a db' | err e ↦ raise e db' ]

abbrev pub ◌>>◌ : {A B : Type 0} → Tx A → Tx B → Tx B
m >> k = m >>= λ _. k

abbrev pub raise_if : Bool → Error → Tx (Unit {0})
raise_if c e db = (if c then err e else ok tt, db)

abbrev pub raise_unless : Bool → Error → Tx (Unit {0})
raise_unless c e db = (if c then ok tt else err e, db)

abbrev pub modify : (Db → Db) → Tx (Unit {0})
modify f db = (ok tt, f db)

-- `GateStore._transaction`
unfoldable pub transaction : {A : Type 0} → Tx A → Tx A
transaction m db = let (r, db') = m db in elim r [ ok a ↦ (ok a, db') | err e ↦ (err e, db) ]

-- `GateStore._fault`
unfoldable pub fault : Services → Stage → Tx (Unit {0})
fault env stage = raise_if (env.raises stage) injected
