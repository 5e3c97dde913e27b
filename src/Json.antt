-- ===== src/Json.antt =====
-- The JSON objects that the program builds, hashes and stores: `dict` with text keys, in insertion
-- order. `json.dumps`, `json.loads` and `hashlib.sha256` are services of the model.
use self_hosted_ci.Prelude.{
  suc, ℕ, String, Bool, true, false, ◌&&◌, Option, none, some, ◌==◌, if◌then◌else◌, nat_eq,
  string_eq, eq_iff, arith, ◌≡◌,
}

mutual
  pub data Json : Type 0 where
    null : Json
    bool : Bool → Json
    num : ℕ → Json
    text : String → Json
    arr : Items → Json
    obj : Fields → Json

  pub data Items : Type 0 where
    nil : Items
    cons : Json → Items → Items

  pub data Fields : Type 0 where
    end : Fields
    field : String → Json → Fields → Fields

-- `d.get(k)`
unfoldable pub get : String → Fields → Option Json
get k end = none
get k (field j v fs) = if j == k then some v else get k fs

-- `d[k] = v`
unfoldable pub put : String → Json → Fields → Fields
put k v end = field k v end
put k v (field j w fs) = if j == k then field j v fs else field j w (put k v fs)

-- `d | e`: the fields of `e` win
unfoldable pub merge : Fields → Fields → Fields
unfolding put
merge d end = d
merge d (field k v e) = merge (put k v d) e

-- `x is True`
abbrev pub is_true : Option Json → Bool
is_true (some (bool true)) = true
is_true _ = false

-- `x == t` for a text
abbrev pub is_text : Option Json → String → Bool
is_text (some (text s)) t = s == t
is_text _ t = false

-- `x == n` for an integer; Python's booleans are the integers 0 and 1
abbrev pub is_num : Option Json → ℕ → Bool
is_num (some (num m)) n = m == n
is_num (some (bool true)) n = 1 == n
is_num (some (bool false)) n = 0 == n
is_num _ n = false

-- `d.get(k)`, where a missing field and a null are one
abbrev pub or_null : Option Json → Json
or_null none = null
or_null (some v) = v

-- equality of a text with what another mapping holds
abbrev pub same_text : Option Json → Option Json → Bool
same_text (some (text s)) o = is_text o s
same_text _ o = false

-- `len(d)`
abbrev pub count : Fields → ℕ
count end = 0
count (field k v fs) = suc (count fs)

abbrev bool_num : Bool → ℕ
bool_num true = 1
bool_num false = 0

-- `==` of two values: a boolean is a number, and the order of an object's members does not matter
unfoldable mutual
  unfolding get

  pub same_json : Json → Json → Bool
  same_json null null = true
  same_json null _ = false
  same_json (bool b) w = is_num (some w) (bool_num b)
  same_json (num n) w = is_num (some w) n
  same_json (text s) w = is_text (some w) s
  same_json (arr xs) (arr ys) = same_items xs ys
  same_json (arr xs) _ = false
  same_json (obj fs) (obj gs) = count fs == count gs && has_fields fs gs
  same_json (obj fs) _ = false

  pub same_items : Items → Items → Bool
  same_items nil nil = true
  same_items (cons x xs) (cons y ys) = same_json x y && same_items xs ys
  same_items _ _ = false

  -- every member of the first object is one of the second
  pub has_fields : Fields → Fields → Bool
  has_fields end gs = true
  has_fields (field k v fs) gs =
      elim (get k gs) [ none ↦ false | some w ↦ same_json v w ] && has_fields fs gs

-- What equals a text is that text.
pub is_text-eq : (o : Option Json) (t : String) → is_text o t ≡ true → o ≡ some (text t)
is_text-eq none t h = absurd (ground arith)
is_text-eq (some null) t h = absurd (ground arith)
is_text-eq (some (bool b)) t h = absurd (ground arith)
is_text-eq (some (num n)) t h = absurd (ground arith)
is_text-eq (some (text s)) t h = ground (arith, eq_iff s t)
is_text-eq (some (arr xs)) t h = absurd (ground arith)
is_text-eq (some (obj fs)) t h = absurd (ground arith)
