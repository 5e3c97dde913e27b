-- ===== src/Allocation/Formats.antt =====
-- The regular expressions of runner_jit.py, over the code points of a text, and the stamps of the
-- ledger.
use Prim.Native.Nat.{◌%◌}
use Prim.Native.String.{◌++◌ as ◌+++◌}
use self_hosted_ci.Prelude.{
  ℕ, zero, suc, String, Bool, false, not, ◌&&◌, ◌||◌, Option, none, some, List, [], ◌∷◌, length,
  ltb, leb, ◌==◌, if◌then◌else◌, nat_eq,
}
use self_hosted_ci.Texts.{codes, all, is_digit, is_hex_digit, is_letter, is_name_code, is_space}

-- the codes before and after the first one that passes the test
abbrev before : (ℕ → Bool) → List ℕ → List ℕ
before p [] = []
before p (c ∷ cs) = if p c then [] else c ∷ before p cs

abbrev after : (ℕ → Bool) → List ℕ → List ℕ
after p [] = []
after p (c ∷ cs) = if p c then cs else after p cs

abbrev pub strip_prefix : List ℕ → List ℕ → Option (List ℕ)
strip_prefix [] cs = some cs
strip_prefix (p ∷ ps) [] = none
strip_prefix (p ∷ ps) (c ∷ cs) = if p == c then strip_prefix ps cs else none

abbrev is_name : List ℕ → Bool
is_name cs = ltb 0 (length cs) && all is_name_code cs

abbrev is_branch : List ℕ → Bool
is_branch cs = ltb 0 (length cs) && all (λ c. is_name_code c || c == b'/') cs

abbrev is_slash : ℕ → Bool
is_slash c = c == b'/'

abbrev is_at : ℕ → Bool
is_at c = c == b'@'

-- what stands after `…/.github/workflows/`
abbrev is_workflow : List ℕ → Bool
is_workflow cs =
    is_name (before is_at cs) && elim (strip_prefix (codes "refs/heads/") (after is_at cs)) [
      | none ↦ false
      | some branch ↦ is_branch branch
    ]

-- `_WORKFLOW_REF`: no name holds a `/` or an `@`
unfoldable pub is_workflow_ref : String → Bool
is_workflow_ref s =
    is_name (before is_slash (codes s))
    && is_name (before is_slash (after is_slash (codes s)))
    && elim (strip_prefix (codes ".github/workflows/")
        (after is_slash (after is_slash (codes s)))) [ none ↦ false | some rest ↦ is_workflow rest ]

-- `_NONCE`
unfoldable pub is_nonce : String → Bool
is_nonce s =
    length (codes s) == 43
    && all (λ c. is_letter c || is_digit c || c == b'_' || c == b'-') (codes s)

-- `_TRANSIENT_LABEL`
unfoldable pub is_transient_label : String → Bool
is_transient_label s = elim (strip_prefix (codes "wsl-jit-") (codes s)) [
  | none ↦ false
  | some cs ↦ length cs == 32 && all is_hex_digit cs
]

-- `_LABEL`
unfoldable pub is_label : String → Bool
is_label s = is_name (codes s) && leb (length (codes s)) 63

abbrev first_is : (ℕ → Bool) → List ℕ → Bool
first_is p [] = false
first_is p (c ∷ cs) = p c

abbrev last_is : (ℕ → Bool) → List ℕ → Bool
last_is p [] = false
last_is p (c ∷ cs) = elim cs [ [] ↦ p c | d ∷ ds ↦ last_is p cs ]

-- `s == s.strip()`
abbrev is_stripped : List ℕ → Bool
is_stripped cs = not (first_is is_space cs) && not (last_is is_space cs)

-- `_JOB_NAME`, stripped
unfoldable pub is_job_name : String → Bool
is_job_name s =
    is_stripped (codes s)
    && ltb 0 (length (codes s))
    && leb (length (codes s)) 100
    && all (λ c. is_name_code c || c == b' ') (codes s)

-- `_RUNNER_GROUP`, stripped
unfoldable pub is_runner_group : String → Bool
is_runner_group s =
    is_stripped (codes s)
    && ltb 0 (length (codes s))
    && leb (length (codes s)) 100
    && all (λ c. not (c == b'*' || c == 13 || c == 10)) (codes s)

-- `s[:n]`
unfoldable pub take_text : ℕ → String → String
take_text zero s = ""
take_text (suc n) (String.[]) = ""
take_text (suc n) (String.◌∷◌ c s) = String.◌∷◌ c (take_text n s)

-- a text that ends with `Z`, without it
unfoldable pub without_z : String → Option String
without_z (String.[]) = none
without_z (String.◌∷◌ c s) =
    let rest = without_z s in
    elim (codes (String.◌∷◌ c s)) [
      | [] ↦ none
      | d ∷ [] ↦ if d == b'Z' then some "" else none
      | d ∷ ds ↦ elim rest [ none ↦ none | some t ↦ some (String.◌∷◌ c t) ]
    ]

-- an instant of whole seconds
abbrev pub whole_second : Option ℕ → Option ℕ
whole_second none = none
whole_second (some t) = if t % 1000000 == 0 then some t else none

-- `_parse_time` of a text, where `from_isoformat` is `datetime.fromisoformat`
unfoldable pub parse_time : (String → Option ℕ) → String → Option ℕ
parse_time from_isoformat s = elim (without_z s) [
  | none ↦ none
  | some t ↦ whole_second (from_isoformat (t +++ "+00:00"))
]
