-- ===== src/Reports/Result.antt =====
-- `_canonical_result` and `build_execution_result` of src/devlegate/execution_result.py.
-- A claim, with a started process, a zero status and no error, concludes as it says; all else fails.
use devlegate.Prelude.{
  ℕ, zero, suc, ◌/◌, ◌%◌, ◌≤◌, ◌≡◌, refl, arith, inl, inr, Bool-cases, ltb, ◌==◌, String, Bool,
  true, false, ◌&&◌, Option, none, some, List, [], str_eq, Result, ok, err, ◌>>=◌, if◌then◌else◌,
  is_some,
}
use devlegate.Values.Int.{ℤ, pos, negsuc}
use devlegate.Reports.Claims.{Claim}
use devlegate.Reports.Errors.{ReportError, claim_with_error}
use Prim.Native.String

-- `WorkerRunResult`, less the fields that the report does not read.
pub record WorkerRun : Type 0 where
  pub process_returncode : ℤ
  pub transport_error : Option String
  pub claim : Option Claim
  pub egress_error : Option String
  pub process_started : Bool

pub record ExecutionResult : Type 0 where
  pub process_returncode : ℤ
  pub transport_error : Option String
  pub egress_error : Option String
  pub claim : Option Claim
  pub conclusion : String
  pub questions : List String
  pub remaining : List String
  pub reason : String
  pub process_started : Bool

infixr 5 ◌+++◌
abbrev pub ◌+++◌ : String → String → String
◌+++◌ s t = String.◌++◌ s t

digit : ℕ → String
digit n =
    if n == 0
    then "0"
    else if n == 1
    then "1"
    else if n == 2
    then "2"
    else if n == 3
    then "3"
    else if n == 4
    then "4"
    else if n == 5
    then "5"
    else if n == 6
    then "6"
    else if n == 7
    then "7"
    else if n == 8
    then "8"
    else "9"

-- The digits of a number; each round takes one, so the number itself is fuel enough.
digits : ℕ → ℕ → String
digits zero n = digit n
digits (suc fuel) n =
    let front = digits fuel (n / 10) in if ltb n 10 then digit n else front +++ digit (n % 10)

-- The fuel beyond the number changes nothing: the digits do not run out.
digits_enough : (f g n : ℕ) → n ≤ f → n ≤ g → digits f n ≡ digits g n
unfolding digits
digits_enough zero zero n h k = refl
digits_enough zero (suc g) n h k = elim (Bool-cases (ltb n 10)) [
  | inl e ↦ rw e refl
  | inr e ↦ absurd (ground arith)
]
digits_enough (suc f) zero n h k = elim (Bool-cases (ltb n 10)) [
  | inl e ↦ rw e refl
  | inr e ↦ absurd (ground arith)
]
digits_enough (suc f) (suc g) n h k = elim (Bool-cases (ltb n 10)) [
  | inl e ↦ rw e refl
  | inr e ↦ rw (digits_enough f g (n / 10) (ground arith) (ground arith)) refl
]

-- `str(n)`
unfoldable pub decimal : ℕ → String
unfolding digits digit
decimal n = digits n n

-- `text or other`
abbrev or_text : Option String → String → String
or_text none other = other
or_text (some s) other = if str_eq s "" then other else s

abbrev pub claim_questions : Option Claim → List String
claim_questions none = []
claim_questions (some c) = c.questions

abbrev pub claim_remaining : Option Claim → List String
claim_remaining none = []
claim_remaining (some c) = c.remaining

-- `signal.Signals(number).name`, and nothing where that raises `ValueError`, is `signal_name`: the
-- names are the platform's.
module _ (signal_name : ℕ → Option String) where
  abbrev name_of : ℕ → String
  name_of n = elim (signal_name n) [ none ↦ "UNKNOWN" | some name ↦ name ]

  -- The branches of `_canonical_result` behind the check of the claim.
  unfoldable pub verdict : ℤ → Option String → Option String → Option Claim → Bool → String × String
  unfolding decimal
  verdict code transport egress claim false =
      ("failed", "worker launch failed: " +++ or_text transport "unknown error")
  verdict (negsuc n) transport egress claim true = (
    "failed",
    "worker terminated by signal " +++ decimal (suc n) +++ " (" +++ name_of (suc n) +++ ")",
  )
  verdict (pos (suc n)) transport egress claim true =
      ("failed", "worker exited with status " +++ decimal (suc n))
  verdict (pos zero) (some error) egress claim true = ("failed", error)
  verdict (pos zero) none (some error) claim true =
      ("failed", or_text (some error) "worker claim is unavailable")
  verdict (pos zero) none none none true = ("failed", "worker claim is unavailable")
  verdict (pos zero) none none (some claim) true = (claim.outcome, "valid worker claim")

  unfoldable pub canonical_result :
      ℤ → Option String → Option String → Option Claim → Bool → Result ReportError (String × String)
  unfolding verdict
  canonical_result code transport egress claim started =
      if is_some claim && is_some egress
      then err claim_with_error
      else ok (verdict code transport egress claim started)

  unfoldable pub build_execution_result : WorkerRun → Result ReportError ExecutionResult
  unfolding canonical_result
  build_execution_result run = do
    (conclusion, reason) ←
        canonical_result run.process_returncode run.transport_error run.egress_error run.claim
          run.process_started
    ok (record {
      process_returncode = run.process_returncode;
      transport_error = run.transport_error;
      egress_error = run.egress_error;
      claim = run.claim;
      conclusion = conclusion;
      questions = claim_questions run.claim;
      remaining = claim_remaining run.claim;
      reason = reason;
      process_started = run.process_started;
    })
