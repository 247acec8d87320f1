-- ===== src/Contract/Exit.antt =====
-- crates/akua-core/src/cli_contract/exit.rs
use akua.Base.{
  ℕ, ◌≡◌, refl, ◌↔◌, Bool, true, false, Option, none, some, arith, ◌==◌, nat_eq, if◌then◌else◌,
}
use akua.Base.Numbers.{ℤ, pos, negsuc}
use akua.Base.Texts.{Text, codes}

pub data ExitCode : Type 0 where
  success user_error system_error policy_deny rate_limited needs_approval timeout : ExitCode

-- `self as i32`
unfoldable pub code : ExitCode → ℕ
code success = 0
code user_error = 1
code system_error = 2
code policy_deny = 3
code rate_limited = 4
code needs_approval = 5
code timeout = 6

unfoldable pub name : ExitCode → Text
name success = codes "success"
name user_error = codes "user-error"
name system_error = codes "system-error"
name policy_deny = codes "policy-deny"
name rate_limited = codes "rate-limited"
name needs_approval = codes "needs-approval"
name timeout = codes "timeout"

-- A raw `i32`.
unfoldable pub from_code : ℤ → Option ExitCode
from_code (negsuc _) = none
from_code (pos c) =
    if c == 0
    then some success
    else if c == 1
    then some user_error
    else if c == 2
    then some system_error
    else if c == 3
    then some policy_deny
    else if c == 4
    then some rate_limited
    else if c == 5
    then some needs_approval
    else if c == 6
    then some timeout
    else none

unfoldable pub is_failure : ExitCode → Bool
is_failure success = false
is_failure _ = true

unfoldable pub is_retriable : ExitCode → Bool
is_retriable rate_limited = true
is_retriable timeout = true
is_retriable _ = false

code-from_code : (c : ℤ) (e : ExitCode) → from_code c ≡ some e → pos (code e) ≡ c
unfolding from_code code
code-from_code (negsuc c) e h = cc
code-from_code (pos c) success h = ground arith
code-from_code (pos c) _ h = ground arith

from_code-code : (e : ExitCode) → from_code (pos (code e)) ≡ some e
unfolding from_code code
from_code-code success = refl
from_code-code _ = refl

-- A raw number is read as an exit code exactly where it is that code's number.
pub from_code_iff : (c : ℤ) (e : ExitCode) → (from_code c ≡ some e) ↔ (pos (code e) ≡ c)
from_code_iff c e = (code-from_code c e, λ h. rw (← h) (from_code-code e))

-- The names tell the codes apart.
pub name-injective : (d e : ExitCode) → name d ≡ name e → d ≡ e
unfolding name
name-injective success success h = refl
name-injective d e h = ground arith

-- The retriable codes are failures.
pub is_retriable-is_failure : (e : ExitCode) → is_retriable e ≡ true → is_failure e ≡ true
unfolding is_retriable is_failure
is_retriable-is_failure success = ground arith
is_retriable-is_failure _ = ground arith
