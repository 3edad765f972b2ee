-- ===== src/Payments/Zercle.antt =====
-- The check of a transfer slip: `ZercleSlipService.verify` of
-- apps/api/src/payments/zercle-slip/zercle-slip.service.ts. What the storage and the outside service
-- answer, and the environment, are arguments; a field that is absent, empty or no date is `none`, and so
-- is an amount that is not a whole number of baht.
pub mod Genuine
use pee_rahat.Prelude.{
  ℕ, ◌*◌, ◌-◌, Bool, true, false, not, ltb, ◌==◌, ◌&&◌, is_some, or_default, if◌then◌else◌, Option,
  none, some, Text, text_eq, is_empty, find_first,
}
use pee_rahat.Store.{PaymentIntent, Db}
use pee_rahat.Calendar.{hour_ms}

pub record SlipResponse : Type 0 where
  pub success : Bool
  pub amount : Option ℕ
  pub recipient_account : Option Text
  pub transfer_date : Option ℕ
  pub transaction_id : Option ℕ
  pub failure_reason : Option ℕ

-- `fetchSlipAsBase64` and `callApi`: either may throw.
pub data Answer : Type 0 where
  unreadable no_answer : Answer
  answered : SlipResponse → Answer

pub record Zercle : Type 0 where
  pub enabled : Bool
  pub platform_account : Text
  pub answer : ℕ → Answer

-- Why a slip was refused; `reported` has the reason that the outside service gives.
pub data SlipFailure : Type 0 where
  disabled not_readable request_failed not_successful amount_mismatch : SlipFailure
  recipient_mismatch no_transaction_id stale duplicate : SlipFailure
  reported : ℕ → SlipFailure

pub data Verdict : Type 0 where
  accepted : ℕ → ℕ → Verdict
  refused : SlipFailure → Verdict

abbrev is_other_account : Text → Option Text → Bool
is_other_account platform none = false
is_other_account platform (some account) = not (is_empty platform) && not (text_eq account platform)

-- A date in the future has the age 0 here and a negative one in the source; neither is stale.
abbrev is_stale : ℕ → Option ℕ → Bool
is_stale now none = false
is_stale now (some transferred_at) = ltb (24 * hour_ms) (now - transferred_at)

abbrev is_amount : Option ℕ → ℕ → Bool
is_amount none expected = false
is_amount (some amount) expected = amount == expected

abbrev pub has_transaction : ℕ → PaymentIntent → Bool
has_transaction t i = elim i.transaction_id [ none ↦ false | some u ↦ u == t ]

abbrev pub was_seen : Db → ℕ → Bool
was_seen db t = is_some (find_first (λ _ i. has_transaction t i) db.intents)

abbrev check_transaction : Db → ℕ → Bool → ℕ → Verdict
check_transaction db t is_old expected =
    if is_old
    then refused stale
    else if was_seen db t
    then refused duplicate
    else accepted t expected

abbrev check_response : Zercle → ℕ → ℕ → Db → SlipResponse → Verdict
check_response zercle now expected db r =
    if not r.success
    then refused (elim r.failure_reason [ none ↦ not_successful | some x ↦ reported x ])
    else if not (is_amount r.amount expected)
    then refused amount_mismatch
    else if is_other_account zercle.platform_account r.recipient_account
    then refused recipient_mismatch
    else elim r.transaction_id [
      | none ↦ refused no_transaction_id
      | some t ↦ check_transaction db t (is_stale now r.transfer_date) expected
    ]

abbrev check_answer : Zercle → ℕ → ℕ → Db → Answer → Verdict
check_answer zercle now expected db unreadable = refused not_readable
check_answer zercle now expected db no_answer = refused request_failed
check_answer zercle now expected db (answered r) = check_response zercle now expected db r

unfoldable pub verify : Zercle → ℕ → ℕ → ℕ → Db → Verdict
verify zercle now slip_key expected db =
    if not zercle.enabled
    then refused disabled
    else check_answer zercle now expected db (zercle.answer slip_key)
