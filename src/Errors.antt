-- ===== src/Errors.antt =====
-- backend/app/core/errors.py: the business errors, and the codes that the services give them. A
-- code carries the values that its message shows; the Indonesian text of a message is left out.
pub mod Chain
use hrus.Base.{ℕ}
use hrus.Base.Int.{ℤ}
use hrus.Calendar.{Date}

pub data Code : Type 0 where
  -- rules/leave.py
  invalid_date_range cross_year range_too_long no_working_days start_in_past : Code
  insufficient_notice exceeds_max_days : ℕ → Code
  insufficient_balance : ℤ → ℕ → Code
  employee_not_active overlapping_request cannot_cancel request_not_pending : Code
  -- services/leave_requests.py and services/leave_balances.py
  leave_type_code_taken leave_policy_exists holiday_exists : Code
  leave_type_inactive no_employee_profile not_current_approver cannot_decide_own_request : Code
  cannot_cancel_others leave_type_without_balance : Code
  balance_negative : ℤ → Code
  -- rules/core_hr.py and services/org_units.py
  hire_only_on_create effdt_before_hire : Code
  effdt_out_of_sequence : Date → Code
  rehire_requires_termination employee_terminated own_supervisor org_unit_cycle : Code
  org_unit_invalid employee_invalid org_unit_code_taken org_unit_has_active_children : Code
  employee_number_taken work_email_taken : Code
  -- services/jobs.py
  dry_run_not_supported invalid_job_params job_already_running job_not_active : Code
  job_not_retryable : Code
  -- reports
  report_no_columns report_duplicate_column report_unknown_column : Code
  report_invalid_operator report_invalid_value report_invalid_aggregate report_invalid_sort : Code
  report_timeout report_too_large report_template_invalid report_template_name_taken : Code
  -- services/ai_settings.py and entitlement
  ai_secret_not_configured ai_base_url_not_allowed ai_model_required ai_no_api_key : Code
  ai_consent_required ai_key_not_verified ai_key_unreadable ai_disabled : Code
  ai_setting_changed ai_limit_reached feature_not_enabled : Code
  -- jobs/leave.py
  as_of_in_future : Code

-- `unexpected` stands for an exception that is no business error, such as that of `one()` on an
-- empty result; it rolls the transaction back as the others do.
pub data AppError : Type 0 where
  not_found unexpected : AppError
  forbidden conflict rule_violation : Code → AppError

pub data Result (A : Type 0) : Type 0 where
  ok : A → Result A
  err : AppError → Result A
