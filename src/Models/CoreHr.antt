-- ===== src/Models/CoreHr.antt =====
-- backend/app/models/core_hr.py: organisation units, employees and their job history.
use hrus.Base.{ℕ, Bool, true, false, Option, String}
use hrus.Calendar.{Date}

pub data JobAction : Type 0 where
  hire rehire transfer promotion data_change termination : JobAction

pub data EmploymentStatus : Type 0 where
  active terminated : EmploymentStatus

pub data EmploymentType : Type 0 where
  permanent contract intern daily : EmploymentType

pub record OrgUnit : Type 0 where
  pub id : ℕ
  pub tenant_id : ℕ
  pub code : String
  pub name : String
  pub parent_id : Option ℕ
  pub manager_employee_id : Option ℕ
  pub is_active : Bool

pub record Employee : Type 0 where
  pub id : ℕ
  pub tenant_id : ℕ
  pub employee_number : String
  pub full_name : String
  pub work_email : Option String
  pub hire_date : Date

pub record EmployeeJob : Type 0 where
  pub id : ℕ
  pub tenant_id : ℕ
  pub employee_id : ℕ
  pub effdt : Date
  pub effseq : ℕ
  pub action : JobAction
  pub reason : Option String
  pub job_title : String
  pub grade : String
  pub org_unit_id : ℕ
  pub supervisor_employee_id : Option ℕ
  pub employment_type : EmploymentType
  pub employment_status : EmploymentStatus

abbrev pub is_active_status : EmploymentStatus → Bool
is_active_status active = true
is_active_status terminated = false
