-- ===== src/Reports/Catalog.antt =====
-- backend/app/reports/catalog.py: the datasets with their columns.
use hrus.Base.{Option, none, some, List, [], ◌∷◌, ◌++◌, String}
use hrus.Reports.{ColumnType, ColumnDef, Dataset}

abbrev pub plain : String → ColumnType → ColumnDef
plain key type = record { key = key; type = type; enum_values = [] }

abbrev choice : String → List String → ColumnDef
choice key values = record { key = key; type = ColumnType.enum; enum_values = values }

abbrev employee_status : List String
employee_status = "active" ∷ "terminated" ∷ "pre_hire" ∷ []

abbrev employment_types : List String
employment_types = "permanent" ∷ "contract" ∷ "intern" ∷ "daily" ∷ []

abbrev leave_status : List String
leave_status = "pending" ∷ "approved" ∷ "rejected" ∷ "cancelled" ∷ []

abbrev status_column : Option String → List ColumnDef
status_column none = []
status_column (some key) = choice key employee_status ∷ []

-- `_employee_columns`
abbrev pub employee_columns : Option String → List ColumnDef
employee_columns status_key =
    plain "employee_number" ColumnType.text
    ∷ plain "full_name" ColumnType.text
    ∷ plain "org_unit_code" ColumnType.text
    ∷ plain "org_unit_name" ColumnType.text
    ∷ status_column status_key

abbrev pub employees : Dataset
employees = record {
  key = "employees";
  view = "v_employee";
  columns =
      employee_columns (some "status")
      ++ plain "work_email" ColumnType.text
        ∷ plain "hire_date" ColumnType.date
        ∷ plain "service_months" ColumnType.number
        ∷ plain "job_title" ColumnType.text
        ∷ plain "grade" ColumnType.text
        ∷ choice "employment_type" employment_types
        ∷ plain "supervisor_number" ColumnType.text
        ∷ plain "supervisor_name" ColumnType.text
        ∷ plain "job_effective_date" ColumnType.date
        ∷ [];
  default_period_column = none;
}

abbrev pub org_units : Dataset
org_units = record {
  key = "org_units";
  view = "v_org_unit";
  columns =
      plain "code" ColumnType.text
      ∷ plain "name" ColumnType.text
      ∷ plain "is_active" ColumnType.boolean
      ∷ plain "parent_code" ColumnType.text
      ∷ plain "parent_name" ColumnType.text
      ∷ plain "manager_number" ColumnType.text
      ∷ plain "manager_name" ColumnType.text
      ∷ plain "active_headcount" ColumnType.number
      ∷ [];
  default_period_column = none;
}

abbrev pub leave_balances : Dataset
leave_balances = record {
  key = "leave_balances";
  view = "v_leave_balance";
  columns =
      employee_columns (some "employee_status")
      ++ plain "year" ColumnType.number
        ∷ plain "leave_type_code" ColumnType.text
        ∷ plain "leave_type_name" ColumnType.text
        ∷ plain "entitled" ColumnType.number
        ∷ plain "carried_over" ColumnType.number
        ∷ plain "adjusted" ColumnType.number
        ∷ plain "used" ColumnType.number
        ∷ plain "pending" ColumnType.number
        ∷ plain "expired" ColumnType.number
        ∷ plain "available" ColumnType.number
        ∷ plain "carry_over_expires_on" ColumnType.date
        ∷ [];
  default_period_column = none;
}

abbrev pub leave_requests : Dataset
leave_requests = record {
  key = "leave_requests";
  view = "v_leave_request";
  columns =
      employee_columns none
      ++ plain "leave_type_code" ColumnType.text
        ∷ plain "leave_type_name" ColumnType.text
        ∷ plain "start_date" ColumnType.date
        ∷ plain "end_date" ColumnType.date
        ∷ plain "days" ColumnType.number
        ∷ choice "status" leave_status
        ∷ plain "reason" ColumnType.text
        ∷ plain "created_at" ColumnType.datetime
        ∷ plain "decided_at" ColumnType.datetime
        ∷ plain "cancelled_at" ColumnType.datetime
        ∷ [];
  default_period_column = some "start_date";
}

abbrev pub datasets : List Dataset
datasets = employees ∷ org_units ∷ leave_balances ∷ leave_requests ∷ []
