-- ===== src/Staff/Printers.antt =====
-- backend/src/admin.controller.ts: the printer settings, one row a tenant, and the two lists, of the
-- employees and of the audit log, whose order is a parameter.
use comandas_multitenant_off.Prelude.{
  ℕ, zero, suc, ◌≡◌, String, Bool, Option, none, some, List, [], ◌∷◌, ◌==◌, arith, true, ◌||◌, inl,
  inr, Option-cases, if◌then◌else◌,
}
use comandas_multitenant_off.Prelude.Dict.{Dict, get, put, get-put_self, put-put}
use comandas_multitenant_off.Prelude.Lists.{keep}
use comandas_multitenant_off.Http.{ok, Exec}
use comandas_multitenant_off.Store.{State, AuditEntry}
use comandas_multitenant_off.Guards.{Membership}
use comandas_multitenant_off.Sessions.{User}
use comandas_multitenant_off.Catalog.{or_same}
use comandas_multitenant_off.Staff.{Team, Employee}

pub data Protocol : Type 0 where
  system_spooler esc_pos_bluetooth : Protocol

pub record PrinterSetting : Type 0 where
  pub paper_width : ℕ
  pub printer_name : Option String
  pub protocol : Protocol

pub record UpdatePrinterSettingDto : Type 0 where
  pub paper_width : Option ℕ
  pub printer_name : Option String
  pub protocol : Option Protocol

-- `@IsOptional() @IsIn([58, 80]) paper_width`
unfoldable pub is_valid_printer : UpdatePrinterSettingDto → Bool
is_valid_printer body = elim body.paper_width [ none ↦ true | some w ↦ (w == 58) || (w == 80) ]

-- A row that holds the defaults of the schema.
abbrev pub default_printer : PrinterSetting
default_printer = record { paper_width = 80; printer_name = none; protocol = system_spooler }

unfoldable pub change_printer : UpdatePrinterSettingDto → PrinterSetting → PrinterSetting
change_printer body p = record {
  paper_width = or_same body.paper_width p.paper_width;
  printer_name = elim body.printer_name [ none ↦ p.printer_name | some n ↦ some n ];
  protocol = or_same body.protocol p.protocol;
}

-- `printerSetting.upsert` under the tenant
unfoldable pub upsert_printer :
    ℕ → (PrinterSetting → PrinterSetting) → Exec (Dict PrinterSetting) PrinterSetting
upsert_printer tenant f rows = elim (get tenant rows) [
  | none ↦ (ok (f default_printer), put tenant (f default_printer) rows)
  | some p ↦ (ok (f p), put tenant (f p) rows)
]

-- `printer`
unfoldable pub printer : ℕ → Exec (Dict PrinterSetting) PrinterSetting
printer tenant = upsert_printer tenant (λ p. p)

-- `updatePrinter`
unfoldable pub update_printer :
    ℕ → UpdatePrinterSettingDto → Exec (Dict PrinterSetting) PrinterSetting
update_printer tenant body = upsert_printer tenant (change_printer body)

-- After an update the tenant reads what the update answered, and reading changes nothing.
pub printer-update_printer :
    (tenant : ℕ) (body : UpdatePrinterSettingDto) (rows : Dict PrinterSetting)
    → printer tenant (update_printer tenant body rows).1 ≡ update_printer tenant body rows
unfolding printer update_printer upsert_printer
printer-update_printer tenant body rows =
    let new : PrinterSetting → PrinterSetting = change_printer body in
    elim (Option-cases (get tenant rows)) [
      | inl none_yet ↦ ground (
        arith,
        get-put_self tenant (new default_printer) rows,
        put-put tenant (new default_printer) (new default_printer) rows,
      )
      | inr (p, here) ↦
          ground (arith, get-put_self tenant (new p) rows, put-put tenant (new p) (new p) rows)
    ]

employee_rows : ℕ → List Membership → Dict User → List Employee
employee_rows tenant [] users = []
employee_rows tenant (m ∷ ms) users =
    let rest = employee_rows tenant ms users in
    if m.tenant == tenant
    then elim (get m.user users) [
      | none ↦ rest
      | some u ↦
          record {
            id = m.user;
            name = u.name;
            email = u.email;
            role = m.role;
            active = m.active;
            existing_account = true;
          }
          ∷ rest
    ]
    else rest

-- `EmployeesController.list`; a membership has a user, and the answer has no `existing_account`
unfoldable pub list_employees : (List Employee → List Employee) → ℕ → Team → List Employee
unfolding employee_rows
list_employees sort tenant t = sort (employee_rows tenant t.memberships t.users)

first_entries : ℕ → List AuditEntry → List AuditEntry
first_entries zero es = []
first_entries (suc n) [] = []
first_entries (suc n) (e ∷ es) = e ∷ first_entries n es

-- `audit`
unfoldable pub list_audit : (List AuditEntry → List AuditEntry) → ℕ → State → List AuditEntry
unfolding first_entries
list_audit newest tenant s = first_entries 500 (newest (keep (λ e. e.tenant == tenant) s.audit_log))
