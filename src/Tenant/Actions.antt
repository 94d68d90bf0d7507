-- ===== src/Tenant/Actions.antt =====
-- Actions on the database that may raise. What was written before a raise stays written.
use blyns_ops.Prelude.{
  ℕ, ◌+◌, String, Bool, true, false, Option, none, some, [], ◌∷◌, insert_one, ◌==◌, if◌then◌else◌,
}
use blyns_ops.Tenant.Ids.{RawId}
use blyns_ops.Tenant.Docs.{Db, Principal}

pub data Code : Type 0 where
  tenant_not_found not_found validation_error insufficient_stock unbalanced_entry : Code
  permission_denied project_archived invalid_status_transition : Code

-- A `DomainError` with its code and HTTP status, an exception of the database driver, a failed
-- `assert`, or a malformed id that no handler catches.
pub data Error : Type 0 where
  domain_error : Code → ℕ → Error
  write_failed assertion_failed invalid_id : Error

pub data Result (A : Type 0) : Type 0 where
  ok : A → Result A
  err : Error → Result A

abbrev pub Exec : Type 0 → Type 0
Exec A = Db → Result A × Db

module _ {A : Type 0} where
  abbrev pub pure : A → Exec A
  pure a s = (ok a, s)

  abbrev pub raise : Error → Exec A
  raise e s = (err e, s)

  -- A query that may raise and writes nothing.
  abbrev pub reads : (Db → Result A) → Exec A
  reads f s = (f s, s)

  -- `if x is None: raise e`
  abbrev pub or_raise : Option A → Error → Result A
  or_raise none e = err e
  or_raise (some a) e = ok a

  abbrev pub undone : (Db → Db) → Result A × Db → Result A × Db
  undone undo (ok a, s) = (ok a, s)
  undone undo (err e, s) = (err e, undo s)

  -- `try: m; except Exception: undo; raise`
  abbrev pub or_undo : Exec A → (Db → Db) → Exec A
  or_undo m undo s = undone undo (m s)

infixl 5 ◌>>=◌ ◌>>◌
abbrev pub ◌>>=◌ : {A B : Type 0} → Exec A → (A → Exec B) → Exec B
◌>>=◌ m f s = let (r, s') = m s in elim r [ ok a ↦ f a s' | err e ↦ (err e, s') ]

abbrev pub ◌>>◌ : {A B : Type 0} → Exec A → Exec B → Exec B
m >> n = m >>= λ _. n

abbrev pub modify : (Db → Db) → Exec Unit
modify f s = (ok tt, f s)

abbrev pub raise_if : Bool → Error → Exec Unit
raise_if true e s = (err e, s)
raise_if false e s = (ok tt, s)

-- The `insert_one` under `repo.insert`: the driver gives a fresh id, or raises.
unfoldable pub new_id : Exec ℕ
new_id s = elim s.faults [
  | [] ↦ (ok s.next_id, record s { next_id = s.next_id + 1 })
  | bad ∷ rest ↦ elim bad [
    | true ↦ (err write_failed, record s { faults = rest })
    | false ↦ (ok s.next_id, record s { next_id = s.next_id + 1; faults = rest })
  ]
]

-- `write_activity`
unfoldable pub write_activity : Principal → String → String → ℕ → Exec Unit
write_activity p action kind id s = (
  ok tt,
  record s {
    activity =
        insert_one s.activity
          (record { actor_id = p.user_id; action = action; entity_type = kind; entity_id = id });
  },
)

-- `_oid`
unfoldable pub oid : RawId → Result ℕ
oid raw = or_raise raw.object_id (domain_error tenant_not_found 404)

abbrev pub has_status : ℕ → Error → Bool
has_status status (domain_error _ http) = http == status
has_status status _ = false

-- `try: m; except DomainError as exc: if exc.http_status != status: raise; handler`
abbrev pub on_status : {A : Type 0} → ℕ → Exec A → Exec A → Exec A
on_status status m handler s =
    let (r, s') = m s in
    elim r [ ok a ↦ (ok a, s') | err e ↦ if has_status status e then handler s' else (err e, s') ]

-- `assert updated is not None`
abbrev pub asserted : {A : Type 0} → Option A → Exec A
asserted o = reads (λ s. or_raise o assertion_failed)
