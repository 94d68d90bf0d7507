-- ===== src/Finance/Aging.antt =====
-- The aging reports of receivables and payables (backend/app/modules/finance/service.py, `aging`;
-- repository.py, `aging_rows`). Times are in microseconds.
pub mod Totals
use blyns_ops.Prelude.{
  ℕ, ◌+◌, ◌-◌, ◌/◌, String, Bool, true, false, Option, List, [], ◌∷◌, not, ◌&&◌, ◌||◌, ◌==◌, ltb,
  leb, if◌then◌else◌,
}
use blyns_ops.Tenant.{Db, Document, sent, partly_paid}
use blyns_ops.Finance.Invoices.{is_status}

pub data AgingKind : Type 0 where
  ar ap : AgingKind

abbrev pub documents_of : AgingKind → Db → List Document
documents_of AgingKind.ar s = s.invoices
documents_of AgingKind.ap s = s.bills

abbrev pub outstanding : Document → ℕ
outstanding d = d.total - d.paid_amount

-- The two `$match` stages: an open status, not deleted, and something outstanding.
abbrev pub is_open : Document → Bool
is_open d =
    (is_status d.status sent || is_status d.status partly_paid)
    && not d.is_deleted
    && ltb d.paid_amount d.total

-- `{"$sort": {"due_date": 1}}`
unfoldable pub insert_due : Document → List Document → List Document
insert_due d [] = d ∷ []
insert_due d (x ∷ xs) = if ltb x.due_date d.due_date then x ∷ insert_due d xs else d ∷ x ∷ xs

unfoldable pub aging_rows : List Document → List Document
unfolding insert_due
aging_rows [] = []
aging_rows (d ∷ ds) = let rest = aging_rows ds in if is_open d then insert_due d rest else rest

pub data Bucket : Type 0 where
  current to_30 to_60 to_90 over_90 : Bucket

abbrev microseconds_per_day : ℕ
microseconds_per_day = 86400000000

-- `max(days, 0)`: a date that is not yet due has no days.
abbrev pub days_overdue : ℕ → Document → ℕ
days_overdue now d = (now - d.due_date) / microseconds_per_day

-- The label. The first bucket of `AGING_BUCKETS` starts at 0, which is taken by `current`.
abbrev pub bucket_of : ℕ → Bucket
bucket_of days =
    if days == 0
    then Bucket.current
    else if leb days 30
    then Bucket.to_30
    else if leb 31 days && leb days 60
    then Bucket.to_60
    else if leb 61 days && leb days 90
    then Bucket.to_90
    else Bucket.over_90

pub record BucketSum : Type 0 where
  pub total : ℕ
  pub count : ℕ

-- The dictionary of the buckets.
pub record Buckets : Type 0 where
  pub current : BucketSum
  pub to_30 : BucketSum
  pub to_60 : BucketSum
  pub to_90 : BucketSum
  pub over_90 : BucketSum

abbrev pub no_documents : BucketSum
no_documents = record { total = 0; count = 0 }

abbrev pub empty_buckets : Buckets
empty_buckets = record {
  current = no_documents;
  to_30 = no_documents;
  to_60 = no_documents;
  to_90 = no_documents;
  over_90 = no_documents;
}

abbrev pub add_outstanding : ℕ → BucketSum → BucketSum
add_outstanding n b = record { total = b.total + n; count = b.count + 1 }

unfoldable pub add_to_bucket : Bucket → ℕ → Buckets → Buckets
add_to_bucket Bucket.current n bs = record bs { current = add_outstanding n bs.current }
add_to_bucket Bucket.to_30 n bs = record bs { to_30 = add_outstanding n bs.to_30 }
add_to_bucket Bucket.to_60 n bs = record bs { to_60 = add_outstanding n bs.to_60 }
add_to_bucket Bucket.to_90 n bs = record bs { to_90 = add_outstanding n bs.to_90 }
add_to_bucket Bucket.over_90 n bs = record bs { over_90 = add_outstanding n bs.over_90 }

pub record AgingItem : Type 0 where
  pub id : ℕ
  pub days : ℕ
  pub amount : ℕ
  pub bucket : Bucket

abbrev pub item_of : ℕ → Document → AgingItem
item_of now d = record {
  id = d.id;
  days = days_overdue now d;
  amount = outstanding d;
  bucket = bucket_of (days_overdue now d);
}

-- The loop over the rows.
unfoldable pub fill_buckets : ℕ → List Document → Buckets → Buckets
unfolding add_to_bucket
fill_buckets now [] bs = bs
fill_buckets now (d ∷ ds) bs =
    fill_buckets now ds (add_to_bucket (bucket_of (days_overdue now d)) (outstanding d) bs)

abbrev pub items_of : ℕ → List Document → List AgingItem
items_of now [] = []
items_of now (d ∷ ds) = item_of now d ∷ items_of now ds

abbrev pub buckets_total : Buckets → ℕ
buckets_total bs =
    bs.current.total + bs.to_30.total + bs.to_60.total + bs.to_90.total + bs.over_90.total

pub record AgingReport : Type 0 where
  pub buckets : Buckets
  pub items : List AgingItem
  pub total : ℕ

unfoldable pub aging : ℕ → AgingKind → Db → AgingReport
unfolding aging_rows fill_buckets
aging now k s =
    let rows = aging_rows (documents_of k s) in
    let buckets = fill_buckets now rows empty_buckets in
    record { buckets = buckets; items = items_of now rows; total = buckets_total buckets }
