-- ===== src/Tenant/Ids.antt =====
-- Ids in requests.
use blyns_ops.Prelude.{ℕ, String, Option, some, decimal}

-- An id as the request gives it, with what `ObjectId(text)` makes of the text: nothing, if it is
-- malformed.
pub record RawId : Type 0 where
  pub text : String
  pub object_id : Option ℕ

-- `str(_id)`, handed to another service.
abbrev pub id_text : ℕ → RawId
id_text id = record { text = decimal id; object_id = some id }
