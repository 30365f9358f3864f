-- ===== src/App/Fields/Reads.antt =====
-- Reading a body leaves the tables alone.
use fukulow.Common.{ℕ, String, Option, List}
use fukulow.App.Crates.{Fields, Json}
use fukulow.App.Fields.{object, integer, string, acceptance_fields}
use fukulow.App.Steps.{Reads, ok_or-Reads, bind-Reads}

module _ {Value : Type 0} (json : Json Value) where
  pub object-Reads : (body : Option (List ℕ)) → Reads (object json body)
  unfolding object
  object-Reads body =
      bind-Reads _ _ (ok_or-Reads _ _)
        λ bytes. bind-Reads _ _ (ok_or-Reads _ _) λ value. ok_or-Reads _ _

  pub integer-Reads :
      (fields : Fields Value) (key : String) (min max : ℕ) → Reads (integer json fields key min max)
  unfolding integer
  integer-Reads fields key min max = ok_or-Reads _ _

  pub string-Reads : (fields : Fields Value) (key : String) → Reads (string json fields key)
  unfolding string
  string-Reads fields key = ok_or-Reads _ _

  pub acceptance_fields-Reads : (fields : Fields Value) → Reads (acceptance_fields json fields)
  unfolding acceptance_fields
  acceptance_fields-Reads fields = bind-Reads _ _ (string-Reads fields _) λ email.
      bind-Reads _ _ (string-Reads fields _)
        λ password. bind-Reads _ _ (string-Reads fields _) λ untrimmed. ok_or-Reads _ _
