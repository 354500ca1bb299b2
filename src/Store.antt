-- ===== src/Store.antt =====
-- internal/store/postgres/store.go: the database. What gorm does with a table is a parameter, and
-- so is the JSON that a payload is stored as. gorm.ErrRecordNotFound is `none`; a row that is not
-- found is left with its zero values, and Save inserts a row whose ID is 0 and updates any other.
pub mod Payloads
pub mod Aliases
pub mod Uuid
pub mod Clients
use zero_nime.Base.{M, Option, Result}
use zero_nime.Text.{Text}

-- The operations on a table whose rows are looked up by K.
pub record Rows (W K R : Type 0) : Type 0 where
  -- Where(…).First
  pub first : K → M W (Option R)
  pub create : R → M W (Unit {0})
  pub save : R → M W (Unit {0})
  -- Where(…).Delete of the rows, and Delete of a row that was read
  pub delete_where : K → M W (Unit {0})
  pub delete_row : R → M W (Unit {0})

-- json.Marshal and json.Unmarshal
pub record Json (A : Type 0) : Type 0 where
  pub marshal : A → Result Text
  pub unmarshal : Text → Result A
