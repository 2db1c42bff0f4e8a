-- ===== src/Store/Sql.antt =====
-- What the adapters' SQL does with a table: the first row that a condition selects, how many rows
-- it selects, and an update of those rows.
pub mod Laws
pub mod Every
use webmcp_backend.Common.{
  ℕ, Bool, true, false, ◌&&◌, ◌||◌, Option, none, some, List, [], ◌∷◌, suc, ◌==◌, string_eq, find?,
  if◌then◌else◌, Error, Result, ok, err,
}
use webmcp_backend.Auth.Principal.{Role, owner, operator, role_eq}
use webmcp_backend.Domain.Core.{Ident}
use webmcp_backend.Store.Tables.{UserRow, BusinessRow, Db}

module _ {A : Type 0} where
  unfoldable pub count_where : (A → Bool) → List A → ℕ
  count_where p [] = 0
  count_where p (x ∷ xs) = let n = count_where p xs in if p x then suc n else n

  unfoldable pub update_where : (A → Bool) → (A → A) → List A → List A
  update_where p f [] = []
  update_where p f (x ∷ xs) = (if p x then f x else x) ∷ update_where p f xs

-- The row of a `SELECT`, or the error of the code for `pgx.ErrNoRows`.
abbrev pub row_or : {A : Type 0} → Error → Option A → Result A
row_or e none = err e
row_or e (some a) = ok a

-- A statement that a constraint of the schema stops.
abbrev pub constrained : {A : Type 0} → Bool → Error → A → Result A
constrained true e a = err e
constrained false e a = ok a

-- `role IN ('owner', 'operator')`
abbrev pub is_staff : Role → Bool
is_staff r = r == owner || r == operator

module _ {F : Type 0} (org : Ident) where
  -- Rows of another organization are invisible under row-level security.
  unfoldable pub find_business : Ident → Db F → Option BusinessRow
  find_business id db = find? (λ b. b.organization_id == org && b.id == id) db.businesses

  unfoldable pub find_user : Ident → Db F → Option UserRow
  find_user id db = find? (λ u. u.organization_id == org && u.id == id) db.users
