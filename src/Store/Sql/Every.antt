-- ===== src/Store/Sql/Every.antt =====
-- What holds of every row of a table, and of some row, after an update.
use webmcp_backend.Common.{
  ◌≡◌, inl, inr, refl, Bool, true, false, List, [], ◌∷◌, any, All, arith, Bool-cases, if◌then◌else◌,
}
use webmcp_backend.Store.Sql.{update_where}

pub any-update_where :
    {A : Type 0} (q hit : A → Bool) (f : A → A) (rows : List A)
    → ((x : A) → q (f x) ≡ q x)
    → any q (update_where hit f rows) ≡ any q rows
unfolding update_where
any-update_where q hit f [] keeps = refl
any-update_where q hit f (x ∷ rows) keeps = elim (Bool-cases (hit x)) [
  | inl selected ↦ ground (arith, selected, keeps x, any-update_where q hit f rows keeps)
  | inr kept ↦ ground (arith, kept, any-update_where q hit f rows keeps)
]

pub All-map :
    {A : Type 0} (P Q : A → Type 0) (rows : List A)
    → ((x : A) → P x → Q x)
    → All P rows
    → All Q rows
All-map P Q [] h all = tt
All-map P Q (x ∷ rows) h (p, all) = (h x p, All-map P Q rows h all)

pub All-update_where :
    {A : Type 0} (P Q : A → Type 0) (hit : A → Bool) (f : A → A) (rows : List A)
    → ((x : A) → hit x ≡ true → Q (f x))
    → ((x : A) → P x → Q x)
    → All P rows
    → All Q (update_where hit f rows)
unfolding update_where
All-update_where P Q hit f [] h k all = tt
All-update_where P Q hit f (x ∷ rows) h k (p, all) =
    (one (hit x) refl, All-update_where P Q hit f rows h k all)
  where
    one : (b : Bool) → hit x ≡ b → Q (if b then f x else x)
    one true e = h x e
    one false e = k x p
