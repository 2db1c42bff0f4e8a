-- ===== src/Store/Sql/Laws.antt =====
-- What a query finds in a table, and what it finds there after an update.
use webmcp_backend.Common.{
  ◌≡◌, ◌⊎◌, inl, inr, Bool, true, false, some, List, [], ◌∷◌, find?, arith, Bool-cases,
  if◌then◌else◌,
}
use webmcp_backend.Store.Sql.{update_where}

pub find?-head :
    {A : Type 0} (p : A → Bool) (x : A) (xs : List A) → p x ≡ true → find? p (x ∷ xs) ≡ some x
find?-head p x xs h = ground (arith, h)

-- A row that is found after an update was not selected by it, or is an updated row.
pub find?-update_where :
    {A : Type 0} (q hit : A → Bool) (f : A → A) (rows : List A) (w : A)
    → find? q (update_where hit f rows) ≡ some w
    → (q w ≡ true) × ((hit w ≡ false) ⊎ ((x : A) × (w ≡ f x)))
unfolding update_where
find?-update_where q hit f [] w h = cc
find?-update_where q hit f (x ∷ rows) w h = elim (Bool-cases (hit x)) [
  | inl selected ↦ elim (Bool-cases (q (f x))) [
    | inl here ↦ (ground (arith, selected, here, h), inr (x, ground (arith, selected, here, h)))
    | inr there ↦ find?-update_where q hit f rows w (ground (arith, selected, there, h))
  ]
  | inr kept ↦ elim (Bool-cases (q x)) [
    | inl here ↦ (ground (arith, kept, here, h), inl (ground (arith, kept, here, h)))
    | inr there ↦ find?-update_where q hit f rows w (ground (arith, kept, there, h))
  ]
]

-- A row that is found passes the test.
pub find?-true :
    {A : Type 0} (q : A → Bool) (rows : List A) (w : A) → find? q rows ≡ some w → q w ≡ true
find?-true q [] w h = cc
find?-true q (x ∷ rows) w h = elim (Bool-cases (q x)) [
  | inl here ↦ ground (arith, here, h)
  | inr there ↦ find?-true q rows w (ground (arith, there, h))
]

-- An update that changes no column of the condition leaves the same row to be found, updated.
pub find?-update :
    {A : Type 0} (q hit : A → Bool) (f : A → A) (rows : List A) (w : A)
    → ((x : A) → q (f x) ≡ q x)
    → find? q rows ≡ some w
    → find? q (update_where hit f rows) ≡ some (if hit w then f w else w)
unfolding update_where
find?-update q hit f [] w keeps h = cc
find?-update q hit f (x ∷ rows) w keeps h = elim (Bool-cases (q x)) [
  | inl here ↦ elim (Bool-cases (hit x)) [
    | inl selected ↦ ground (arith, here, selected, h, keeps x)
    | inr kept ↦ ground (arith, here, kept, h)
  ]
  | inr there ↦ elim (Bool-cases (hit x)) [
    | inl selected ↦ ground (
      arith,
      there,
      selected,
      keeps x,
      find?-update q hit f rows w keeps (ground (arith, there, h)),
    )
    | inr kept ↦
        ground (arith, there, kept, find?-update q hit f rows w keeps (ground (arith, there, h)))
  ]
]

-- The row that a test finds is the one that a stronger test finds, where it passes that as well.
pub find?-stronger :
    {A : Type 0} (weak strong : A → Bool) (rows : List A) (w : A)
    → ((x : A) → strong x ≡ true → weak x ≡ true)
    → strong w ≡ true
    → find? weak rows ≡ some w
    → find? strong rows ≡ some w
find?-stronger weak strong [] w implies h e = cc
find?-stronger weak strong (x ∷ rows) w implies h e = elim (Bool-cases (weak x)) [
  | inl here ↦ ground (arith, here, h, e)
  | inr there ↦ elim (Bool-cases (strong x)) [
    | inl both ↦ absurd (ground (arith, there, implies x both))
    | inr neither ↦ ground (
      arith,
      there,
      neither,
      find?-stronger weak strong rows w implies h (ground (arith, there, e)),
    )
  ]
]
