-- ===== src/Prisma/Tables.antt =====
-- One table: Prisma's `findUnique`, `create`, `update`, `updateMany`, `delete`, `count` and
-- `aggregate`. The keys are uuids made by the database, so `create` is handed a key.
use collabos_backend.Base.{
  ℕ, zero, suc, ◌+◌, Bool, Option, none, some, List, [], ◌∷◌, ◌==◌, if◌then◌else◌, is_some,
}

abbrev pub Table {ℓ} : Type ℓ → Type ℓ
Table A = List (ℕ × A)

module _ {ℓ} {A : Type ℓ} where
  -- `findUnique({ where: { id } })`
  abbrev pub find_unique : ℕ → Table A → Option A
  find_unique k [] = none
  find_unique k ((j, a) ∷ t) = if j == k then some a else find_unique k t

  abbrev pub has_key : ℕ → Table A → Bool
  has_key k t = is_some (find_unique k t)

  -- `create({ data })`
  abbrev pub create : ℕ → A → Table A → Table A
  create k a t = (k, a) ∷ t

  -- The rows after `update({ where: { id }, data })`.
  abbrev pub update : ℕ → (A → A) → Table A → Table A
  update k f [] = []
  update k f ((j, a) ∷ t) = if j == k then (j, f a) ∷ t else (j, a) ∷ update k f t

  -- `updateMany({ where, data })`
  abbrev pub update_many : (ℕ → A → Bool) → (A → A) → Table A → Table A
  update_many p f [] = []
  update_many p f ((j, a) ∷ t) = (j, if p j a then f a else a) ∷ update_many p f t

  -- `delete({ where: { id } })`
  abbrev pub delete : ℕ → Table A → Table A
  delete k [] = []
  delete k ((j, a) ∷ t) = if j == k then t else (j, a) ∷ delete k t

  -- `deleteMany({ where })`
  abbrev pub delete_many : (ℕ → A → Bool) → Table A → Table A
  delete_many p [] = []
  delete_many p ((j, a) ∷ t) = if p j a then delete_many p t else (j, a) ∷ delete_many p t

  -- `count({ where })`
  abbrev pub count : (ℕ → A → Bool) → Table A → ℕ
  count p [] = 0
  count p ((j, a) ∷ t) = (if p j a then 1 else 0) + count p t

  -- `aggregate({ where, _sum })`, where no row gives 0
  abbrev pub sum : (ℕ → A → Bool) → (A → ℕ) → Table A → ℕ
  sum p f [] = 0
  sum p f ((j, a) ∷ t) = (if p j a then f a else 0) + sum p f t

  -- `findFirst({ where })`: the newest row that fits, with its key
  abbrev pub find_first : (ℕ → A → Bool) → Table A → Option (ℕ × A)
  find_first p [] = none
  find_first p ((j, a) ∷ t) = if p j a then some (j, a) else find_first p t

  -- `findMany({ where })`
  abbrev pub find_many : (ℕ → A → Bool) → Table A → Table A
  find_many p [] = []
  find_many p ((j, a) ∷ t) = if p j a then (j, a) ∷ find_many p t else find_many p t

  -- `take: n` of `findMany`
  abbrev pub take_rows : ℕ → Table A → Table A
  take_rows zero t = []
  take_rows (suc n) [] = []
  take_rows (suc n) (r ∷ t) = r ∷ take_rows n t

  -- `skip: n` of `findMany`
  abbrev pub skip_rows : ℕ → Table A → Table A
  skip_rows zero t = t
  skip_rows (suc n) [] = []
  skip_rows (suc n) (r ∷ t) = skip_rows n t

  -- The number of rows of a result
  abbrev pub row_count : Table A → ℕ
  row_count [] = 0
  row_count (r ∷ t) = suc (row_count t)
