-- ===== src/Prisma/Laws.antt =====
-- What the operations of a table do to look-ups, counts and sums.
use collabos_backend.Base.{
  ap, zero, suc, ℕ, ◌+◌, ◌≤◌, ◌≡◌, refl, ◌≢◌, Bool, true, none, some, [], ◌∷◌, arith, if◌then◌else◌,
  is_some,
}
use collabos_backend.Prisma.Tables.{
  Table, find_unique, create, update, count, sum, find_first, has_key, find_many, take_rows,
  row_count,
}

module _ {ℓ} {A : Type ℓ} where
  pub find_unique-create_self :
      (k : ℕ) (a : A) (t : Table A) → find_unique k (create k a t) ≡ some a
  find_unique-create_self k a t = ground arith

  pub find_unique-create_ne :
      (i k : ℕ) (a : A) (t : Table A) → i ≢ k → find_unique i (create k a t) ≡ find_unique i t
  find_unique-create_ne i k a t h = ground arith

  -- An update removes no row.
  pub find_unique-none_of_update :
      (i k : ℕ) (f : A → A) (t : Table A)
      → find_unique i (update k f t) ≡ none
      → find_unique i t ≡ none
  find_unique-none_of_update i k f [] h = refl
  find_unique-none_of_update i k f ((j, b) ∷ t) h =
      ground (arith, find_unique-none_of_update i k f t)

  pub find_unique-update_self :
      (k : ℕ) (f : A → A) (t : Table A) (a : A)
      → find_unique k t ≡ some a
      → find_unique k (update k f t) ≡ some (f a)
  find_unique-update_self k f [] a h = ground arith
  find_unique-update_self k f ((j, b) ∷ t) a h = ground (arith, find_unique-update_self k f t a)

  pub find_unique-update_ne :
      (i k : ℕ) (f : A → A) (t : Table A) → i ≢ k → find_unique i (update k f t) ≡ find_unique i t
  find_unique-update_ne i k f [] h = refl
  find_unique-update_ne i k f ((j, b) ∷ t) h = ground (arith, find_unique-update_ne i k f t h)

  pub find_unique-update-none :
      (i k : ℕ) (f : A → A) (t : Table A)
      → find_unique i t ≡ none
      → find_unique i (update k f t) ≡ none
  find_unique-update-none i k f [] h = refl
  find_unique-update-none i k f ((j, b) ∷ t) h = ground (arith, find_unique-update-none i k f t)

  -- An update moves a count by what it does to the one row.
  pub count-update :
      (p : ℕ → A → Bool) (k : ℕ) (f : A → A) (t : Table A) (a : A)
      → find_unique k t ≡ some a
      → count p (update k f t) + (if p k a then 1 else 0) ≡ count p t + (if p k (f a) then 1 else 0)
  count-update p k f [] a h = ground arith
  count-update p k f ((j, b) ∷ t) a h = ground (arith, count-update p k f t a)

  pub sum-update :
      (p : ℕ → A → Bool) (g : A → ℕ) (k : ℕ) (f : A → A) (t : Table A) (a : A)
      → find_unique k t ≡ some a
      → sum p g (update k f t) + (if p k a then g a else 0)
        ≡ sum p g t + (if p k (f a) then g (f a) else 0)
  sum-update p g k f [] a h = ground arith
  sum-update p g k f ((j, b) ∷ t) a h = ground (arith, sum-update p g k f t a)

  -- A found row is one of those that are counted.
  pub count_pos :
      (p : ℕ → A → Bool) (k : ℕ) (t : Table A) (a : A)
      → find_unique k t ≡ some a
      → p k a ≡ true
      → 1 ≤ count p t
  count_pos p k [] a h e = ground arith
  count_pos p k ((j, b) ∷ t) a h e = ground (arith, count_pos p k t a)

  pub le-sum :
      (p : ℕ → A → Bool) (g : A → ℕ) (k : ℕ) (t : Table A) (a : A)
      → find_unique k t ≡ some a
      → p k a ≡ true
      → g a ≤ sum p g t
  le-sum p g k [] a h e = ground arith
  le-sum p g k ((j, b) ∷ t) a h e = ground (arith, le-sum p g k t a)

  pub count_of_find_first-none :
      (p : ℕ → A → Bool) (t : Table A) → find_first p t ≡ none → count p t ≡ 0
  count_of_find_first-none p [] h = refl
  count_of_find_first-none p ((j, b) ∷ t) h = ground (arith, count_of_find_first-none p t)

  pub find_first_of_count_pos :
      (p : ℕ → A → Bool) (t : Table A) → 1 ≤ count p t → is_some (find_first p t) ≡ true
  find_first_of_count_pos p [] h = absurd (omega arith)
  find_first_of_count_pos p ((j, b) ∷ t) h = ground (arith, find_first_of_count_pos p t)

  -- The row of `findFirst` has a key of the table.
  pub has_key_of_find_first :
      (p : ℕ → A → Bool) (t : Table A) (k : ℕ) (a : A)
      → find_first p t ≡ some (k, a)
      → has_key k t ≡ true
  has_key_of_find_first p [] k a h = ground arith
  has_key_of_find_first p ((j, b) ∷ t) k a h = ground (arith, has_key_of_find_first p t k a)

  pub has_key-find_many :
      (k : ℕ) (p : ℕ → A → Bool) (t : Table A) (a : A)
      → find_unique k t ≡ some a
      → p k a ≡ true
      → has_key k (find_many p t) ≡ true
  has_key-find_many k p [] a h e = ground (arith, h)
  has_key-find_many k p ((j, b) ∷ t) a h e = ground (arith, h, e, has_key-find_many k p t a)

  -- A page that is large enough holds every row.
  pub take_rows_all : (n : ℕ) (t : Table A) → row_count t ≤ n → take_rows n t ≡ t
  take_rows_all zero [] h = refl
  take_rows_all zero (r ∷ t) h = absurd (omega arith)
  take_rows_all (suc n) [] h = refl
  take_rows_all (suc n) (r ∷ t) h = ap (λ x. r ∷ x) (take_rows_all n t (omega (arith, h)))
