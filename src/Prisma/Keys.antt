-- ===== src/Prisma/Keys.antt =====
-- Tables whose primary keys are distinct: then each row of a result is the one its key finds.
use collabos_backend.Base.{ℕ, ◌≡◌, refl, ◌≢◌, Bool, true, none, some, [], ◌∷◌, arith}
use collabos_backend.Prisma.Tables.{Table, find_first, find_unique, update, update_many, find_many}

module _ {ℓ} {A : Type ℓ} where
  abbrev pub IsDistinct : Table A → Type ℓ
  IsDistinct [] = Unit
  IsDistinct ((k, a) ∷ t) = (find_unique k t ≡ none) × IsDistinct t

  -- Every row of the first table is the one that the second finds under its key.
  abbrev pub AllFound : Table A → Table A → Type ℓ
  AllFound [] t = Unit
  AllFound ((k, a) ∷ rows) t = (find_unique k t ≡ some a) × AllFound rows t

  pub find_unique-update_absent :
      (i k : ℕ) (f : A → A) (t : Table A)
      → find_unique i t ≡ none
      → find_unique i (update k f t) ≡ none
  find_unique-update_absent i k f [] h = refl
  find_unique-update_absent i k f ((j, b) ∷ t) h = ground (arith, find_unique-update_absent i k f t)

  pub find_unique-update_many_absent :
      (i : ℕ) (p : ℕ → A → Bool) (f : A → A) (t : Table A)
      → find_unique i t ≡ none
      → find_unique i (update_many p f t) ≡ none
  find_unique-update_many_absent i p f [] h = refl
  find_unique-update_many_absent i p f ((j, b) ∷ t) h =
      ground (arith, find_unique-update_many_absent i p f t)

  pub find_unique-find_many_absent :
      (i : ℕ) (p : ℕ → A → Bool) (t : Table A)
      → find_unique i t ≡ none
      → find_unique i (find_many p t) ≡ none
  find_unique-find_many_absent i p [] h = refl
  find_unique-find_many_absent i p ((j, b) ∷ t) h =
      ground (arith, find_unique-find_many_absent i p t)

  pub update-IsDistinct :
      (k : ℕ) (f : A → A) (t : Table A) → IsDistinct t → IsDistinct (update k f t)
  update-IsDistinct k f [] h = tt
  update-IsDistinct k f ((j, b) ∷ t) h =
      ground (arith, h, update-IsDistinct k f t h.1, find_unique-update_absent j k f t h.0)

  pub update_many-IsDistinct :
      (p : ℕ → A → Bool) (f : A → A) (t : Table A) → IsDistinct t → IsDistinct (update_many p f t)
  update_many-IsDistinct p f [] h = tt
  update_many-IsDistinct p f ((j, b) ∷ t) h =
      (find_unique-update_many_absent j p f t h.0, update_many-IsDistinct p f t h.1)

  pub find_many-IsDistinct :
      (p : ℕ → A → Bool) (t : Table A) → IsDistinct t → IsDistinct (find_many p t)
  find_many-IsDistinct p [] h = tt
  find_many-IsDistinct p ((j, b) ∷ t) h =
      ground (arith, h, find_many-IsDistinct p t h.1, find_unique-find_many_absent j p t h.0)

  found_under :
      (k j : ℕ) (a b : A) (t : Table A)
      → find_unique j t ≡ none
      → find_unique k t ≡ some a
      → find_unique k ((j, b) ∷ t) ≡ some a
  found_under k j a b t absent h = ground arith

  AllFound-cons :
      (j : ℕ) (b : A) (rows t : Table A)
      → find_unique j t ≡ none
      → AllFound rows t
      → AllFound rows ((j, b) ∷ t)
  AllFound-cons j b [] t absent h = tt
  AllFound-cons j b ((k, a) ∷ rows) t absent h =
      (found_under k j a b t absent h.0, AllFound-cons j b rows t absent h.1)

  pub find_many-AllFound :
      (p : ℕ → A → Bool) (t : Table A) → IsDistinct t → AllFound (find_many p t) t
  find_many-AllFound p [] h = tt
  find_many-AllFound p ((j, b) ∷ t) h =
      ground (arith, AllFound-cons j b (find_many p t) t h.0 (find_many-AllFound p t h.1))

  found_other :
      (k i : ℕ) (f : A → A) (a : A) (t : Table A)
      → i ≢ k
      → find_unique i t ≡ some a
      → find_unique i (update k f t) ≡ some a
  found_other k i f a [] other h = ground arith
  found_other k i f a ((j, b) ∷ t) other h = ground (arith, found_other k i f a t other)

  -- An update of one row leaves the others where they are.
  pub AllFound-update :
      (k : ℕ) (f : A → A) (rows t : Table A)
      → find_unique k rows ≡ none
      → AllFound rows t
      → AllFound rows (update k f t)
  AllFound-update k f [] t absent h = tt
  AllFound-update k f ((i, a) ∷ rows) t absent h =
      (found_other k i f a t (λ e. ground arith) h.0, AllFound-update k f rows t (ground arith) h.1)

  -- With distinct keys, the row of `findFirst` is the one that its key finds.
  pub find_unique_of_find_first :
      (p : ℕ → A → Bool) (t : Table A) (k : ℕ) (a : A)
      → IsDistinct t
      → find_first p t ≡ some (k, a)
      → find_unique k t ≡ some a
  find_unique_of_find_first p [] k a distinct h = ground (arith, h)
  find_unique_of_find_first p ((j, b) ∷ t) k a distinct h =
      ground (arith, distinct, h, find_unique_of_find_first p t k a distinct.1)

  pub find_first_fits :
      (p : ℕ → A → Bool) (t : Table A) (k : ℕ) (a : A) → find_first p t ≡ some (k, a) → p k a ≡ true
  find_first_fits p [] k a h = ground (arith, h)
  find_first_fits p ((j, b) ∷ t) k a h = ground (arith, h, find_first_fits p t k a)
