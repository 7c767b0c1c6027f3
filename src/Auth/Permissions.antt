-- ===== src/Auth/Permissions.antt =====
-- The permissions that tokens and requests carry (src/auth/auth.service.ts, src/auth/guards).
use collabos_backend.Base.{
  ℕ, ◌+◌, ◌≤◌, ◌≡◌, refl, ap, Bool, true, false, ◌||◌, String, List, [], ◌∷◌, ◌++◌, arith,
  same_text, same_text_path, includes, if◌then◌else◌, Bool-cases, inl, inr,
}
use collabos_backend.Schema.Identity.{Role}
use collabos_backend.Auth.State.{add_permission, add_permissions, flatten_from, flatten_permissions}

-- Some role of the list has the permission.
abbrev pub some_role_has : List Role → String → Bool
some_role_has [] p = false
some_role_has (r ∷ rs) p = includes r.permissions p || some_role_has rs p

-- How often a name stands in a list.
abbrev pub occurrences : String → List String → ℕ
occurrences p [] = 0
occurrences p (q ∷ qs) = (if same_text q p then 1 else 0) + occurrences p qs

includes-append :
    (xs : List String) (q p : String)
    → includes (xs ++ (q ∷ [])) p ≡ (includes xs p || same_text q p)
unfolding includes
includes-append [] q p = ground arith
includes-append (x ∷ xs) q p = ground (arith, includes-append xs q p)

includes_of_same :
    (xs : List String) (q p : String)
    → includes xs q ≡ true
    → same_text q p ≡ true
    → includes xs p ≡ true
includes_of_same xs q p h e = ground (arith, ap (includes xs) (same_text_path q p e), h)

includes-add :
    (q : String) (acc : List String) (p : String)
    → includes (add_permission q acc) p ≡ (includes acc p || same_text q p)
unfolding add_permission
includes-add q acc p = ground (arith, includes-append acc q p, includes_of_same acc q p)

includes-add_all :
    (qs acc : List String) (p : String)
    → includes (add_permissions qs acc) p ≡ (includes acc p || includes qs p)
unfolding add_permissions includes
includes-add_all [] acc p = ground arith
includes-add_all (q ∷ qs) acc p =
    ground (arith, includes-add_all qs (add_permission q acc) p, includes-add q acc p)

includes-flatten_from :
    (roles : List Role) (acc : List String) (p : String)
    → includes (flatten_from roles acc) p ≡ (includes acc p || some_role_has roles p)
unfolding flatten_from
includes-flatten_from [] acc p = ground arith
includes-flatten_from (r ∷ rs) acc p = ground (
  arith,
  includes-flatten_from rs (add_permissions r.permissions acc) p,
  includes-add_all r.permissions acc p,
)

occurrences-append :
    (xs : List String) (q p : String)
    → occurrences p (xs ++ (q ∷ [])) ≡ occurrences p xs + (if same_text q p then 1 else 0)
occurrences-append [] q p = ground arith
occurrences-append (x ∷ xs) q p = ground (arith, occurrences-append xs q p)

occurrences_of_absent :
    (xs : List String) (p : String) → includes xs p ≡ false → occurrences p xs ≡ 0
unfolding includes
occurrences_of_absent [] p h = refl
occurrences_of_absent (x ∷ xs) p h = ground (arith, h, occurrences_of_absent xs p)

occurrences-add :
    (q : String) (acc : List String) (p : String)
    → occurrences p acc ≤ 1
    → occurrences p (add_permission q acc) ≤ 1
unfolding add_permission
occurrences-add q acc p h = elim (Bool-cases (same_text q p)) [
  | inl e ↦ ground (
    arith,
    e,
    h,
    occurrences-append acc q p,
    occurrences_of_absent acc p,
    ap (includes acc) (same_text_path q p e),
  )
  | inr e ↦ ground (arith, e, h, occurrences-append acc q p)
]

occurrences-add_all :
    (qs acc : List String) (p : String)
    → occurrences p acc ≤ 1
    → occurrences p (add_permissions qs acc) ≤ 1
unfolding add_permissions
occurrences-add_all [] acc p h = h
occurrences-add_all (q ∷ qs) acc p h =
    occurrences-add_all qs (add_permission q acc) p (occurrences-add q acc p h)

occurrences-flatten_from :
    (roles : List Role) (acc : List String) (p : String)
    → occurrences p acc ≤ 1
    → occurrences p (flatten_from roles acc) ≤ 1
unfolding flatten_from
occurrences-flatten_from [] acc p h = h
occurrences-flatten_from (r ∷ rs) acc p h =
    occurrences-flatten_from rs (add_permissions r.permissions acc) p
      (occurrences-add_all r.permissions acc p h)

-- The permissions of a token are the union of those of the user's roles, each of them once.
pub flatten_permissions-union :
    (roles : List Role) (p : String)
    → (includes (flatten_permissions roles) p ≡ some_role_has roles p)
      × (occurrences p (flatten_permissions roles) ≤ 1)
unfolding flatten_permissions includes
flatten_permissions-union roles p =
    (includes-flatten_from roles [] p, occurrences-flatten_from roles [] p (omega arith))
