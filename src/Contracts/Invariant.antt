-- ===== src/Contracts/Invariant.antt =====
-- What the tables of the contracts satisfy between two calls, and the writes that keep it.
use native.Mathlib.Decide.{ℕ_discrete}
use collabos_backend.Base.{
  ℕ, suc, refl, sym, subst, ◌∙◌, ◌+◌, ◌≤◌, ◌≡◌, ◌≢◌, Option, none, some, arith, ◌==◌, ◌&&◌, ◌is◌,
  String,
}
use collabos_backend.Prisma.{
  Table, find_unique, create, update, count, find_unique-update_self, find_unique-update_ne,
  find_unique-create_self, find_unique-create_ne, find_unique-none_of_update,
}
use collabos_backend.Schema.Agreements.{
  AgreementStatus, Contract, DealParty, deal_party_enum, ContractVersion, ContractSignature,
}
use collabos_backend.Contracts.State.{ContractsDb}
use collabos_backend.Contracts.Signatures.{signature_count}
use collabos_backend.Contracts.Latest.{
  IsKeyed, latest_key, latest_key-create_other, latest_key-create_next, latest_key-create_first,
  latest_key-update, set_pdf, IsKeyed-update, contract_of-latest_key,
}

-- How many signatures the latest version may have, by the contract's status.
abbrev pub StatusFits : AgreementStatus → ℕ → Type 0
StatusFits AgreementStatus.draft n = n ≡ 0
StatusFits AgreementStatus.awaiting_signature n = n ≡ 0
StatusFits AgreementStatus.partially_signed n = n ≤ 1
StatusFits AgreementStatus.executed n = n ≡ 2
StatusFits AgreementStatus.voided n = Unit

-- A contract has a version, and the status fits the latest one.
abbrev pub LatestFits : AgreementStatus → Option (ℕ × ℕ) → Table ContractSignature → Type 0
LatestFits status none signatures = ⊥
LatestFits status (some (k, _)) signatures = StatusFits status (signature_count k signatures)

abbrev pub ContractFits : Option Contract → Option (ℕ × ℕ) → Table ContractSignature → Type 0
ContractFits none latest signatures = Unit
ContractFits (some c) latest signatures = LatestFits c.status latest signatures

abbrev pub party_count : ℕ → DealParty → Table ContractSignature → ℕ
party_count k party = count (λ _ g. g.contract_version_id == k && g.party is party)

-- What holds of the three tables of the contracts.
pub record IsConsistent (contracts : Table Contract) (versions : Table ContractVersion)
    (signatures : Table ContractSignature) : Type 0 where
  pub keyed : IsKeyed versions
  -- a signature is under a version that exists
  pub referenced : (k : ℕ) → find_unique k versions ≡ none → signature_count k signatures ≡ 0
  -- a version is of a contract that exists
  pub owned : (id : ℕ) → find_unique id contracts ≡ none → latest_key id versions ≡ none
  -- no party signs a version twice
  pub once : (k : ℕ) (party : DealParty) → party_count k party signatures ≤ 1
  -- the status of every contract fits its latest version
  pub fits : (id : ℕ) → ContractFits (find_unique id contracts) (latest_key id versions) signatures

abbrev pub IsSound : ContractsDb → Type 0
IsSound s = IsConsistent s.contracts s.versions s.signatures

unsigned_fits :
    (n : ℕ) (status : AgreementStatus)
    → n ≡ 0
    → status ≢ AgreementStatus.executed
    → StatusFits status n
unsigned_fits n AgreementStatus.draft e h = e
unsigned_fits n AgreementStatus.awaiting_signature e h = e
unsigned_fits n AgreementStatus.partially_signed e h = omega arith
unsigned_fits n AgreementStatus.executed e h = absurd (h refl)
unsigned_fits n AgreementStatus.voided e h = tt

fits_by :
    {found : Option Contract} {latest : Option (ℕ × ℕ)} (f : Option Contract) (l : Option (ℕ × ℕ))
    (gs : Table ContractSignature)
    → found ≡ f
    → latest ≡ l
    → ContractFits f l gs
    → ContractFits found latest gs
fits_by f l gs p q h = rw (p, q) h

pub one_more :
    (k key : ℕ) (g : ContractSignature) (gs : Table ContractSignature)
    → g.contract_version_id ≡ k
    → signature_count k (create key g gs) ≡ suc (signature_count k gs)
one_more k key g gs h = ground arith

not_more :
    (j k key : ℕ) (g : ContractSignature) (gs : Table ContractSignature)
    → g.contract_version_id ≡ k
    → j ≢ k
    → signature_count j (create key g gs) ≡ signature_count j gs
not_more j k key g gs h ne = ground arith

-- A signature under version `k` matters only to the contract whose latest version is `k`.
fits_other :
    (k key : ℕ) (g : ContractSignature) (gs : Table ContractSignature) (found : Option Contract)
    (latest : Option (ℕ × ℕ))
    → g.contract_version_id ≡ k
    → ((j m : ℕ) → latest ≡ some (j, m) → j ≢ k)
    → ContractFits found latest gs
    → ContractFits found latest (create key g gs)
fits_other k key g gs none latest of_k ne h = tt
fits_other k key g gs (some c) none of_k ne h = h
fits_other k key g gs (some c) (some (j, m)) of_k ne h =
    rw (not_more j k key g gs of_k (ne j m refl)) h

module _ {cs : Table Contract} {vs : Table ContractVersion} {gs : Table ContractSignature}
    (h : IsConsistent cs vs gs) where
  -- A write to one contract keeps the invariant if its new status fits.
  pub set_contract-IsConsistent :
      (id : ℕ) (f : Contract → Contract) (c : Contract)
      → find_unique id cs ≡ some c
      → LatestFits (f c).status (latest_key id vs) gs
      → IsConsistent (update id f cs) vs gs
  set_contract-IsConsistent id f c e fit = record {
    keyed = h.keyed;
    referenced = h.referenced;
    owned = λ i gone.
        h.owned i
          (ground (arith, find_unique-update_self id f cs c, find_unique-update_ne i id f cs));
    once = h.once;
    fits = λ i. elim (ℕ_discrete i id) [
      | yes same ↦ rw (same, find_unique-update_self id f cs c e) fit
      | no other ↦ rw (find_unique-update_ne i id f cs other) (h.fits i)
    ];
  }

  -- A new version without signatures fits every status but `executed`.
  pub next_version-IsConsistent :
      (id key j n : ℕ) (v : ContractVersion) (c : Contract)
      → find_unique key vs ≡ none
      → find_unique id cs ≡ some c
      → latest_key id vs ≡ some (j, n)
      → c.status ≢ AgreementStatus.executed
      → v.contract_id ≡ id
      → v.version_number ≡ n + 1
      → IsConsistent cs (create key v vs) gs
  next_version-IsConsistent id key j n v c fresh e latest not_executed of_id number = record {
    keyed = (fresh, h.keyed);
    referenced = λ k gone. h.referenced k (ground arith);
    owned = λ i gone. ground (arith, h.owned i, latest_key-create_other i key v vs);
    once = h.once;
    fits = λ i. elim (ℕ_discrete i id) [
      | yes same ↦
          rw (same, e, latest_key-create_next id key v vs j n of_id latest number)
            (unsigned_fits _ c.status (h.referenced key fresh) not_executed)
      | no other ↦ rw (latest_key-create_other i key v vs (λ p. other (sym p ∙ of_id))) (h.fits i)
    ];
  }

  -- A new contract comes with its first version.
  pub first_version-IsConsistent :
      (id key : ℕ) (v : ContractVersion) (c : Contract)
      → find_unique key vs ≡ none
      → find_unique id cs ≡ none
      → c.status ≡ AgreementStatus.draft
      → v.contract_id ≡ id
      → IsConsistent (create id c cs) (create key v vs) gs
  first_version-IsConsistent id key v c fresh new draft of_id = record {
    keyed = (fresh, h.keyed);
    referenced = λ k gone. h.referenced k (ground arith);
    owned = λ i gone. ground (arith, h.owned i, latest_key-create_other i key v vs);
    once = h.once;
    fits = λ i. elim (ℕ_discrete i id) [
      | yes same ↦
          subst
            (λ i. ContractFits (find_unique i (create id c cs)) (latest_key i (create key v vs)) gs)
            (sym same)
            (fits_by _ _ gs (find_unique-create_self id c cs)
              (latest_key-create_first id key v vs of_id (h.owned id new))
              (unsigned_fits _ c.status (h.referenced key fresh) (λ e. ground arith)))
      | no other ↦
          fits_by _ _ gs (find_unique-create_ne i id c cs other)
            (latest_key-create_other i key v vs (λ p. other (sym p ∙ of_id))) (h.fits i)
    ];
  }

  -- Storing the name of the rendered file.
  pub set_pdf-IsConsistent :
      (key : ℕ) (filename : Option String) → IsConsistent cs (update key (set_pdf filename) vs) gs
  set_pdf-IsConsistent key filename = record {
    keyed = IsKeyed-update key filename vs h.keyed;
    referenced =
        λ k gone. h.referenced k (find_unique-none_of_update k key (set_pdf filename) vs gone);
    owned = λ i gone. rw (latest_key-update i key filename vs) (h.owned i gone);
    once = h.once;
    fits = λ i. rw (latest_key-update i key filename vs) (h.fits i);
  }

  -- A party that has not signed the latest version signs it.
  pub sign-IsConsistent :
      (id key k n : ℕ) (f : Contract → Contract) (g : ContractSignature) (c : Contract)
      → find_unique id cs ≡ some c
      → latest_key id vs ≡ some (k, n)
      → g.contract_version_id ≡ k
      → party_count k g.party gs ≡ 0
      → StatusFits (f c).status (suc (signature_count k gs))
      → IsConsistent (update id f cs) vs (create key g gs)
  sign-IsConsistent id key k n f g c e latest of_k unsigned fit = record {
    keyed = h.keyed;
    referenced = λ j gone.
        ground (arith, h.referenced j gone, contract_of-latest_key id k n vs h.keyed latest);
    owned = λ i gone.
        h.owned i
          (ground (arith, find_unique-update_self id f cs c, find_unique-update_ne i id f cs));
    once = λ j party. ground (arith, h.once j party);
    fits = λ i. elim (ℕ_discrete i id) [
      | yes same ↦
          rw (same, find_unique-update_self id f cs c e, latest, one_more k key g gs of_k) fit
      | no other ↦ rw (find_unique-update_ne i id f cs other) (
          fits_other k key g gs (find_unique i cs) (latest_key i vs) of_k
            (λ j m l. ground (
              arith,
              contract_of-latest_key i j m vs h.keyed l,
              contract_of-latest_key id k n vs h.keyed latest,
            ))
            (h.fits i))
    ];
  }
