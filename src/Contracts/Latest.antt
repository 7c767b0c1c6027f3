-- ===== src/Contracts/Latest.antt =====
-- The latest version of a contract, as its key and number, under the writes of the services.
use collabos_backend.Base.{ℕ, ◌+◌, ◌≡◌, refl, ◌≢◌, Option, none, some, [], ◌∷◌, String, arith}
use collabos_backend.Prisma.{Table, find_unique, create, update, find_unique-update-none}
use collabos_backend.Schema.Agreements.{ContractVersion}
use collabos_backend.Contracts.State.{latest_version}

-- No two rows have one key.
abbrev pub IsKeyed : Table ContractVersion → Type 0
IsKeyed [] = Unit
IsKeyed ((k, _) ∷ t) = (find_unique k t ≡ none) × IsKeyed t

abbrev pub key_and_number : Option (ℕ × ContractVersion) → Option (ℕ × ℕ)
key_and_number none = none
key_and_number (some (k, v)) = some (k, v.version_number)

abbrev pub latest_key : ℕ → Table ContractVersion → Option (ℕ × ℕ)
latest_key id t = key_and_number (latest_version id t)

pub latest_key-create_other :
    (id k : ℕ) (v : ContractVersion) (t : Table ContractVersion)
    → v.contract_id ≢ id
    → latest_key id (create k v t) ≡ latest_key id t
unfolding latest_version
latest_key-create_other id k v t h = ground arith

pub latest_key-create_next :
    (id k : ℕ) (v : ContractVersion) (t : Table ContractVersion) (j n : ℕ)
    → v.contract_id ≡ id
    → latest_key id t ≡ some (j, n)
    → v.version_number ≡ n + 1
    → latest_key id (create k v t) ≡ some (k, n + 1)
unfolding latest_version
latest_key-create_next id k v t j n h e m = ground arith

pub latest_key-create_first :
    (id k : ℕ) (v : ContractVersion) (t : Table ContractVersion)
    → v.contract_id ≡ id
    → latest_key id t ≡ none
    → latest_key id (create k v t) ≡ some (k, v.version_number)
unfolding latest_version
latest_key-create_first id k v t h e = ground arith

abbrev pub set_pdf : Option String → ContractVersion → ContractVersion
set_pdf filename v = record v { pdf_filename = filename }

pub latest_key-update :
    (id k : ℕ) (filename : Option String) (t : Table ContractVersion)
    → latest_key id (update k (set_pdf filename) t) ≡ latest_key id t
unfolding latest_version
latest_key-update id k filename [] = refl
latest_key-update id k filename ((j, v) ∷ t) = ground (arith, latest_key-update id k filename t)

update_absent :
    (k : ℕ) (f : ContractVersion → ContractVersion) (t : Table ContractVersion)
    → find_unique k t ≡ none
    → update k f t ≡ t
update_absent k f [] h = refl
update_absent k f ((j, v) ∷ t) h = ground (arith, h, update_absent k f t)

-- A version of another contract, under a key of its own, leaves the latest version's row alone,
pub latest_version-create_other :
    (id k : ℕ) (v : ContractVersion) (t : Table ContractVersion)
    → v.contract_id ≢ id
    → latest_version id (create k v t) ≡ latest_version id t
unfolding latest_version
latest_version-create_other id k v t h = ground arith

-- and so does the name of its file.
pub latest_version-attach_other :
    (id k : ℕ) (filename : Option String) (v : ContractVersion) (t : Table ContractVersion)
    → v.contract_id ≢ id
    → find_unique k t ≡ none
    → latest_version id (update k (set_pdf filename) (create k v t)) ≡ latest_version id t
unfolding latest_version
latest_version-attach_other id k filename v t h fresh =
    ground (arith, h, fresh, update_absent k (set_pdf filename) t)

pub IsKeyed-update :
    (k : ℕ) (filename : Option String) (t : Table ContractVersion)
    → IsKeyed t
    → IsKeyed (update k (set_pdf filename) t)
IsKeyed-update k filename [] h = tt
IsKeyed-update k filename ((j, v) ∷ t) h =
    ground (arith, IsKeyed-update k filename t, find_unique-update-none j k (set_pdf filename) t)

-- The contract that a version belongs to.
abbrev pub contract_of : ℕ → Table ContractVersion → Option ℕ
contract_of k t = elim (find_unique k t) [ none ↦ none | some v ↦ some v.contract_id ]

-- The latest version is a row of the table, and it belongs to the contract.
pub contract_of-latest_key :
    (id k n : ℕ) (t : Table ContractVersion)
    → IsKeyed t
    → latest_key id t ≡ some (k, n)
    → contract_of k t ≡ some id
unfolding latest_version
contract_of-latest_key id k n [] h e = ground arith
contract_of-latest_key id k n ((j, v) ∷ t) h e = ground (arith, contract_of-latest_key id k n t h.1)
