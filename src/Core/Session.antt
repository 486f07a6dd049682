-- ===== src/Core/Session.antt =====
-- app/core/db.py: a transaction, and `session_scope`, which commits it or rolls it back.
-- A `Tx` raises with no state: nothing that it wrote is kept. A `Proc` runs transactions: what
-- these committed stays committed when it raises.
use glacis.Base.{◌≡◌, refl, Bool, true, false}
use glacis.Core.Models.{Db}
use glacis.Core.Errors.{Error, Result, ok, raise}

abbrev pub Tx {ℓ} : Type ℓ → Type ℓ
Tx A = Db → Result (A × Db)

abbrev pub Proc {ℓ} : Type ℓ → Type ℓ
Proc A = Db → Result A × Db

abbrev pub commit_or_rollback {ℓ} : {A : Type ℓ} → Db → Result (A × Db) → Result A × Db
commit_or_rollback before (ok (a, after)) = (ok a, after)
commit_or_rollback before (raise e) = (raise e, before)

abbrev pub session_scope {ℓ} : {A : Type ℓ} → Tx A → Proc A
session_scope body db = commit_or_rollback db (body db)

-- raises unless the test passes
abbrev pub ensure : Bool → Error → Result (Unit {0})
ensure false e = raise e
ensure true e = ok tt

-- an exception ends the sequence
infixl 5 ◌>>=◌ ◌>>◌
abbrev pub ◌>>=◌ {ℓ κ} :
    {Before : Type ℓ} {After : Type κ} → Result Before → (Before → Result After) → Result After
raise e >>= rest = raise e
ok before >>= rest = rest before

abbrev pub ◌>>◌ {κ} : {After : Type κ} → Result (Unit {0}) → Result After → Result After
first >> rest = first >>= (λ done. rest)

-- both steps of a sequence that returns have returned
pub >>=-eq-ok {ℓ κ} :
    {Before : Type ℓ} {After : Type κ} (first : Result Before) (rest : Before → Result After)
    {after : After}
    → (first >>= rest) ≡ ok after
    → (before : Before) × (first ≡ ok before) × (rest before ≡ ok after)
>>=-eq-ok (raise e) rest returned = cc
>>=-eq-ok (ok before) rest returned = (before, refl, returned)
