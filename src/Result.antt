-- ===== src/Result.antt =====
-- Exceptions as values. src/xian/exceptions.py has `TransactionException`; the other kinds are
-- Python's own. A message is kept as far as it tells one refusal from another.
use mathlib.Core.Path.{subst}
use xian_abci.Prelude.{ℕ, String, Bool, true, false, not, ◌≡◌, refl, ◌⊎◌, inl, inr}
use xian_abci.Prelude.Int.{ℤ}

-- The refusals of `TransactionException`.
pub data Reason : Type 0 where
  unexpected_keys wrong_format : Reason
  metadata_missing metadata_count payload_missing payload_keys : Reason
  payload_key_missing : String → Reason
  bad_signature wrong_chain_id contract_name : Reason
  payload_not_dict chi_invalid chi_not_positive : Reason
  tx_chi_limit block_chi_limit : ℤ → Reason
  -- expected, got nothing equal to it
  nonce_invalid : ℤ → Reason
  too_many_pending too_few_chi : Reason
  balance_lookup chi_lookup : Reason
  too_many_bytes : ℕ → Reason
  native_refusal : Reason

pub data Failure : Type 0 where
  transaction : Reason → Failure
  value_error type_error key_error attribute_error overflow_error : Failure
  -- raised by code outside the repository
  foreign : String → Failure

pub data Except {ℓ} (A : Type ℓ) : Type ℓ where
  ok : A → Except A
  err : Failure → Except A

module _ {ℓ κ} {A : Type ℓ} {B : Type κ} where
  infixl 5 ◌>>=◌
  -- A failure skips what follows.
  abbrev pub ◌>>=◌ : Except A → (A → Except B) → Except B
  err failure >>= next = err failure
  ok result >>= next = next result

infixl 5 ◌>>◌
abbrev pub ◌>>◌ {κ} : {B : Type κ} → Except (Unit {0}) → Except B → Except B
first >> second = first >>= λ _. second

-- `if test: raise failure`.
abbrev pub raise_if : Bool → Failure → Except (Unit {0})
raise_if true e = err e
raise_if false e = ok tt

module _ {ℓ} {A : Type ℓ} where
  pub Except-cases : (r : Except A) → ((e : Failure) × (r ≡ err e)) ⊎ ((x : A) × (r ≡ ok x))
  Except-cases (err e) = inl (e, refl)
  Except-cases (ok x) = inr (x, refl)

  -- Where a chain has succeeded, so has its first step.
  pub >>=-eq-ok {κ} :
      {B : Type κ} (r : Except A) (next : A → Except B) {y : B}
      → (r >>= next) ≡ ok y
      → (x : A) × (r ≡ ok x) × (next x ≡ ok y)
  >>=-eq-ok (err failure) next h = cc
  >>=-eq-ok (ok x) next h = (x, refl, h)

pub ok_injective {ℓ} : {A : Type ℓ} {a b : A} → ok a ≡ ok b → a ≡ b
ok_injective h = cc

-- A test that has not raised has failed.
pub raise_if-ok : (b : Bool) (e : Failure) {r : Unit {0}} → raise_if b e ≡ ok r → b ≡ false
raise_if-ok true e h = cc
raise_if-ok false e h = refl

pub raise_unless-ok : (b : Bool) (e : Failure) {r : Unit {0}} → raise_if (not b) e ≡ ok r → b ≡ true
raise_unless-ok true e h = refl
raise_unless-ok false e h = cc

-- What a result has where there is one.
abbrev pub Holds {ℓ κ} : {A : Type ℓ} → (A → Type κ) → Except A → Type κ
Holds P (err e) = Unit
Holds P (ok x) = P x

-- A chain, step by step: what a step has is given to the next.
pub Holds->>= {ℓ κ μ ν} :
    {A : Type ℓ} {B : Type κ} {Q : A → Type μ} (P : B → Type ν) (r : Except A) (next : A → Except B)
    → Holds Q r
    → ((x : A) → Q x → Holds P (next x))
    → Holds P (r >>= next)
Holds->>= P (err e) next q h = tt
Holds->>= P (ok x) next q h = h x q

pub Holds-raise_if : (b : Bool) (e : Failure) → Holds (λ _. b ≡ false) (raise_if b e)
Holds-raise_if true e = tt
Holds-raise_if false e = refl

pub Holds-raise_unless : (b : Bool) (e : Failure) → Holds (λ _. b ≡ true) (raise_if (not b) e)
Holds-raise_unless true e = refl
Holds-raise_unless false e = tt

pub Holds-any {ℓ} : {A : Type ℓ} (r : Except A) → Holds (λ x. r ≡ ok x) r
Holds-any (err e) = tt
Holds-any (ok x) = refl

pub Holds-eq {ℓ κ} :
    {A : Type ℓ} (P : A → Type κ) {r : Except A} {x : A} → Holds P r → r ≡ ok x → P x
Holds-eq P h e = subst (Holds P) e h

pub Holds-imp {ℓ κ μ} :
    {A : Type ℓ} {Q : A → Type κ} (P : A → Type μ) (r : Except A)
    → Holds Q r
    → ((x : A) → Q x → P x)
    → Holds P r
Holds-imp P (err e) q h = tt
Holds-imp P (ok x) q h = h x q
