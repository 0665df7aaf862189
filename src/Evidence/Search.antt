-- ===== src/Evidence/Search.antt =====
-- The search of src/xian/methods/_evidence.py for the validator with an address.
use mathlib.Core.Path.{subst}
use mathlib.Core.List.{Memᴰ}
use xian_abci.Prelude.{
  String, true, false, if◌then◌else◌, ◌≡◌, refl, sym, ap, ◌≢◌, ◌⊎◌, Option, none, some, List, All,
  ◌==◌, [], ◌∷◌, map, Bool-cases, inl, inr,
}
use xian_abci.Prelude.Bytes.{Bytes, bytes_eq}
use xian_abci.Prelude.Int.{ℤ, pos, int_eq}
use xian_abci.Result.{Except, ok, err}
use xian_abci.Value.{Value, str}
use xian_abci.Value.Number.{codes}
use xian_abci.Encoding.{from_hex}
use xian_abci.Evidence.Charge.{Punished, duplicate_vote, light_client_attack}
use xian_abci.Evidence.{
  validator_consensus_address, find_validator, is_address, first, digest_prefix,
}

is_address_lem :
    (consensus_address : Option Bytes) (validator_address : Bytes)
    → is_address consensus_address validator_address ≡ true
    → consensus_address ≡ some validator_address
is_address_lem none a h = cc
is_address_lem (some b) a h = ap some ((bytes_eq.same_iff b a).0 h)

is_address-some : (a : Bytes) → is_address (some a) a ≡ true
is_address-some a = (bytes_eq.same_iff a a).1 refl

pub unpunished :
    (type : ℤ) (t : String) → (type == pos 1) ≡ false → (type == pos 2) ≡ false → ¬ Punished type t
unpunished _ _ e f duplicate_vote = cc
unpunished _ _ e f light_client_attack = cc

module _ (sha256 : Bytes → Bytes) where
  -- The address of a key: the first 20 bytes of the digest of its bytes.
  abbrev pub HasAddress : String → Bytes → Type 0
  HasAddress validator_key address =
      (key : Bytes) × (from_hex (codes validator_key) ≡ ok key) × (first 20 (sha256 key) ≡ address)

  pub digest_prefix_lem :
      (r : Except Bytes) (address : Bytes)
      → digest_prefix sha256 r ≡ some address
      → (key : Bytes) × (r ≡ ok key) × (first 20 (sha256 key) ≡ address)
  digest_prefix_lem (err e) address h = cc
  digest_prefix_lem (ok key) address h = (key, refl, cc)

  -- The search gives a listed key with the address.
  pub find_validator_lem :
      (a : Bytes) (known : List Value) (k : String)
      → find_validator sha256 a known ≡ ok (some k)
      → Memᴰ (str k) known × (validator_consensus_address sha256 k ≡ some a)
  unfolding find_validator
  find_validator_lem a [] k h = cc
  find_validator_lem a (str j ∷ known) k h =
      let address = validator_consensus_address sha256 j in
      let rest = find_validator sha256 a known in
      elim (Bool-cases (is_address address a)) [
        | inl e ↦
            let same : j ≡ k =
              cc (subst (λ b. (if b then ok (some j) else rest) ≡ ok (some k)) e h) in
            (
              Memᴰ.head (ap str (sym same)),
              subst (λ i. validator_consensus_address sha256 i ≡ some a) same
                  (is_address_lem address a e),
            )
        | inr e ↦
            let (listed, same) =
              find_validator_lem a known k
                (subst (λ b. (if b then ok (some j) else rest) ≡ ok (some k)) e h) in
            (Memᴰ.tail listed, same)
      ]
  find_validator_lem a (_ ∷ known) k h = cc

  -- Where all keys are texts, the search finds one with the address, or none has it.
  pub find_validator-decides :
      (a : Bytes) (known : List String)
      → ((j : String) × (find_validator sha256 a (map str known) ≡ ok (some j)))
        ⊎ ((find_validator sha256 a (map str known) ≡ ok none)
            × All (λ k. validator_consensus_address sha256 k ≢ some a) known)
  unfolding find_validator
  find_validator-decides a [] = inr (refl, tt)
  find_validator-decides a (j ∷ known) =
      let address = validator_consensus_address sha256 j in
      elim (Bool-cases (is_address address a)) [
        | inl e ↦ inl (j, rw e refl)
        | inr e ↦ elim (find_validator-decides a known) [
          | inl (i, found) ↦ inl (i, rw e found)
          | inr (missing, others) ↦ inr (
            rw e missing,
            (λ same. cc (e, is_address-some a, ap (λ o. is_address o a) same), others),
          )
        ]
      ]
