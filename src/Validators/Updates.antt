-- ===== src/Validators/Updates.antt =====
-- The validator updates, as CometBFT applies them to the set that it has.
use xian_abci.Prelude.{
  ◌≡◌, ◌≢◌, refl, sym, ap, ◌∙◌, Bool, true, false, if◌then◌else◌, ◌==◌, Option, none, some, List,
  [], ◌∷◌, ◌++◌, Bool-cases, inl, inr, arith,
}
use xian_abci.Prelude.Bytes.{Bytes, bytes_eq, bytes_eqb_iff}
use xian_abci.Prelude.Int.{ℤ, pos, int_eq, eqb_ℤ_iff}
use xian_abci.Prelude.Dict.{lookup, insert, erase, contains, IsNodup, lookup-insert, lookup-erase}
use xian_abci.Result.{Except, ok, ok_injective, >>=-eq-ok}
use xian_abci.Validators.{
  Powers, ValidatorUpdate, Reads, is_power, effective, or_empty, changed, removed, changes,
  to_updates, get_validators_from_state, committed_validators, build_validator_updates,
}

-- One update: power 0 removes the validator.
abbrev pub apply_update : Bytes → ℤ → Powers → Powers
apply_update k p set = if p == pos 0 then erase k set else insert k p set

abbrev pub apply_updates : List (Bytes × ℤ) → Powers → Powers
apply_updates [] set = set
apply_updates ((k, p) ∷ updates) set = apply_updates updates (apply_update k p set)

apply_updates-++ :
    (us vs : List (Bytes × ℤ)) (set : Powers)
    → apply_updates (us ++ vs) set ≡ apply_updates vs (apply_updates us set)
apply_updates-++ [] vs set = refl
apply_updates-++ ((k, p) ∷ us) vs set = apply_updates-++ us vs (apply_update k p set)

-- Every validator has a voting power.
abbrev pub AllVote : Powers → Type 0
AllVote [] = Unit
AllVote ((k, p) ∷ d) = ((p == pos 0) ≡ false) × AllVote d

lookup-apply_update :
    (k i : Bytes) (p : ℤ) (set : Powers)
    → (p == pos 0) ≡ false
    → lookup i (apply_update k p set) ≡ (if k == i then some p else lookup i set)
lookup-apply_update k i p set votes = rw votes (lookup-insert k i p set)

-- The power after the updates for what has changed: an update of its own, or the one before.
abbrev after_changed : Option ℤ → Option ℤ → Option ℤ → Option ℤ
after_changed none current before = before
after_changed (some p) current before = if is_power current p then before else some p

lookup-changed :
    (committed state set : Powers) (i : Bytes)
    → IsNodup state
    → AllVote state
    → lookup i (apply_updates (changed committed state) set)
      ≡ after_changed (lookup i state) (lookup i committed) (lookup i set)
unfolding changed lookup
lookup-changed committed [] set i once votes = refl
lookup-changed committed ((k, p) ∷ state) set i once votes =
    elim (Bool-cases (is_power (lookup k committed) p)) [
      | inl same ↦ rw same (
          ground (
            arith,
            bytes_eqb_iff k i,
            ap (λ j. lookup j committed),
            ap (λ j. lookup j state),
            lookup-changed committed state set i once.1 votes.1,
          ))
      | inr new ↦ rw new (
          ground (
            arith,
            bytes_eqb_iff k i,
            lookup-changed committed state (apply_update k p set) i once.1 votes.1,
            lookup-apply_update k i p set votes.0,
          ))
    ]

lookup-removed :
    (state committed set : Powers) (i : Bytes)
    → lookup i (apply_updates (removed state committed) set) ≡ (
        if contains i state
        then lookup i set
        else (if contains i committed then none else lookup i set))
unfolding removed lookup
lookup-removed state [] set i = ground arith
lookup-removed state ((k, p) ∷ committed) set i = elim (Bool-cases (contains k state)) [
  | inl known ↦
      rw (known, contains)
        (ground (
          arith,
          bytes_eqb_iff k i,
          known,
          ap (λ j. lookup j state),
          lookup-removed state committed set i,
        ))
  | inr gone ↦
      rw (gone, contains)
        (ground (
          arith,
          bytes_eqb_iff k i,
          gone,
          ap (λ j. lookup j state),
          lookup-removed state committed (erase k set) i,
          lookup-erase k i set,
        ))
]

power_eq : (current : Option ℤ) (p : ℤ) → is_power current p ≡ true → current ≡ some p
power_eq none p h = cc
power_eq (some q) p h = ap some ((eqb_ℤ_iff q p).0 h)

after_changed_last :
    (wanted current : Option ℤ) → (wanted ≢ none) → after_changed wanted current current ≡ wanted
after_changed_last none current h = absurd (h refl)
after_changed_last (some p) current h = elim (Bool-cases (is_power current p)) [
  | inl same ↦ rw same (power_eq current p same)
  | inr new ↦ rw new refl
]

-- The updates bring one set to another.
pub record Brings (updates : List (Bytes × ℤ)) (committed state : Powers) : Type 0 where
  pub power_after : (i : Bytes) → lookup i (apply_updates updates committed) ≡ lookup i state

apply_updates-changes :
    (state committed : Powers) (i : Bytes)
    → IsNodup state
    → AllVote state
    → lookup i (apply_updates (changes state committed) committed) ≡ lookup i state
unfolding changes
apply_updates-changes state committed i once votes =
    let middle = apply_updates (changed committed state) committed in
    ap (lookup i) (apply_updates-++ (changed committed state) (removed state committed) committed)
    ∙ ground (
      arith,
      lookup-removed state committed middle i,
      lookup-changed committed state committed i once votes,
      after_changed_last (lookup i state) (lookup i committed),
    )

module _ {Power : Type 0} (is_not_positive : Power → Except Bool) (int_of : Power → Except ℤ) where
  -- Where the updates are built and every power of the resulting set is not 0, they stand for
  -- changes that bring the committed set to the resulting set: each validator of it has its power
  -- then, and no other validator is left. The resulting set has each key once.
  pub build_validator_updates-Brings :
      (reads on_disk : Reads is_not_positive int_of) (consensus : Option Powers) (state : Powers)
      (updates : List ValidatorUpdate)
      → build_validator_updates is_not_positive int_of reads on_disk consensus ≡ ok (state, updates)
      → IsNodup state
      → AllVote state
      → (committed : Powers) × (committed_validators is_not_positive int_of consensus on_disk
          ≡ ok committed)
        × (to_updates (changes state committed) ≡ ok updates)
        × Brings (changes state committed) committed state
  unfolding build_validator_updates
  build_validator_updates-Brings reads on_disk consensus state updates h once votes =
      let selected = >>=-eq-ok (get_validators_from_state is_not_positive int_of reads) _ h in
      let committed =
        >>=-eq-ok (committed_validators is_not_positive int_of consensus on_disk) _ selected.2 in
      let built =
        >>=-eq-ok (to_updates (changes (effective (or_empty selected.0) committed.0) committed.0)) _
          committed.2 in
      let same : effective (or_empty selected.0) committed.0 ≡ state =
        ap (λ (r : Powers × List ValidatorUpdate). r.0) (ok_injective built.2) in
      let all : built.0 ≡ updates =
        ap (λ (r : Powers × List ValidatorUpdate). r.1) (ok_injective built.2) in
      (
        committed.0,
        committed.1,
        ap (λ s. to_updates (changes s committed.0)) (sym same) ∙ (built.1 ∙ ap ok all),
        record { power_after = λ i. apply_updates-changes state committed.0 i once votes },
      )
