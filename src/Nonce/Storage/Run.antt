-- ===== src/Nonce/Storage/Run.antt =====
-- The next nonce of a sender: the loop over its reservations has enough rounds, and finds the first
-- nonce that is free.
use mathlib.Core.Path.{subst}
use xian_abci.Nonce.Tracker.{next_of}
use xian_abci.Prelude.{
  ℕ, zero, suc, ◌≤◌, ◌≡◌, true, false, if◌then◌else◌, ◌==◌, Bool-cases, inl, inr, length, refl,
  Option, none, some, [], ◌∷◌, arith, String,
}
use xian_abci.Prelude.Int.{
  ℤ, pos, ltb_ℤ, ◌+ℤ◌, ◌<ℤ◌, ◌≤ℤ◌, int_eq, int_laws, eqb_ℤ_iff, eq_of_parts,
}
use xian_abci.Prelude.Dict.{lookup, contains}
use xian_abci.Nonce.Storage.{
  Settings, Reservations, Pending, advance, or_minus_one, latest_pending, of_sender,
  prune_pending_for_sender, get_pending_nonce, get_next_nonce, or_else,
}

-- The reservations above a nonce.
count_above : ℤ → Reservations → ℕ
count_above n [] = 0
count_above n ((i, r) ∷ d) = if ltb_ℤ n i then suc (count_above n d) else count_above n d

count_above-le-length : (n : ℤ) (d : Reservations) → count_above n d ≤ length d
unfolding count_above
count_above-le-length n [] = omega arith
count_above-le-length n ((i, r) ∷ d) = ground (arith, count_above-le-length n d)

ltb_true : (n i : ℤ) → n <ℤ i → ltb_ℤ n i ≡ true
ltb_true n i h = ground arith

lt_of_ltb : (n i : ℤ) → ltb_ℤ n i ≡ true → n <ℤ i
lt_of_ltb n i h = ground arith

le_of_ltb : (n i : ℤ) → ltb_ℤ n i ≡ false → i ≤ℤ n
le_of_ltb n i h = ground arith

after_next : (n i : ℤ) → ltb_ℤ (n +ℤ pos 1) i ≡ true → ltb_ℤ n i ≡ true
after_next n i h = ltb_true n i (omega (int_laws, lt_of_ltb (n +ℤ pos 1) i h))

not_after_self : (n : ℤ) → ltb_ℤ n n ≡ false
not_after_self n = ground arith

next_after : (n : ℤ) → ltb_ℤ n (n +ℤ pos 1) ≡ true
next_after n = ltb_true n (n +ℤ pos 1) (omega int_laws)

count_above_mono : (n : ℤ) (d : Reservations) → count_above (n +ℤ pos 1) d ≤ count_above n d
unfolding count_above
count_above_mono n [] = omega arith
count_above_mono n ((i, r) ∷ d) = ground (arith, after_next n i, count_above_mono n d)

count_above-next :
    (n : ℤ) (d : Reservations)
    → contains (n +ℤ pos 1) d ≡ true
    → suc (count_above (n +ℤ pos 1) d) ≤ count_above n d
unfolding count_above lookup
count_above-next n [] h = cc
count_above-next n ((i, r) ∷ d) h = elim (Bool-cases (i == n +ℤ pos 1)) [
  | inl e ↦
      let same : i ≡ n +ℤ pos 1 = (eqb_ℤ_iff i (n +ℤ pos 1)).0 e in
      rw (same, next_after n, not_after_self (n +ℤ pos 1)) (omega (arith, count_above_mono n d))
  | inr ne ↦ ground (arith, after_next n i, count_above-next n d)
]

next_eq : (n i : ℤ) → n <ℤ i → ltb_ℤ (n +ℤ pos 1) i ≡ false → n +ℤ pos 1 ≡ i
next_eq n i h ge = eq_of_parts (n +ℤ pos 1) i (omega (int_laws, le_of_ltb (n +ℤ pos 1) i ge))

-- With a round for each reservation above the start, the loop ends at a nonce whose successor is
-- free.
advance-free :
    (fuel : ℕ) (n : ℤ) (d : Reservations)
    → count_above n d ≤ fuel
    → contains (advance fuel n d +ℤ pos 1) d ≡ false
unfolding advance
advance-free zero n d h = elim (Bool-cases (contains (n +ℤ pos 1) d)) [
  | inl more ↦ absurd (omega (arith, count_above-next n d more))
  | inr stop ↦ stop
]
advance-free (suc fuel) n d h = elim (Bool-cases (contains (n +ℤ pos 1) d)) [
  | inl more ↦
      rw (more, contains)
        (advance-free fuel (n +ℤ pos 1) d (omega (arith, count_above-next n d more)))
  | inr stop ↦ rw (stop, contains) stop
]

-- It never goes back, and has seen a reservation at every nonce on its way.
abbrev Run : ℤ → ℤ → Reservations → Type 0
Run n m d = (n ≤ℤ m) × ((i : ℤ) → n <ℤ i → i ≤ℤ m → contains i d ≡ true)

Run-next :
    (n m : ℤ) (d : Reservations) → contains (n +ℤ pos 1) d ≡ true → Run (n +ℤ pos 1) m d → Run n m d
Run-next n m d here rest = (
  omega (int_laws, rest.0),
  λ i after upto. elim (Bool-cases (ltb_ℤ (n +ℤ pos 1) i)) [
    | inl later ↦ rest.1 i (lt_of_ltb (n +ℤ pos 1) i later) upto
    | inr now ↦ subst (λ j. contains j d ≡ true) (next_eq n i after now) here
  ],
)

advance-Run : (fuel : ℕ) (n : ℤ) (d : Reservations) → Run n (advance fuel n d) d
unfolding advance
advance-Run zero n d = (omega arith, λ i a b. absurd (omega arith))
advance-Run (suc fuel) n d = elim (Bool-cases (contains (n +ℤ pos 1) d)) [
  | inl more ↦
      rw (more, contains)
        (Run-next n (advance fuel (n +ℤ pos 1) d) d more (advance-Run fuel (n +ℤ pos 1) d))
  | inr stop ↦ rw (stop, contains) (omega arith, λ i a b. absurd (omega arith))
]

-- `e` is the first nonce above `n` that is not reserved.
abbrev pub FirstFree : ℤ → Reservations → ℤ → Type 0
FirstFree n d e =
    (n <ℤ e) × (contains e d ≡ false) × ((i : ℤ) → n <ℤ i → i <ℤ e → contains i d ≡ true)

FirstFree-advance : (n : ℤ) (d : Reservations) → FirstFree n d (advance (length d) n d +ℤ pos 1)
FirstFree-advance n d =
    let run = advance-Run (length d) n d in
    (
      omega (int_laws, run.0),
      advance-free (length d) n d (count_above-le-length n d),
      λ i after before. run.1 i after (omega (int_laws, before)),
    )

next_committed : (c : Option ℤ) → next_of c ≡ or_minus_one c +ℤ pos 1
unfolding ◌+ℤ◌
next_committed none = refl
next_committed (some n) = refl

next-FirstFree :
    (c : Option ℤ) (d : Reservations)
    → FirstFree (or_minus_one c) d (next_of (or_else c (latest_pending (or_minus_one c) d)))
next-FirstFree c [] =
    rw (next_committed c) (omega int_laws, unfold lookup in refl, λ i a b. absurd (omega int_laws))
next-FirstFree c (e ∷ d) =
    let latest = advance (length (e ∷ d)) (or_minus_one c) (e ∷ d) in
    elim (Bool-cases (latest == or_minus_one c)) [
      | inl same ↦
          let here : FirstFree (or_minus_one c) (e ∷ d) (or_minus_one c +ℤ pos 1) =
            subst (λ m. FirstFree (or_minus_one c) (e ∷ d) (m +ℤ pos 1))
              ((eqb_ℤ_iff latest (or_minus_one c)).0 same)
              (FirstFree-advance (or_minus_one c) (e ∷ d)) in
          rw (same, next_committed c) here
      | inr further ↦ rw further (FirstFree-advance (or_minus_one c) (e ∷ d))
    ]

module _ (settings : Settings) (committed_nonce : String → Option ℤ) where
  -- The next nonce of a sender is the first one above its committed nonce (from 0 where there is
  -- none) that is not reserved, once the expired reservations are gone.
  pub get_next_nonce-FirstFree :
      (now : ℤ) (sender : String) (p : Pending)
      → FirstFree
          (or_minus_one (committed_nonce sender))
          (of_sender sender (get_next_nonce settings committed_nonce now sender p).1)
          (get_next_nonce settings committed_nonce now sender p).0
  unfolding get_next_nonce get_pending_nonce
  get_next_nonce-FirstFree now sender p =
      next-FirstFree (committed_nonce sender)
        (of_sender sender (prune_pending_for_sender settings now sender p))
