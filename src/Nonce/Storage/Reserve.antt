-- ===== src/Nonce/Storage/Reserve.antt =====
-- The reservation of a nonce by CheckTx: what it writes, what it keeps and how much it can hold.
use text.Mathlib.TextEquality.{eq_iff}
use xian_abci.Prelude.{
  suc, leb, ◌≤◌, ◌≡◌, String, true, false, if◌then◌else◌, ◌==◌, string_eq, Bool-cases, inl, inr,
  ◌⊎◌, length, refl, beq_refl, Option, none, some, Option-cases, [], ◌∷◌, arith,
}
use xian_abci.Prelude.Int.{ℤ, int_eq}
use xian_abci.Prelude.Dict.{lookup, insert, lookup-insert}
use xian_abci.Result.{Except, ok, err, Failure, transaction, nonce_invalid, too_many_pending}
use xian_abci.Value.{Value}
use xian_abci.Nonce.Storage.{
  Settings, NonceReservation, Reservations, Pending, of_sender, prune_pending_for_sender,
  get_pending_nonce, get_next_nonce, set_reservation, reserve_next, check_sender_nonce, check_key,
  check_read, check_nonce, is_nonce, is_reserved_for, lookup_nonce, read_nonce, nonce_key,
}
use xian_abci.Nonce.Storage.Pruning.{length-prune}

-- The dict holds the nonce for the transaction.
abbrev pub HeldFor : String → ℤ → Reservations → Type 0
HeldFor tx_hash n d = (r : NonceReservation) × (lookup n d ≡ some r) × (r.tx_hash ≡ tx_hash)

length-insert :
    (n : ℤ) (r : NonceReservation) (d : Reservations) → length (insert n r d) ≤ suc (length d)
unfolding insert
length-insert n r [] = omega arith
length-insert n r ((j, q) ∷ d) = ground (arith, length-insert n r d)

length-insert_known :
    (n : ℤ) (r q : NonceReservation) (d : Reservations)
    → lookup n d ≡ some q
    → length (insert n r d) ≡ length d
unfolding insert lookup
length-insert_known n r q [] h = cc
length-insert_known n r q ((j, _) ∷ d) h = ground (arith, length-insert_known n r q d)

module _ (settings : Settings) (committed_nonce : String → Option ℤ) where
  pub of_sender-set :
      (s i : String) (n : ℤ) (tx_hash : String) (now : ℤ) (p : Pending)
      → of_sender i (set_reservation settings committed_nonce s n tx_hash now p) ≡ (
          if s == i
          then insert n (record { tx_hash = tx_hash; reserved_at = now }) (of_sender s p)
          else of_sender i p)
  of_sender-set s i n tx_hash now p = ground (
    arith,
    lookup-insert s i (insert n (record { tx_hash = tx_hash; reserved_at = now }) (of_sender s p))
        p,
  )

  -- No sender holds more reservations than the limit.
  pub record IsBounded (p : Pending) : Type 0 where
    pub within : (i : String) → length (of_sender i p) ≤ settings.max_pending_nonces_per_sender

  prune-IsBounded :
      (now : ℤ) (s : String) (p : Pending)
      → IsBounded p
      → IsBounded (prune_pending_for_sender settings now s p)
  prune-IsBounded now s p h = record {
    within = λ i. omega (arith, h.within i, length-prune settings now s i p);
  }

  -- `get_next_nonce` changes nothing but the pruning.
  get_next_nonce-prune :
      (now : ℤ) (s : String) (p : Pending)
      → (get_next_nonce settings committed_nonce now s p).1
        ≡ prune_pending_for_sender settings now s p
  unfolding get_next_nonce get_pending_nonce
  get_next_nonce-prune now s p = refl

  -- How a reservation ends: a refusal, or the entry for the next nonce.
  pub reserve_next-cases :
      (now later : ℤ) (s : String) (tx_nonce : Option ℤ) (tx_hash : String) (p : Pending)
      → let (expected, p') = get_next_nonce settings committed_nonce now s p in
        let result = reserve_next settings committed_nonce now later s tx_nonce tx_hash p in
        ((e : Failure) × (result ≡ (err e, p')))
        ⊎ ((result ≡ (ok tt, set_reservation settings committed_nonce s expected tx_hash later p'))
            × (is_nonce tx_nonce expected ≡ true)
            × (leb settings.max_pending_nonces_per_sender (length (of_sender s p')) ≡ false))
  unfolding reserve_next
  reserve_next-cases now later s tx_nonce tx_hash p =
      let (expected, p') = get_next_nonce settings committed_nonce now s p in
      elim (Bool-cases (is_nonce tx_nonce expected)) [
        | inr wrong ↦ inl (transaction (nonce_invalid expected), rw wrong)
        | inl right ↦
            elim (Bool-cases
              (leb settings.max_pending_nonces_per_sender (length (of_sender s p')))) [
                | inl full ↦ inl (transaction too_many_pending, rw (right, full))
                | inr room ↦ inr (rw (right, room), right, room)
              ]
      ]

  reserve_next-IsBounded :
      (now later : ℤ) (s : String) (tx_nonce : Option ℤ) (tx_hash : String) (p : Pending)
      → IsBounded p
      → IsBounded (reserve_next settings committed_nonce now later s tx_nonce tx_hash p).1
  reserve_next-IsBounded now later s tx_nonce tx_hash p h =
      let (expected, p') = get_next_nonce settings committed_nonce now s p in
      let pruned : IsBounded p' =
        unfold get_next_nonce get_pending_nonce in prune-IsBounded now s p h in
      elim (reserve_next-cases now later s tx_nonce tx_hash p) [
        | inl (e, refused) ↦ rw refused pruned
        | inr (reserved, right, room) ↦ rw reserved (record {
          within = λ i. ground (
            arith,
            of_sender-set s i expected tx_hash later p',
            length-insert expected (record { tx_hash = tx_hash; reserved_at = later })
                (of_sender s p'),
            pruned.within i,
          );
        })
      ]

  -- A transaction that already holds its nonce.
  held_cases :
      (s : String) (tx_nonce : Option ℤ) (tx_hash : String) (p : Pending)
      → (is_reserved_for settings committed_nonce tx_hash (lookup_nonce tx_nonce (of_sender s p))
          ≡ false)
        ⊎ ((n : ℤ) × (tx_nonce ≡ some n) × HeldFor tx_hash n (of_sender s p))
  held_cases s none tx_hash p = inl refl
  held_cases s (some n) tx_hash p = elim (Option-cases (lookup n (of_sender s p))) [
    | inl free ↦ inl (rw free)
    | inr (r, here) ↦ elim (Bool-cases (r.tx_hash == tx_hash)) [
      | inl own ↦ inr (n, refl, (r, here, (eq_iff r.tx_hash tx_hash).0 own))
      | inr other ↦ inl (rw (here, other))
    ]
  ]

  pub check_sender_nonce-cases :
      (now later : ℤ) (s : String) (tx_nonce : Option ℤ) (tx_hash : String) (p : Pending)
      → let result = check_sender_nonce settings committed_nonce now later s tx_nonce tx_hash p in
        (result ≡ reserve_next settings committed_nonce now later s tx_nonce tx_hash p)
        ⊎ ((n : ℤ) × (tx_nonce ≡ some n)
            × HeldFor tx_hash n (of_sender s p)
            × (result ≡ (ok tt, set_reservation settings committed_nonce s n tx_hash now p)))
  unfolding check_sender_nonce
  check_sender_nonce-cases now later s tx_nonce tx_hash p = elim (held_cases s tx_nonce tx_hash p) [
    | inl free ↦ inl (rw free)
    | inr (n, is_n, (r, here, own)) ↦
        inr (n, is_n, (r, here, own), rw (is_n, here, own, beq_refl tx_hash))
  ]

  check_sender_nonce-IsBounded :
      (now later : ℤ) (s : String) (tx_nonce : Option ℤ) (tx_hash : String) (p : Pending)
      → IsBounded p
      → IsBounded (check_sender_nonce settings committed_nonce now later s tx_nonce tx_hash p).1
  check_sender_nonce-IsBounded now later s tx_nonce tx_hash p h =
      elim (check_sender_nonce-cases now later s tx_nonce tx_hash p) [
        | inl free ↦ rw free (reserve_next-IsBounded now later s tx_nonce tx_hash p h)
        | inr (n, is_n, (r, here, own), renewed) ↦ rw renewed (record {
          within = λ i. ground (
            arith,
            of_sender-set s i n tx_hash now p,
            length-insert_known n (record { tx_hash = tx_hash; reserved_at = now }) r
                (of_sender s p) here,
            eq_iff s i,
            h.within i,
            h.within s,
          );
        })
      ]

  check_key-IsBounded :
      (now later : ℤ) (s tx_hash : String) (p : Pending) (key : Except (Option ℤ))
      → IsBounded p
      → IsBounded (check_key settings committed_nonce now later s tx_hash p key).1
  check_key-IsBounded now later s tx_hash p (err e) h = h
  check_key-IsBounded now later s tx_hash p (ok tx_nonce) h =
      check_sender_nonce-IsBounded now later s tx_nonce tx_hash p h

  check_read-IsBounded :
      (first now later : ℤ) (tx_hash : String) (p : Pending) (read : Except (Value × String))
      → IsBounded p
      → IsBounded (check_read settings committed_nonce first now later tx_hash p read).1
  check_read-IsBounded first now later tx_hash p (err e) h = h
  check_read-IsBounded first now later tx_hash p (ok (value, s)) h =
      check_key-IsBounded now later s tx_hash (prune_pending_for_sender settings first s p)
        (nonce_key value) (prune-IsBounded first s p h)

  -- Whatever `check_nonce` is given, and however it ends, no sender comes to hold more reservations
  -- than the limit, if none did before.
  pub check_nonce-IsBounded :
      (first now later : ℤ) (p : Pending) (tx : Value) (tx_hash : String)
      → IsBounded p
      → IsBounded (check_nonce settings committed_nonce first now later p tx tx_hash).1
  unfolding check_nonce
  check_nonce-IsBounded first now later p tx tx_hash h =
      check_read-IsBounded first now later tx_hash p (read_nonce tx) h
