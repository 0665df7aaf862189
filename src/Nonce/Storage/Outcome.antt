-- ===== src/Nonce/Storage/Outcome.antt =====
-- What CheckTx has reserved where it accepts a transaction.
use xian_abci.Prelude.{
  ◌≡◌, String, true, Option, none, some, string_eq, beq_refl, inl, inr, refl, ap,
}
use xian_abci.Prelude.Int.{ℤ, int_eq, eqb_ℤ_iff}
use xian_abci.Prelude.Dict.{lookup-insert}
use xian_abci.Result.{Except, ok, err}
use xian_abci.Value.{Value}
use xian_abci.Nonce.Storage.{
  Settings, NonceReservation, Pending, of_sender, prune_pending_for_sender, get_next_nonce,
  set_reservation, reserve_next, check_sender_nonce, check_key, check_read, check_nonce, read_nonce,
  nonce_key, is_nonce,
}
use xian_abci.Nonce.Storage.Reserve.{
  HeldFor, of_sender-set, reserve_next-cases, check_sender_nonce-cases,
}

is_nonce_shape : (tx_nonce : Option ℤ) (n : ℤ) → is_nonce tx_nonce n ≡ true → tx_nonce ≡ some n
is_nonce_shape none n h = cc
is_nonce_shape (some m) n h = ap some ((eqb_ℤ_iff m n).0 h)

module _ (settings : Settings) (committed_nonce : String → Option ℤ) where
  set_reservation-own :
      (s : String) (n : ℤ) (tx_hash : String) (now : ℤ) (p : Pending)
      → HeldFor tx_hash n (of_sender s (set_reservation settings committed_nonce s n tx_hash now p))
  set_reservation-own s n tx_hash now p =
      let r : NonceReservation = record { tx_hash = tx_hash; reserved_at = now } in
      (
        r,
        rw
            (
              of_sender-set settings committed_nonce s s n tx_hash now p,
              beq_refl s,
              lookup-insert n n r (of_sender s p),
              beq_refl n,
            )
            refl,
        refl,
      )

  -- The nonce of an accepted transaction is an int, and is reserved for it.
  abbrev Reserved : String → Option ℤ → String → Pending → Type 0
  Reserved s tx_nonce tx_hash p = (n : ℤ) × (tx_nonce ≡ some n) × HeldFor tx_hash n (of_sender s p)

  reserve_next-Reserved :
      (now later : ℤ) (s : String) (tx_nonce : Option ℤ) (tx_hash : String) (p : Pending)
      → (reserve_next settings committed_nonce now later s tx_nonce tx_hash p).0 ≡ ok tt
      → Reserved s tx_nonce tx_hash
          (reserve_next settings committed_nonce now later s tx_nonce tx_hash p).1
  reserve_next-Reserved now later s tx_nonce tx_hash p h =
      let (expected, p') = get_next_nonce settings committed_nonce now s p in
      elim (reserve_next-cases settings committed_nonce now later s tx_nonce tx_hash p) [
        | inl (e, refused) ↦ let wrong : err e ≡ ok tt = rw refused at h in absurd cc
        | inr (reserved, right, _) ↦ rw reserved (
          expected,
          is_nonce_shape tx_nonce expected right,
          set_reservation-own s expected tx_hash later p',
        )
      ]

  check_sender_nonce-Reserved :
      (now later : ℤ) (s : String) (tx_nonce : Option ℤ) (tx_hash : String) (p : Pending)
      → (check_sender_nonce settings committed_nonce now later s tx_nonce tx_hash p).0 ≡ ok tt
      → Reserved s tx_nonce tx_hash
          (check_sender_nonce settings committed_nonce now later s tx_nonce tx_hash p).1
  check_sender_nonce-Reserved now later s tx_nonce tx_hash p h =
      elim (check_sender_nonce-cases settings committed_nonce now later s tx_nonce tx_hash p) [
        | inl free ↦ rw free (reserve_next-Reserved now later s tx_nonce tx_hash p (rw free at h))
        | inr (n, is_n, _, renewed) ↦ rw renewed (n, is_n, set_reservation-own s n tx_hash now p)
      ]

  check_key-Reserved :
      (now later : ℤ) (s tx_hash : String) (p : Pending) (key : Except (Option ℤ))
      → (check_key settings committed_nonce now later s tx_hash p key).0 ≡ ok tt
      → (n : ℤ) × (key ≡ ok (some n))
        × HeldFor tx_hash n
            (of_sender s (check_key settings committed_nonce now later s tx_hash p key).1)
  check_key-Reserved now later s tx_hash p (err e) h = cc
  check_key-Reserved now later s tx_hash p (ok tx_nonce) h =
      let (n, is_n, held) = check_sender_nonce-Reserved now later s tx_nonce tx_hash p h in
      (n, ap ok is_n, held)

  check_read-Reserved :
      (first now later : ℤ) (tx_hash : String) (p : Pending) (read : Except (Value × String))
      → (check_read settings committed_nonce first now later tx_hash p read).0 ≡ ok tt
      → (value : Value) × (sender : String) × (n : ℤ) × (read ≡ ok (value, sender))
        × (nonce_key value ≡ ok (some n))
        × HeldFor tx_hash n (
            of_sender sender (check_read settings committed_nonce first now later tx_hash p read).1)
  check_read-Reserved first now later tx_hash p (err e) h = cc
  check_read-Reserved first now later tx_hash p (ok (value, s)) h =
      let (n, key, held) =
        check_key-Reserved now later s tx_hash (prune_pending_for_sender settings first s p)
          (nonce_key value) h in
      (value, s, n, refl, key, held)

  -- A transaction that `check_nonce` accepts has a text as its sender and a nonce that is an int as
  -- a dict key, and that nonce is then reserved for it under its hash.
  pub check_nonce-Reserved :
      (first now later : ℤ) (p : Pending) (tx : Value) (tx_hash : String)
      → (check_nonce settings committed_nonce first now later p tx tx_hash).0 ≡ ok tt
      → (value : Value) × (sender : String) × (n : ℤ) × (read_nonce tx ≡ ok (value, sender))
        × (nonce_key value ≡ ok (some n))
        × HeldFor tx_hash n
            (of_sender sender (check_nonce settings committed_nonce first now later p tx tx_hash).1)
  unfolding check_nonce
  check_nonce-Reserved first now later p tx tx_hash h =
      check_read-Reserved first now later tx_hash p (read_nonce tx) h
