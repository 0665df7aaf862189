-- ===== src/Nonce/Storage/Holding.antt =====
-- What a reservation guarantees to the transaction that holds it.
use text.Mathlib.TextEquality.{eq_iff}
use xian_abci.Prelude.{
  ◌≡◌, String, false, ◌==◌, string_eq, Bool-cases, inl, inr, refl, sym, ap, ap₂, ◌∙◌, Option, some,
  arith,
}
use xian_abci.Prelude.Int.{ℤ, ltb_ℤ, int_eq, eqb_ℤ_iff}
use xian_abci.Prelude.Dict.{lookup, contains, lookup-insert}
use xian_abci.Result.{Except, ok, err}
use xian_abci.Value.{Value}
use xian_abci.Nonce.Storage.{
  Settings, NonceReservation, Pending, of_sender, expires_before, prune_pending_for_sender,
  get_pending_nonce, get_next_nonce, set_reservation, reserve_next, check_sender_nonce, check_key,
  check_read, check_nonce, read_nonce, nonce_key,
}
use xian_abci.Nonce.Storage.Pruning.{lookup-prune}
use xian_abci.Nonce.Storage.Run.{get_next_nonce-FirstFree}
use xian_abci.Nonce.Storage.Reserve.{
  HeldFor, of_sender-set, reserve_next-cases, check_sender_nonce-cases,
}

-- One place of the reservations, under two names.
same_place :
    (p : Pending) (s i : String) (m n : ℤ)
    → s ≡ i
    → m ≡ n
    → lookup m (of_sender s p) ≡ lookup n (of_sender i p)
same_place p s i m n a b = ap₂ (λ j k. lookup k (of_sender j p)) a b

not_free :
    {P : Type 0} (p : Pending) (s i : String) (m n : ℤ) (r : NonceReservation)
    → s ≡ i
    → m ≡ n
    → contains m (of_sender s p) ≡ false
    → lookup n (of_sender i p) ≡ some r
    → P
not_free p s i m n r a b free held = absurd (ground (arith, same_place p s i m n a b, free, held))

some_injective : {A : Type 0} {a b : A} → some a ≡ some b → a ≡ b
some_injective h = cc

same_entry :
    (p : Pending) (s i : String) (m n : ℤ) (q r : NonceReservation)
    → s ≡ i
    → m ≡ n
    → lookup m (of_sender s p) ≡ some q
    → lookup n (of_sender i p) ≡ some r
    → r.tx_hash ≡ q.tx_hash
same_entry p s i m n q r a b first second =
    ap (λ (x : NonceReservation). x.tx_hash)
      (some_injective (sym second ∙ (sym (same_place p s i m n a b) ∙ first)))

module _ (settings : Settings) (committed_nonce : String → Option ℤ) where
  -- An entry for one transaction at a nonce that is free, or its own, leaves every other in place.
  set_reservation-HeldFor :
      (s i : String) (n m : ℤ) (tx_hash own : String) (now : ℤ) (p : Pending)
      → HeldFor own m (of_sender i p)
      → (s ≡ i → n ≡ m → own ≡ tx_hash)
      → HeldFor own m (of_sender i (set_reservation settings committed_nonce s n tx_hash now p))
  set_reservation-HeldFor s i n m tx_hash own now p h same = elim (Bool-cases (s == i)) [
    | inr ne ↦ rw (of_sender-set settings committed_nonce s i n tx_hash now p, ne) h
    | inl e ↦
        let s≡i : s ≡ i = (eq_iff s i).0 e in
        elim (Bool-cases (n == m)) [
          | inl e' ↦
              let n≡m : n ≡ m = (eqb_ℤ_iff n m).0 e' in
              (
                record { tx_hash = tx_hash; reserved_at = now },
                rw
                    (
                      of_sender-set settings committed_nonce s i n tx_hash now p,
                      e,
                      lookup-insert n m (record { tx_hash = tx_hash; reserved_at = now })
                          (of_sender s p),
                      e',
                    )
                    refl,
                sym (same s≡i n≡m),
              )
          | inr ne' ↦
              rw
                (
                  of_sender-set settings committed_nonce s i n tx_hash now p,
                  e,
                  lookup-insert n m (record { tx_hash = tx_hash; reserved_at = now })
                      (of_sender s p),
                  ne',
                )
                (rw (sym s≡i) at h)
        ]
  ]

  -- The next nonce is free, so that no reservation is overwritten.
  reserve_next-HeldFor :
      (now later : ℤ) (s : String) (tx_nonce : Option ℤ) (tx_hash : String) (p : Pending)
      (i : String) (n : ℤ) (r : NonceReservation)
      → lookup n (of_sender i p) ≡ some r
      → ltb_ℤ r.reserved_at (expires_before settings now) ≡ false
      → HeldFor r.tx_hash n
          (of_sender i (reserve_next settings committed_nonce now later s tx_nonce tx_hash p).1)
  reserve_next-HeldFor now later s tx_nonce tx_hash p i n r held live =
      let (expected, p') = get_next_nonce settings committed_nonce now s p in
      let still : lookup n (of_sender i p') ≡ some r =
        unfold get_next_nonce get_pending_nonce in lookup-prune settings now s i n r p held live in
      let free : contains expected (of_sender s p') ≡ false =
        (get_next_nonce-FirstFree settings committed_nonce now s p).1 in
      elim (reserve_next-cases settings committed_nonce now later s tx_nonce tx_hash p) [
        | inl (e, refused) ↦ rw refused (r, still, refl)
        | inr (reserved, _, _) ↦ rw reserved (
            set_reservation-HeldFor s i expected n tx_hash r.tx_hash later p' (r, still, refl)
              (λ s≡i e≡n. not_free p' s i expected n r s≡i e≡n free still))
      ]

  check_sender_nonce-HeldFor :
      (now later : ℤ) (s : String) (tx_nonce : Option ℤ) (tx_hash : String) (p : Pending)
      (i : String) (n : ℤ) (r : NonceReservation)
      → lookup n (of_sender i p) ≡ some r
      → ltb_ℤ r.reserved_at (expires_before settings now) ≡ false
      → HeldFor r.tx_hash n (
          of_sender i
            (check_sender_nonce settings committed_nonce now later s tx_nonce tx_hash p).1)
  check_sender_nonce-HeldFor now later s tx_nonce tx_hash p i n r held live =
      elim (check_sender_nonce-cases settings committed_nonce now later s tx_nonce tx_hash p) [
        | inl free ↦ rw free (reserve_next-HeldFor now later s tx_nonce tx_hash p i n r held live)
        | inr (m, _, (q, own, is_hash), renewed) ↦ rw renewed (
            set_reservation-HeldFor s i m n tx_hash r.tx_hash now p (r, held, refl)
              (λ s≡i m≡n. same_entry p s i m n q r s≡i m≡n own held ∙ is_hash))
      ]

  check_key-HeldFor :
      (now later : ℤ) (s tx_hash : String) (p : Pending) (key : Except (Option ℤ)) (i : String)
      (n : ℤ) (r : NonceReservation)
      → lookup n (of_sender i p) ≡ some r
      → ltb_ℤ r.reserved_at (expires_before settings now) ≡ false
      → HeldFor r.tx_hash n
          (of_sender i (check_key settings committed_nonce now later s tx_hash p key).1)
  check_key-HeldFor now later s tx_hash p (err e) i n r held live = (r, held, refl)
  check_key-HeldFor now later s tx_hash p (ok tx_nonce) i n r held live =
      check_sender_nonce-HeldFor now later s tx_nonce tx_hash p i n r held live

  check_read-HeldFor :
      (first now later : ℤ) (tx_hash : String) (p : Pending) (read : Except (Value × String))
      (i : String) (n : ℤ) (r : NonceReservation)
      → lookup n (of_sender i p) ≡ some r
      → ltb_ℤ r.reserved_at (expires_before settings first) ≡ false
      → ltb_ℤ r.reserved_at (expires_before settings now) ≡ false
      → HeldFor r.tx_hash n
          (of_sender i (check_read settings committed_nonce first now later tx_hash p read).1)
  check_read-HeldFor first now later tx_hash p (err e) i n r held live live' = (r, held, refl)
  check_read-HeldFor first now later tx_hash p (ok (value, s)) i n r held live live' =
      check_key-HeldFor now later s tx_hash (prune_pending_for_sender settings first s p)
        (nonce_key value) i n r (lookup-prune settings first s i n r p held live) live'

  -- A reservation that has not expired at the readings of the clock stays with its transaction,
  -- whatever `check_nonce` is given next and however that ends: no other transaction can take its
  -- nonce.
  pub check_nonce-HeldFor :
      (first now later : ℤ) (p : Pending) (tx : Value) (tx_hash : String) (i : String) (n : ℤ)
      (r : NonceReservation)
      → lookup n (of_sender i p) ≡ some r
      → ltb_ℤ r.reserved_at (expires_before settings first) ≡ false
      → ltb_ℤ r.reserved_at (expires_before settings now) ≡ false
      → HeldFor r.tx_hash n
          (of_sender i (check_nonce settings committed_nonce first now later p tx tx_hash).1)
  unfolding check_nonce
  check_nonce-HeldFor first now later p tx tx_hash i n r held live live' =
      check_read-HeldFor first now later tx_hash p (read_nonce tx) i n r held live live'
