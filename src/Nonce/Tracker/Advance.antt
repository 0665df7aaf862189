-- ===== src/Nonce/Tracker/Advance.antt =====
-- What a successful step of the tracker has read, and what it expects next.
use xian_abci.Prelude.{
  String, true, not, ◌≡◌, sym, ap, ◌∙◌, arith, ◌==◌, string_eq, if◌then◌else◌, Option,
}
use xian_abci.Prelude.Int.{ℤ, pos, ◌+ℤ◌}
use xian_abci.Prelude.Dict.{insert, lookup-insert}
use xian_abci.Result.{ok, >>=-eq-ok, ok_injective, raise_if, raise_unless-ok}
use xian_abci.Value.{Value, str, null, get_item, equals_int}
use xian_abci.Nonce.Tracker.{Tracker, text_key, expected_nonce, validate_and_advance}

text_key_shape : (v : Value) {s : String} → text_key v ≡ ok s → v ≡ str s
text_key_shape (str t) h = ap str (ok_injective h)
text_key_shape null h = cc
text_key_shape _ h = cc

module _ (committed_nonce : String → Option ℤ) where
  -- A step of the tracker, read back: the sender, the nonce in its payload, and the update.
  pub record Advanced (latest : Tracker) (tx : Value) (latest' : Tracker) : Type 0 where
    pub sender : String
    pub nonce : Value
    pub payload : Value
    pub has_payload : get_item tx "payload" ≡ ok payload
    pub has_sender : get_item payload "sender" ≡ ok (str sender)
    pub has_nonce : get_item payload "nonce" ≡ ok nonce
    pub is_expected : equals_int nonce (expected_nonce committed_nonce latest sender) ≡ true
    pub next : latest' ≡ insert sender (expected_nonce committed_nonce latest sender) latest

  pub validate_and_advance-Advanced :
      (latest : Tracker) (tx : Value) (latest' : Tracker)
      → validate_and_advance committed_nonce latest tx ≡ ok latest'
      → Advanced latest tx latest'
  unfolding validate_and_advance
  validate_and_advance-Advanced latest tx latest' h =
      let a = >>=-eq-ok (get_item tx "payload") _ h in
      let b = >>=-eq-ok (get_item a.0 "sender") _ a.2 in
      let c = >>=-eq-ok (get_item a.0 "nonce") _ b.2 in
      let d = >>=-eq-ok (text_key b.0) _ c.2 in
      let e =
        >>=-eq-ok (raise_if (not (equals_int c.0 (expected_nonce committed_nonce latest d.0))) _) _
          d.2 in
      record {
        sender = d.0;
        nonce = c.0;
        payload = a.0;
        has_payload = a.1;
        has_sender = b.1 ∙ ap ok (text_key_shape b.0 d.1);
        has_nonce = c.1;
        is_expected = raise_unless-ok _ _ e.1;
        next = sym (ok_injective e.2);
      }

  -- After a step the sender is expected to go on by one, and every other sender as before.
  pub expected-insert :
      (latest : Tracker) (sender other : String)
      → let n = expected_nonce committed_nonce latest sender in
        expected_nonce committed_nonce (insert sender n latest) other
        ≡ (if sender == other then n +ℤ pos 1 else expected_nonce committed_nonce latest other)
  unfolding expected_nonce
  expected-insert latest sender other =
      ground
        (arith, lookup-insert sender other (expected_nonce committed_nonce latest sender) latest)
