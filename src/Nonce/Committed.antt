-- ===== src/Nonce/Committed.antt =====
-- The writes of committed nonces in src/xian/nonce.py. The driver is a parameter, and so are the
-- separators of its keys, which the contract package has.
use Prim.Native.String.{◌++◌ as text_append}
use xian_abci.Prelude.{String, if◌then◌else◌, ◌≡◌, refl, Option, some, List, [], ◌∷◌, arith}
use xian_abci.Prelude.Int.{ℤ, ltb_ℤ}
use xian_abci.Nonce.Storage.{Pending, or_minus_one, flush_pending}

abbrev pub nonce_filename : String
nonce_filename = "__n"

pub record NonceDriver : Type 1 where
  pub Store : Type 0
  pub index_separator : String
  pub delimiter : String
  pub get : String → Store → Option ℤ
  pub set : String → ℤ → Store → Store
  pub flush_file : String → Store → Store

module _ (driver : NonceDriver) where
  abbrev pub nonce_name : String → String
  nonce_name sender =
      text_append nonce_filename
        (text_append driver.index_separator (text_append sender driver.delimiter))

  unfoldable pub get_nonce : String → driver.Store → Option ℤ
  get_nonce sender store = driver.get (nonce_name sender) store

  unfoldable pub set_nonce : String → ℤ → driver.Store → driver.Store
  set_nonce sender value store = driver.set (nonce_name sender) value store

  unfoldable pub safe_set_nonce : String → ℤ → driver.Store → driver.Store
  safe_set_nonce sender value store =
      if ltb_ℤ (or_minus_one (get_nonce sender store)) value
      then set_nonce sender value store
      else store

  unfoldable pub flush : driver.Store → Pending → driver.Store × Pending
  flush store pending = (driver.flush_file nonce_filename store, flush_pending pending)

  -- One write after the other.
  abbrev pub safe_set_all : String → List ℤ → driver.Store → driver.Store
  safe_set_all sender [] store = store
  safe_set_all sender (value ∷ values) store =
      safe_set_all sender values (safe_set_nonce sender value store)

  abbrev pub higher : ℤ → ℤ → ℤ
  higher a b = if ltb_ℤ a b then b else a

  -- The highest of a nonce and a list of them.
  abbrev pub highest : ℤ → List ℤ → ℤ
  highest n [] = n
  highest n (value ∷ values) = highest (higher n value) values

  module _
      (get-set : (key : String) (value : ℤ) (store : driver.Store)
        → driver.get key (driver.set key value store) ≡ some value) where
    safe_set_lem :
        (sender : String) (value : ℤ) (store : driver.Store)
        → or_minus_one (get_nonce sender (safe_set_nonce sender value store))
          ≡ higher (or_minus_one (get_nonce sender store)) value
    unfolding get_nonce set_nonce safe_set_nonce
    safe_set_lem sender value store = ground (arith, get-set (nonce_name sender) value store)

    -- However nonces are written by `safe_set_nonce`, where the driver reads what it has written,
    -- the committed nonce is the highest of them and of the one that was there (-1 for none).
    pub safe_set_all-highest :
        (sender : String) (values : List ℤ) (store : driver.Store)
        → or_minus_one (get_nonce sender (safe_set_all sender values store))
          ≡ highest (or_minus_one (get_nonce sender store)) values
    safe_set_all-highest sender [] store = refl
    safe_set_all-highest sender (value ∷ values) store = cc (
      safe_set_all-highest sender values (safe_set_nonce sender value store),
      safe_set_lem sender value store,
    )
