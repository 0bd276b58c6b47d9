-- ===== src/Wallet/Store.antt =====
-- Reading the stored wallets: what is decrypted, and what is kept.
use lazyswap.Prelude.{List, inl, inr, subst, if◌then◌else◌, [], ◌∷◌, ◌≡◌, ◌⊎◌, refl, null}
use lazyswap.Prelude.Text.{Bytes}
use lazyswap.Prelude.Result.{Result, ok, err, map_err, returned}
use lazyswap.Crypto
use lazyswap.Crypto.{CryptoError, Primitives}
use lazyswap.Wallet.{
  Wallet, WalletError, decrypt_private_key, decrypt_mnemonic, open_mnemonic, open_wallets,
}

-- `v` is the stored wallet `w` with its secrets opened: the key by its envelope, the words by
-- theirs or none where none are stored, and all else as it was.
pub record Opens (p : Primitives) (svc : Crypto.Service) (w v : Wallet) : Type 0 where
  pub id : v.id ≡ w.id
  pub address : v.address ≡ w.address
  pub key : Crypto.decrypt p svc w.private_key ≡ ok v.private_key
  pub words :
      ((w.mnemonic ≡ []) × (v.mnemonic ≡ [])) ⊎ (Crypto.decrypt p svc w.mnemonic ≡ ok v.mnemonic)
  pub created_at : v.created_at ≡ w.created_at
  pub updated_at : v.updated_at ≡ w.updated_at

-- the wallets of two lists, each with the one at its place
abbrev pub OpensAll : Primitives → Crypto.Service → List Wallet → List Wallet → Type 0
OpensAll p svc [] [] = Unit
OpensAll p svc (w ∷ ws) (v ∷ vs) = Opens p svc w v × OpensAll p svc ws vs
OpensAll p svc _ _ = ⊥

unlabelled :
    (f : CryptoError → WalletError) (r : Result CryptoError Bytes) {k : Bytes}
    → map_err f r ≡ ok k
    → r ≡ ok k
unlabelled f (ok x) h = cc
unlabelled f (err x) h = absurd cc

opened_words :
    (p : Primitives) (svc : Crypto.Service) (w : Wallet) (m : Bytes)
    → open_mnemonic p svc w ≡ ok m
    → ((w.mnemonic ≡ []) × (m ≡ [])) ⊎ (Crypto.decrypt p svc w.mnemonic ≡ ok m)
unfolding open_mnemonic
opened_words p svc w m h = by_words w.mnemonic h
  where
    by_words :
        (s : Bytes)
        → (if null s then ok [] else map_err (decrypt_mnemonic w.address) (Crypto.decrypt p svc s))
          ≡ ok m
        → ((s ≡ []) × (m ≡ [])) ⊎ (Crypto.decrypt p svc s ≡ ok m)
    by_words [] k = inl (refl, cc)
    by_words (c ∷ s) k = inr (unlabelled (decrypt_mnemonic w.address) _ k)

-- The wallets that FetchAll returns are the stored ones in their order and number: each has the
-- private key and the words that its envelopes decrypt to (no words where none are stored), and the
-- identifier, the address and the times of its row.
pub open_wallets-Opens :
    (p : Primitives) (svc : Crypto.Service) (ws opened : List Wallet)
    → open_wallets p svc ws ≡ ok opened
    → OpensAll p svc ws opened
unfolding open_wallets
open_wallets-Opens p svc [] [] h = tt
open_wallets-Opens p svc [] (v ∷ vs) h = cc
open_wallets-Opens p svc (w ∷ ws) opened h =
    let (k, key, h1) =
      returned (map_err (decrypt_private_key w.address) (Crypto.decrypt p svc w.private_key)) _ h in
    let (m, words, h2) = returned (open_mnemonic p svc w) _ h1 in
    let (rest, others, h3) = returned (open_wallets p svc ws) _ h2 in
    row k m rest opened (unlabelled _ _ key) (opened_words p svc w m words) h3
      (open_wallets-Opens p svc ws rest others)
  where
    row :
        (k m : Bytes) (rest vs : List Wallet)
        → Crypto.decrypt p svc w.private_key ≡ ok k
        → ((w.mnemonic ≡ []) × (m ≡ [])) ⊎ (Crypto.decrypt p svc w.mnemonic ≡ ok m)
        → ◌≡◌ {A = Result WalletError (List Wallet)}
            (ok (
              record {
                id = w.id;
                address = w.address;
                private_key = k;
                mnemonic = m;
                created_at = w.created_at;
                updated_at = w.updated_at;
              }
              ∷ rest))
            (ok vs)
        → OpensAll p svc ws rest
        → OpensAll p svc (w ∷ ws) vs
    row k m rest vs key words same others = subst (OpensAll p svc (w ∷ ws)) (list_of same) (
      record {
        id = refl;
        address = refl;
        key = key;
        words = words;
        created_at = refl;
        updated_at = refl;
      },
      others,
    )
      where
        list_of :
            {a b : List Wallet} → ◌≡◌ {A = Result WalletError (List Wallet)} (ok a) (ok b) → a ≡ b
        list_of e = cc
