-- ===== src/Chain/Laws.antt =====
-- The registry of chains is consistent: its keys, the order in which they are cycled through, and
-- the decimals of its tokens.
use lazyswap.Prelude.{◌≡◌, refl, subst, true, List, [], ◌∷◌, inl, inr, Bool-cases, and_split, all}
use lazyswap.Prelude.Text.{Bytes, codes, text_eq, text_eq_iff}
use lazyswap.Chain.{lookup, chains, ordered_keys, has, next_from, next_key}

next_from-has :
    (ks : List Bytes) (first current : Bytes)
    → all has ks ≡ true
    → has first ≡ true
    → has (next_from ks first current) ≡ true
unfolding next_from
next_from-has [] first current known h = h
next_from-has (k ∷ []) first current known h = h
next_from-has (k ∷ j ∷ rest) first current known h =
    let (known_k, known_rest) = and_split (has k) (all has (j ∷ rest)) known in
    let (known_j, _) = and_split (has j) (all has rest) known_rest in
    elim (Bool-cases (text_eq k current)) [
      | inl e ↦ rw e known_j
      | inr e ↦ rw e (next_from-has (j ∷ rest) first current known_rest h)
    ]

-- Cycling through the chains leads to a chain of the registry from any text at all.
pub next_key-has : (current : Bytes) → has (next_key current) ≡ true
unfolding next_key has ordered_keys lookup chains text_eq
next_key-has current = next_from-has ordered_keys (codes "ethereum") current refl refl

data Known (key : Bytes) : Type 0 where
  is_ethereum : codes "ethereum" ≡ key → Known key
  is_bsc : codes "bsc" ≡ key → Known key
  is_bsc_testnet : codes "bsc_testnet" ≡ key → Known key
  is_sepolia : codes "sepolia" ≡ key → Known key

known : (key : Bytes) → has key ≡ true → Known key
unfolding has lookup chains
known key h = elim (Bool-cases (text_eq (codes "ethereum") key)) [
  | inl a ↦ is_ethereum ((text_eq_iff _ _).0 a)
  | inr a ↦ elim (Bool-cases (text_eq (codes "bsc") key)) [
    | inl b ↦ is_bsc ((text_eq_iff _ _).0 b)
    | inr b ↦ elim (Bool-cases (text_eq (codes "bsc_testnet") key)) [
      | inl c ↦ is_bsc_testnet ((text_eq_iff _ _).0 c)
      | inr c ↦ elim (Bool-cases (text_eq (codes "sepolia") key)) [
        | inl d ↦ is_sepolia ((text_eq_iff _ _).0 d)
        | inr d ↦ let no_chain = rw (a, b, c, d) at h in cc
      ]
    ]
  ]
]

pub of_known :
    (P : Bytes → Type 0) (key : Bytes)
    → has key ≡ true
    → P (codes "ethereum")
    → P (codes "bsc")
    → P (codes "bsc_testnet")
    → P (codes "sepolia")
    → P key
of_known P key h a b c d = by_case (known key h)
  where
    by_case : Known key → P key
    by_case (is_ethereum e) = subst P e a
    by_case (is_bsc e) = subst P e b
    by_case (is_bsc_testnet e) = subst P e c
    by_case (is_sepolia e) = subst P e d

-- Four steps of the cycle lead from any chain of the registry back to it.
pub next_key-cycle :
    (key : Bytes) → has key ≡ true → next_key (next_key (next_key (next_key key))) ≡ key
unfolding next_key ordered_keys next_from text_eq
next_key-cycle key h =
    of_known (λ k. next_key (next_key (next_key (next_key k))) ≡ k) key h refl refl refl refl
