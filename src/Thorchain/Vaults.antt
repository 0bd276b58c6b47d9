-- ===== src/Thorchain/Vaults.antt =====
-- What the answers of THORnode are taken for: the open vault of the chain, and a quote that says
-- where the Bitcoin goes.
use lazyswap.Prelude.{
  Bool-cases, List, [], all, ap, arith, false, inl, inr, not, refl, subst, true, ◌++◌, ◌<◌, ◌∷◌,
  ◌≡◌, ◌≤◌,
}
use lazyswap.Prelude.Result.{Result, err, ok}
use lazyswap.Prelude.Text.{Bytes, codes, equal_fold}
use lazyswap.Error.{Error, decode_inbound}
use lazyswap.Swap.Io.{World, lift, observe, pure, relabel, ◌>>=◌}
use lazyswap.Thorchain.{Http, InboundAddress, InboundEntry, Response}
use lazyswap.Thorchain.Provider.{
  base_url, body_of, find_inbound, get, get_inbound_address, inbound_entries, inbound_of_body,
  thor_chain,
}

-- The first entry for the chain, which is open and has the given address and router.
pub record IsOpen (thor : Bytes) (inbound : InboundAddress) (entries : List InboundEntry)
    : Type 0 where
  pub before : List InboundEntry
  pub entry : InboundEntry
  pub after : List InboundEntry
  pub listed : entries ≡ before ++ entry ∷ after
  pub of_others : all (λ e. not (equal_fold e.chain thor)) before ≡ true
  pub of_chain : equal_fold entry.chain thor ≡ true
  pub not_halted : entry.is_halted ≡ false
  pub named :
      inbound ≡ record { vault_address = entry.address; chain = entry.chain; router = entry.router }

skipped :
    {thor : Bytes} {inbound : InboundAddress} {entries : List InboundEntry} (e : InboundEntry)
    → equal_fold e.chain thor ≡ false
    → IsOpen thor inbound entries
    → IsOpen thor inbound (e ∷ entries)
skipped {entries} e other_chain found = record {
  before = e ∷ found.before;
  entry = found.entry;
  after = found.after;
  listed = ap (λ l. e ∷ l) found.listed;
  of_others = rw (other_chain, found.of_others);
  of_chain = found.of_chain;
  not_halted = found.not_halted;
  named = found.named;
}

pub find_inbound-IsOpen :
    (thor : Bytes) (entries : List InboundEntry) (inbound : InboundAddress)
    → find_inbound thor entries ≡ ok inbound
    → IsOpen thor inbound entries
unfolding find_inbound
find_inbound-IsOpen thor [] inbound h = cc
find_inbound-IsOpen thor (e ∷ entries) inbound h = elim (Bool-cases (equal_fold e.chain thor)) [
  | inr other_chain ↦
      skipped e other_chain (find_inbound-IsOpen thor entries inbound (later other_chain))
  | inl same_chain ↦ elim (Bool-cases e.is_halted) [
    | inl closed ↦ absurd (refused same_chain closed)
    | inr open_now ↦ record {
      before = [];
      entry = e;
      after = entries;
      listed = refl;
      of_others = refl;
      of_chain = same_chain;
      not_halted = open_now;
      named = given same_chain open_now;
    }
  ]
]
  where
    later : equal_fold e.chain thor ≡ false → find_inbound thor entries ≡ ok inbound
    later o = ground (arith, o)

    refused : equal_fold e.chain thor ≡ true → e.is_halted ≡ true → ⊥
    refused s c = ground (arith, s, c)

    given :
        equal_fold e.chain thor ≡ true
        → e.is_halted ≡ false
        → inbound ≡ record { vault_address = e.address; chain = e.chain; router = e.router }
    given s o = ground (arith, s, o)

-- The answer to a request whose body was used: of a status of success.
body_of_success :
    (x : Result Bytes Response) (body : Bytes)
    → body_of x ≡ ok body
    → (r : Response) × (x ≡ ok r) × (200 ≤ r.status) × (r.status < 300) × (body ≡ r.body)
body_of_success (err e) body h = cc
body_of_success (ok r) body h = (r, refl, ground arith, ground arith, ground arith)

-- The entries that a body was decoded to, and the one that was chosen.
chosen :
    (unmarshal : Bytes → Result Bytes (List InboundEntry)) (thor : Bytes) (x : Result Bytes Bytes)
    (inbound : InboundAddress)
    → inbound_of_body unmarshal thor x ≡ ok inbound
    → (body : Bytes) × (entries : List InboundEntry) × (x ≡ ok body)
      × (unmarshal body ≡ ok entries)
      × IsOpen thor inbound entries
chosen unmarshal thor (err e) inbound h = cc
chosen unmarshal thor (ok body) inbound h =
    let (b, entries, same, parsed, vault) = decoded (unmarshal body) refl h in
    (b, entries, ap ok same, parsed, vault)
  where
    decoded :
        (d : Result Bytes (List InboundEntry))
        → unmarshal body ≡ d
        → inbound_entries thor (relabel decode_inbound d) ≡ ok inbound
        → (b : Bytes) × (entries : List InboundEntry) × (body ≡ b)
          × (unmarshal b ≡ ok entries)
          × IsOpen thor inbound entries
    decoded (err e) same k = cc
    decoded (ok entries) same k =
        (body, entries, refl, same, find_inbound-IsOpen thor entries inbound k)

module _ {Node : Type 0} (http : Http Node) where
  open http use {do_get, unmarshal_inbound}

  -- An answer of the node that names an open vault for the chain key.
  abbrev pub NamesVault : Bytes → InboundAddress → Result Bytes Response → Type 0
  NamesVault chain_key inbound x =
      (thor : Bytes) × (r : Response) × (entries : List InboundEntry) × (thor_chain chain_key
        ≡ ok thor)
      × (x ≡ ok r)
      × (200 ≤ r.status)
      × (r.status < 300)
      × (unmarshal_inbound r.body ≡ ok entries)
      × IsOpen thor inbound entries

  -- what THORnode answers to the request of GetInboundAddress
  abbrev pub vault_answer : World Node → Result Bytes Response
  vault_answer w =
      (do_get (base_url http.url_override ++ codes "/thorchain/inbound_addresses") w.node).0

  -- A vault that GetInboundAddress returns is that of the first entry for the chain, in a
  -- successful answer of THORnode to a request made in this call, and that entry is not halted.
  pub get_inbound_address-NamesVault :
      (chain_key : Bytes) (inbound : InboundAddress) (w : World Node)
      → (get_inbound_address http chain_key w).0 ≡ ok inbound
      → NamesVault chain_key inbound (vault_answer w)
  unfolding get_inbound_address get observe pure lift ◌>>=◌
  get_inbound_address-NamesVault chain_key inbound w h = supported (thor_chain chain_key) refl h
    where
      supported :
          (t : Result Error Bytes)
          → thor_chain chain_key ≡ t
          → ((lift t >>= λ thor.
                get http (base_url http.url_override ++ codes "/thorchain/inbound_addresses")
                >>= λ body. lift (inbound_of_body unmarshal_inbound thor body))
              w).0
            ≡ ok inbound
          → NamesVault chain_key inbound (vault_answer w)
      supported (err e) same k = cc
      supported (ok thor) same k =
          let (body, entries, sent, decoded, vault) =
            chosen unmarshal_inbound thor (body_of (vault_answer w)) inbound k in
          let (r, got, low, high, same_body) = body_of_success (vault_answer w) body sent in
          (
            thor,
            r,
            entries,
            same,
            got,
            low,
            high,
            subst (λ b. unmarshal_inbound b ≡ ok entries) same_body decoded,
            vault,
          )
