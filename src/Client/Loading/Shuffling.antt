-- ===== src/Client/Loading/Shuffling.antt =====
-- client/client.go: the shuffle keeps the servers, and the loop behind it finds one that is not banned.
use gca_backend.Base.{
  ℕ, zero, suc, ◌+◌, ◌≡◌, refl, ap, ◌∙◌, ◌⊎◌, inl, inr, true, false, Option, some, List, [], ◌∷◌,
  arith, Bool-cases, Option-cases, get_elem?, ◌==◌, if◌then◌else◌,
}
use gca_backend.Base.Equality.{ℕ-Eq, bytes_eq_iff, bytes-Eq, beq_refl, bytes_eq}
use gca_backend.Base.Map.{Map, lookup}
use gca_backend.Base.Result.{ok}
use gca_backend.Glow.Signatures.{PublicKey}
use gca_backend.Client.ServerMap.{GcaServer}
use gca_backend.Client.Servers.{is_banned}
use gca_backend.Client.Loading.{write, swap, shuffle, first_allowed, keys_of}

-- The key stands somewhere in the list.
abbrev pub Holds : PublicKey → List PublicKey → Type 0
Holds key keys = (n : ℕ) × (get_elem? keys n ≡ some key)

get_elem?-write :
    (i n : ℕ) (v first : PublicKey) (keys : List PublicKey)
    → get_elem? keys i ≡ some first
    → get_elem? (write i v keys) n ≡ (if i == n then some v else get_elem? keys n)
get_elem?-write i n v first [] h = absurd (ground arith)
get_elem?-write zero zero v first (x ∷ xs) h = refl
get_elem?-write zero (suc n) v first (x ∷ xs) h = ground arith
get_elem?-write (suc i) zero v first (x ∷ xs) h = ground arith
get_elem?-write (suc i) (suc n) v first (x ∷ xs) h =
    ground (arith, get_elem?-write i n v first xs h)

get_elem?-write_twice :
    (i j n : ℕ) (a b : PublicKey) (keys : List PublicKey)
    → get_elem? keys i ≡ some a
    → get_elem? keys j ≡ some b
    → get_elem? (write j a (write i b keys)) n
      ≡ (if j == n then some a else if i == n then some b else get_elem? keys n)
get_elem?-write_twice i j n a b keys at_i at_j = elim (Bool-cases (i == j)) [
  | inl same ↦
      get_elem?-write j n a b (write i b keys) (get_elem?-write i j b a keys at_i ∙ rw same refl)
      ∙ ap (λ t. if j == n then some a else t) (get_elem?-write i n b a keys at_i)
  | inr other ↦
      get_elem?-write j n a b (write i b keys) (get_elem?-write i j b a keys at_i ∙ rw other at_j)
      ∙ ap (λ t. if j == n then some a else t) (get_elem?-write i n b a keys at_i)
]

Holds-write :
    (i j n : ℕ) (a b key : PublicKey) (keys : List PublicKey)
    → get_elem? keys i ≡ some a
    → get_elem? keys j ≡ some b
    → get_elem? keys n ≡ some key
    → Holds key (write j a (write i b keys))
Holds-write i j n a b key keys at_i at_j here = elim (Bool-cases (j == n)) [
  | inl last ↦ (i, get_elem?-write_twice i j i a b keys at_i at_j ∙ ground arith)
  | inr later ↦ elim (Bool-cases (i == n)) [
    | inl first ↦ (j, get_elem?-write_twice i j j a b keys at_i at_j ∙ ground arith)
    | inr other ↦ (n, get_elem?-write_twice i j n a b keys at_i at_j ∙ ground arith)
  ]
]

Holds-swap :
    (i j : ℕ) (key : PublicKey) (keys : List PublicKey) → Holds key keys → Holds key (swap i j keys)
unfolding swap
Holds-swap i j key keys (n, h) = elim (Option-cases (get_elem? keys i)) [
  | inl e ↦ rw e (n, h)
  | inr (a, e) ↦ elim (Option-cases (get_elem? keys j)) [
    | inl e' ↦ rw (e, e') (n, h)
    | inr (b, e') ↦ rw (e, e') (Holds-write i j n a b key keys e e' h)
  ]
]

pub Holds-shuffle :
    (draws : ℕ → Option ℕ) (rounds i : ℕ) (key : PublicKey) (keys shuffled : List PublicKey)
    → shuffle draws rounds i keys ≡ ok shuffled
    → Holds key keys
    → Holds key shuffled
unfolding shuffle
Holds-shuffle draws zero i key keys shuffled e h =
    let same : keys ≡ shuffled = ground arith in rw (← same) h
Holds-shuffle draws (suc rounds) i key keys shuffled e h = elim (Option-cases (draws i)) [
  | inl none_left ↦ absurd (ground arith)
  | inr (j, drawn) ↦
      Holds-shuffle draws rounds (i + 1) key (swap i j keys) shuffled (ground arith)
        (Holds-swap i j key keys h)
]

pub Holds-keys_of :
    (servers : Map PublicKey GcaServer) (key : PublicKey) (server : GcaServer)
    → lookup key servers ≡ some server
    → Holds key (keys_of servers)
unfolding lookup
Holds-keys_of [] key server h = absurd (ground arith)
Holds-keys_of ((k, v) ∷ m) key server h = elim (Bool-cases (bytes_eq k key)) [
  | inl same ↦ (0, ap some ((bytes_eq_iff k key).0 same))
  | inr other ↦ let (n, there) = Holds-keys_of m key server (ground arith) in (suc n, there)
]

-- The choice is in the list and not banned, or it is the start and all of the list is banned.
pub first_allowed_cases :
    (servers : Map PublicKey GcaServer) (start : PublicKey) (keys : List PublicKey)
    → (Holds (first_allowed servers start keys) keys
        × (is_banned (lookup (first_allowed servers start keys) servers) ≡ false))
      ⊎ ((first_allowed servers start keys ≡ start)
          × ((key : PublicKey) → Holds key keys → is_banned (lookup key servers) ≡ true))
unfolding first_allowed
first_allowed_cases servers start [] = inr (refl, λ key held. absurd (ground (arith, held.1)))
first_allowed_cases servers start (k ∷ keys) = elim (Bool-cases (is_banned (lookup k servers))) [
  | inr allowed ↦ rw allowed (inl ((0, refl), allowed))
  | inl banned ↦ rw banned (elim (first_allowed_cases servers start keys) [
    | inl ((n, there), allowed) ↦ inl ((suc n, there), allowed)
    | inr (none_left, all_banned) ↦
        inr (none_left, λ key held. banned_in_front k banned key held all_banned)
  ])
]
  where
    banned_in_front :
        (k : PublicKey)
        → is_banned (lookup k servers) ≡ true
        → (key : PublicKey) → Holds key (k ∷ keys)
        → ((j : PublicKey) → Holds j keys → is_banned (lookup j servers) ≡ true)
        → is_banned (lookup key servers) ≡ true
    banned_in_front k banned key (zero, here) rest =
        let same : k ≡ key = ground arith in rw (← same) banned
    banned_in_front k banned key (suc n, there) rest = rest key (n, there)

unwritten :
    (i j n : ℕ) (a b key : PublicKey) (keys : List PublicKey)
    → get_elem? keys i ≡ some a
    → get_elem? keys j ≡ some b
    → get_elem? (write j a (write i b keys)) n ≡ some key
    → Holds key keys
unwritten i j n a b key keys at_i at_j here =
    let value = get_elem?-write_twice i j n a b keys at_i at_j in
    elim (Bool-cases (j == n)) [
      | inl last ↦ (i, ground arith)
      | inr later ↦ elim (Bool-cases (i == n)) [
        | inl first ↦ (j, ground arith)
        | inr other ↦ (n, ground arith)
      ]
    ]

unswapped :
    (i j : ℕ) (key : PublicKey) (keys : List PublicKey) → Holds key (swap i j keys) → Holds key keys
unfolding swap
unswapped i j key keys (n, h) = elim (Option-cases (get_elem? keys i)) [
  | inl e ↦ (n, ground arith)
  | inr (a, e) ↦ elim (Option-cases (get_elem? keys j)) [
    | inl e' ↦ (n, ground arith)
    | inr (b, e') ↦ unwritten i j n a b key keys e e' (ground arith)
  ]
]

pub unshuffled :
    (draws : ℕ → Option ℕ) (rounds i : ℕ) (key : PublicKey) (keys shuffled : List PublicKey)
    → shuffle draws rounds i keys ≡ ok shuffled
    → Holds key shuffled
    → Holds key keys
unfolding shuffle
unshuffled draws zero i key keys shuffled e h =
    let same : keys ≡ shuffled = ground arith in rw same h
unshuffled draws (suc rounds) i key keys shuffled e h = elim (Option-cases (draws i)) [
  | inl none_left ↦ absurd (ground arith)
  | inr (j, drawn) ↦
      unswapped i j key keys
        (unshuffled draws rounds (i + 1) key (swap i j keys) shuffled (ground arith) h)
]

pub keys_of-known :
    (servers : Map PublicKey GcaServer) (key : PublicKey) (n : ℕ)
    → get_elem? (keys_of servers) n ≡ some key
    → (server : GcaServer) × (lookup key servers ≡ some server)
unfolding lookup
keys_of-known [] key n h = absurd (ground arith)
keys_of-known ((k, v) ∷ m) key zero h = (v, ground (arith, beq_refl key))
keys_of-known ((k, v) ∷ m) key (suc n) h = elim (Bool-cases (bytes_eq k key)) [
  | inl same ↦ (v, ground arith)
  | inr other ↦ let (server, there) = keys_of-known m key n h in (server, ground arith)
]

pub not_banned :
    (found : Option GcaServer) (server : GcaServer)
    → found ≡ some server
    → is_banned found ≡ false
    → server.banned ≡ false
not_banned found server e h = ground arith
