-- ===== src/Client/Servers/Attempts.antt =====
-- client/reports.go: the device synchronizes with servers that it does not know as banned.
use gca_backend.Base.{
  ◌≡◌, refl, sym, ap, ◌∙◌, ◌≢◌, ◌⊎◌, inl, inr, true, false, Option, none, some, List, [], ◌∷◌,
  arith, All, Bool-cases, Option-cases,
}
use gca_backend.Base.Equality.{bytes-Eq}
use gca_backend.Base.Map.{Map, lookup, insert}
use gca_backend.Glow.Signatures.{PublicKey}
use gca_backend.Client.ServerMap.{GcaServer}
use gca_backend.Client.State.{Client}
use gca_backend.Client.Sync.{SyncResult}
use gca_backend.Client.Servers.{is_banned, pick_server, answered, attempts}

-- The server cannot be tried: it failed in this synchronization, or it is banned.
abbrev pub IsUnusable : Map PublicKey (Unit {0}) → Map PublicKey GcaServer → PublicKey → Type 0
IsUnusable failed servers key = (lookup key failed ≢ none) ⊎ (is_banned (lookup key servers) ≡ true)

pick_step :
    (failed : Map PublicKey (Unit {0})) (servers : Map PublicKey GcaServer) (key : PublicKey)
    (keys : List PublicKey)
    → ((pick_server failed servers (key ∷ keys) ≡ some key)
        × (lookup key failed ≡ none)
        × (is_banned (lookup key servers) ≡ false))
      ⊎ ((pick_server failed servers (key ∷ keys) ≡ pick_server failed servers keys)
          × IsUnusable failed servers key)
unfolding pick_server
pick_step failed servers key keys = elim (Option-cases (lookup key failed)) [
  | inr (u, tried) ↦ inr (ground (arith, tried), inl (ground (arith, tried)))
  | inl fresh ↦ elim (Bool-cases (is_banned (lookup key servers))) [
    | inl banned ↦ inr (ground arith, inr banned)
    | inr good ↦ inl (ground arith, fresh, good)
  ]
]

-- A server that is picked is neither banned nor one that has failed, and none is picked only where
-- every server of the list is one or the other.
pub pick_server_cases :
    (failed : Map PublicKey (Unit {0})) (servers : Map PublicKey GcaServer) (keys : List PublicKey)
    → ((key : PublicKey) × (pick_server failed servers keys ≡ some key)
        × (lookup key failed ≡ none)
        × (is_banned (lookup key servers) ≡ false))
      ⊎ ((pick_server failed servers keys ≡ none) × All (IsUnusable failed servers) keys)
pick_server_cases failed servers [] = inr (unfold pick_server in refl, tt)
pick_server_cases failed servers (key ∷ keys) = elim (pick_step failed servers key keys) [
  | inl (picked, fresh, good) ↦ inl (key, picked, fresh, good)
  | inr (skipped, unusable) ↦ elim (pick_server_cases failed servers keys) [
    | inl (later, picked, fresh, good) ↦ inl (later, skipped ∙ picked, fresh, good)
    | inr (nothing, others) ↦ inr (skipped ∙ nothing, (unusable, others))
  ]
]

answer_lem :
    (sync : PublicKey → Option SyncResult) (shuffled : List PublicKey)
    (rounds : List (List PublicKey)) (failed : Map PublicKey (Unit {0})) (c c' : Client)
    (key : PublicKey) (r r' : SyncResult)
    → pick_server failed c.gca_servers shuffled ≡ some key
    → sync key ≡ some r'
    → attempts sync (shuffled ∷ rounds) failed c ≡ (c', answered r)
    → (c' ≡ record c { primary_server = key }) × (r ≡ r')
unfolding attempts
answer_lem sync shuffled rounds failed c c' key r r' picked answer e = (ground arith, ground arith)

again_lem :
    (sync : PublicKey → Option SyncResult) (shuffled : List PublicKey)
    (rounds : List (List PublicKey)) (failed : Map PublicKey (Unit {0})) (c : Client)
    (key : PublicKey)
    → pick_server failed c.gca_servers shuffled ≡ some key
    → sync key ≡ none
    → attempts sync (shuffled ∷ rounds) failed c
      ≡ attempts sync rounds (insert key tt failed) (record c { primary_server = key })
unfolding attempts
again_lem sync shuffled rounds failed c key picked failure = ground arith

-- An answer comes from the server that is then the primary one: it is not banned, and nothing else of
-- the device has changed.
pub attempts-answered :
    (sync : PublicKey → Option SyncResult) (rounds : List (List PublicKey))
    (failed : Map PublicKey (Unit {0})) (c c' : Client) (r : SyncResult)
    → attempts sync rounds failed c ≡ (c', answered r)
    → (sync c'.primary_server ≡ some r)
      × (is_banned (lookup c'.primary_server c.gca_servers) ≡ false)
      × (c' ≡ record c { primary_server = c'.primary_server })
attempts-answered sync [] failed c c' r e = absurd (unfold attempts in ground arith)
attempts-answered sync (shuffled ∷ rounds) failed c c' r e =
    elim (pick_server_cases failed c.gca_servers shuffled) [
      | inr (nothing, _) ↦ absurd (unfold attempts in ground arith)
      | inl (key, picked, _, good) ↦ elim (Option-cases (sync key)) [
        | inr (r', answer) ↦
            let (there, told) =
              answer_lem sync shuffled rounds failed c c' key r r' picked answer e in
            let key_is : c'.primary_server ≡ key = ap (λ x. x.primary_server) there in
            (
              ap sync key_is ∙ answer ∙ ap some (sym told),
              ap (λ k. is_banned (lookup k c.gca_servers)) key_is ∙ good,
              there ∙ ap (λ k. record c { primary_server = k }) (sym key_is),
            )
        | inl failure ↦
            attempts-answered sync rounds (insert key tt failed) (record c { primary_server = key })
              c' r (sym (again_lem sync shuffled rounds failed c key picked failure) ∙ e)
      ]
    ]
