-- ===== src/Client/ServerMap/RoundTrip.antt =====
-- client/gcaserver.go: the server map is read back from its file.
use gca_backend.Base.{
  ℕ, zero, suc, ◌%◌, ◌^◌, ◌≤◌, ◌<◌, ◌≡◌, refl, ap, sym, ◌∙◌, Bool, true, false, not, List, [], ◌∷◌,
  ◌++◌, arith, length, leb, ◌==◌, if◌then◌else◌, length-append, append_assoc, append-nil,
  Bool-cases, inl, inr, subst,
}
use gca_backend.Base.Equality.{ℕ-Eq, bytes-Eq}
use gca_backend.Base.Map.{Map, insert}
use gca_backend.Base.Unique.{Unique, insert_fresh, fresh}
use gca_backend.Base.Bytes.{put_uint, uint, length-put_uint, uint-put_uint}
use gca_backend.Base.Chunks.{concat}
use gca_backend.Base.Result.{ok, Result-cases}
use gca_backend.Glow.Signatures.{PublicKey}
use gca_backend.Server.DeviceStats.RoundTrip.{read-append}
use gca_backend.Client.ServerMap.{
  GcaServer, fields, serialize_gca_server_map, read_entry, read_entries,
  untrusted_deserialize_gca_server_map,
}

-- The values that Go's types allow.
pub record IsEntry (key : PublicKey) (server : GcaServer) : Type 0 where
  pub key_long : length key ≡ 32
  pub http_port_fits : server.http_port < 2 ^ 16
  pub tcp_port_fits : server.tcp_port < 2 ^ 16
  pub udp_port_fits : server.udp_port < 2 ^ 16

abbrev pub IsEntries : Map PublicKey GcaServer → Type 0
IsEntries [] = Unit {0}
IsEntries ((key, server) ∷ m) = IsEntry key server × IsEntries m

module _ (key : PublicKey) (server : GcaServer) (rest : List ℕ) (h : IsEntry key server) where
  flag : (b : Bool) → not (uint ((if b then 1 else 0) ∷ []) == 0) ≡ b
  unfolding uint
  flag true = refl
  flag false = refl

  ports : List ℕ
  ports = put_uint 2 server.http_port ++ (put_uint 2 server.tcp_port ++ put_uint 2 server.udp_port)

  regroup :
      concat (fields key server) ++ rest
      ≡ key
        ++ (((if server.banned then 1 else 0) ∷ [])
            ++ (put_uint 2 (length server.location % 2 ^ 16)
                ++ (server.location ++ (ports ++ rest))))
  unfolding ports
  regroup =
      let http = put_uint 2 server.http_port in
      let tcp = put_uint 2 server.tcp_port in
      let udp = put_uint 2 server.udp_port in
      let flags : List ℕ = (if server.banned then 1 else 0) ∷ [] in
      let size = put_uint 2 (length server.location % 2 ^ 16) in
      rw
        (
          append-nil udp,
          append_assoc key (flags ++ (size ++ (server.location ++ (http ++ (tcp ++ udp))))) rest,
          append_assoc size (server.location ++ (http ++ (tcp ++ udp))) rest,
          append_assoc server.location (http ++ (tcp ++ udp)) rest,
        )
        refl

  read_entry-fields :
      length server.location ≤ 65535
      → read_entry (concat (fields key server) ++ rest) ≡ ok ((key, server), rest)
  unfolding read_entry ports
  read_entry-fields short =
      let size : ℕ = length server.location % 2 ^ 16 in
      let small : size ≡ length server.location = omega arith in
      let http = put_uint 2 server.http_port in
      let tcp = put_uint 2 server.tcp_port in
      let udp = put_uint 2 server.udp_port in
      rw
        (
          regroup,
          read-append 32 key _ h.key_long,
          read-append 1 ((if server.banned then 1 else 0) ∷ []) _ refl,
          read-append 2 (put_uint 2 size) (server.location ++ (ports ++ rest))
              (length-put_uint 2 size),
          uint-put_uint 2 size (omega arith),
          read-append size server.location (ports ++ rest) (sym small),
          read-append 6 ports rest (omega (arith, length-append {0}, length-put_uint)),
          read-append 2 http (tcp ++ udp) (length-put_uint 2 _),
          read-append 2 tcp udp (length-put_uint 2 _),
          flag server.banned,
          uint-put_uint 2 server.http_port h.http_port_fits,
          uint-put_uint 2 server.tcp_port h.tcp_port_fits,
          uint-put_uint 2 server.udp_port h.udp_port_fits,
        )
        refl

step_entry :
    (fuel : ℕ) (acc : Map PublicKey GcaServer) (key : PublicKey) (server : GcaServer)
    (b rest : List ℕ)
    → read_entry b ≡ ok ((key, server), rest)
    → 0 < length b
    → read_entries (suc fuel) acc b ≡ read_entries fuel (insert key server acc) rest
unfolding read_entries
step_entry fuel acc key server [] rest e long = absurd (omega arith)
step_entry fuel acc key server (x ∷ b) rest e long = rw e refl

length-fields :
    (key : PublicKey) (server : GcaServer)
    → IsEntry key server
    → 0 < length (concat (fields key server))
length-fields key server h = omega (arith, length-append {0}, h.key_long)

-- What is written for a map whose first entry is this one.
serialize_cases :
    (key : PublicKey) (server : GcaServer) (m : Map PublicKey GcaServer) (b : List ℕ)
    → serialize_gca_server_map ((key, server) ∷ m) ≡ ok b
    → (length server.location ≤ 65535)
      × (rest : List ℕ) × (serialize_gca_server_map m ≡ ok rest)
      × (concat (fields key server) ++ rest ≡ b)
unfolding serialize_gca_server_map
serialize_cases key server m b e = elim (Bool-cases (leb (length server.location) 65535)) [
  | inr long ↦ absurd (ground arith)
  | inl short ↦ elim (Result-cases (serialize_gca_server_map m)) [
    | inl (rest, written) ↦ (ground arith, rest, written, ground arith)
    | inr (inl (e', failed)) ↦ absurd (ground arith)
    | inr (inr failed) ↦ absurd (ground arith)
  ]
]

read_entries-serialize :
    (fuel : ℕ) (acc m : Map PublicKey GcaServer) (b : List ℕ)
    → Unique (acc ++ m)
    → IsEntries m
    → serialize_gca_server_map m ≡ ok b
    → length b ≤ fuel
    → read_entries fuel acc b ≡ ok (acc ++ m)
read_entries-serialize fuel acc [] [] u h e enough = unfold read_entries in rw (append-nil acc) refl
read_entries-serialize fuel acc [] (x ∷ b) u h e enough =
    absurd (unfold serialize_gca_server_map in ground arith)
read_entries-serialize zero acc ((key, server) ∷ m) b u (h, hs) e enough =
    let (short, rest, written, parts) = serialize_cases key server m b e in
    let size = length-append (concat (fields key server)) rest in
    absurd (omega (arith, ap length parts, length-fields key server h))
read_entries-serialize (suc fuel) acc ((key, server) ∷ m) b u (h, hs) e enough =
    let (short, rest, written, parts) = serialize_cases key server m b e in
    let size = sym (ap length parts) ∙ length-append (concat (fields key server)) rest in
    let first = ap read_entry (sym parts) ∙ read_entry-fields key server rest h short in
    let end = insert_fresh key server acc (fresh key server acc m u) in
    let whole = append_assoc acc ((key, server) ∷ []) m in
    step_entry fuel acc key server b rest first (omega (arith, length-fields key server h))
    ∙ ap (λ t. read_entries fuel t rest) end
    ∙ read_entries-serialize fuel (acc ++ ((key, server) ∷ [])) m rest (subst Unique (sym whole) u)
        hs written (omega (arith, length-fields key server h))
    ∙ ap ok whole

-- Every server map that `SerializeGCAServerMap` can write is read back from its bytes, bans included.
pub untrusted_deserialize_gca_server_map-serialize_gca_server_map :
    (m : Map PublicKey GcaServer) (b : List ℕ)
    → Unique m
    → IsEntries m
    → serialize_gca_server_map m ≡ ok b
    → untrusted_deserialize_gca_server_map b ≡ ok m
unfolding untrusted_deserialize_gca_server_map
untrusted_deserialize_gca_server_map-serialize_gca_server_map m b u h e =
    read_entries-serialize (length b) [] m b u h e (omega arith)
