-- ===== src/Client/Sync/RoundTrip/Servers.antt =====
-- client/reports.go: the list of servers in the answer of a synchronization is read back.
use gca_backend.Base.{
  ℕ, zero, suc, ◌+◌, ◌-◌, ◌≤◌, ◌≡◌, refl, ap, sym, ◌∙◌, Bool, true, false, not, List, [], ◌∷◌, ◌++◌,
  arith, length, drop, leb, ◌==◌, All, if◌then◌else◌, length-append, append-nil, drop-append,
}
use gca_backend.Base.Equality.{ℕ-Eq}
use gca_backend.Base.Bytes.{put_uint, uint, slice, length-put_uint, uint-put_uint}
use gca_backend.Base.Chunks.{concat, slice-concat, concat-append}
use gca_backend.Base.Result.{ok}
use gca_backend.Server.AuthorizedServer.{
  AuthorizedServer, IsAuthorizedServer, unsigned_fields, serialize,
}
use gca_backend.Server.Migration.{serialize_servers}
use gca_backend.Client.Sync.{server_at, location_len, read_servers}

abbrev fields : AuthorizedServer → List ℕ → List (List ℕ)
fields s rest = (unsigned_fields s ++ (s.gca_authorization ∷ [])) ++ (rest ∷ [])

serialize-fields :
    (s : AuthorizedServer) (rest : List ℕ) → serialize s ++ rest ≡ concat (fields s rest)
unfolding serialize
serialize-fields s rest =
    let all = unsigned_fields s ++ (s.gca_authorization ∷ []) in
    ap (λ t. concat all ++ t) (sym (append-nil rest)) ∙ sym (concat-append all (rest ∷ []))

pub length-serialize :
    (s : AuthorizedServer) → IsAuthorizedServer s → length (serialize s) ≡ 104 + length s.location
unfolding serialize
length-serialize s h =
    omega (arith, length-append {0}, length-put_uint, h.public_key_long, h.gca_authorization_long)

module _ (s : AuthorizedServer) (rest : List ℕ) (h : IsAuthorizedServer s) where
  location_len-serialize : location_len (serialize s ++ rest) ≡ length s.location
  unfolding location_len uint
  location_len-serialize =
      ap (λ t. uint (slice 33 34 t)) (serialize-fields s rest)
      ∙ ap uint
          (slice-concat (fields s rest) 2 33 34 _ refl (omega (arith, h.public_key_long)) refl)
      ∙ omega (arith, h.location_fits)

  server_at-fields : server_at (length s.location) (concat (fields s rest)) ≡ s
  unfolding server_at uint
  server_at-fields = λ i. record {
    public_key =
        slice-concat (fields s rest) 0 0 32 s.public_key refl refl
          (omega (arith, h.public_key_long)) i;
    banned =
        (ap (λ t. not (uint t == 0))
              (slice-concat (fields s rest) 1 32 33 _ refl (omega (arith, h.public_key_long)) refl)
            ∙ flag s.banned)
          i;
    location =
        slice-concat (fields s rest) 3 34 (34 + n) s.location refl
          (omega (arith, h.public_key_long)) (omega arith) i;
    http_port =
        (ap uint (
              slice-concat (fields s rest) 4 (34 + n) (36 + n) (put_uint 2 s.http_port) refl
                (omega (arith, h.public_key_long)) (omega (arith, length-put_uint)))
            ∙ uint-put_uint 2 s.http_port h.http_port_fits)
          i;
    tcp_port =
        (ap uint (
              slice-concat (fields s rest) 5 (36 + n) (38 + n) (put_uint 2 s.tcp_port) refl
                (omega (arith, h.public_key_long, length-put_uint))
                (omega (arith, length-put_uint)))
            ∙ uint-put_uint 2 s.tcp_port h.tcp_port_fits)
          i;
    udp_port =
        (ap uint (
              slice-concat (fields s rest) 6 (38 + n) (40 + n) (put_uint 2 s.udp_port) refl
                (omega (arith, h.public_key_long, length-put_uint))
                (omega (arith, length-put_uint)))
            ∙ uint-put_uint 2 s.udp_port h.udp_port_fits)
          i;
    gca_authorization =
        slice-concat (fields s rest) 7 (40 + n) (104 + n) s.gca_authorization refl
          (omega (arith, h.public_key_long, length-put_uint))
          (omega (arith, h.gca_authorization_long)) i;
  }
    where
      n : ℕ
      n = length s.location

      flag : (b : Bool) → not (uint ((if b then 1 else 0) ∷ []) == 0) ≡ b
      flag true = refl
      flag false = refl

  server_at-serialize : server_at (length s.location) (serialize s ++ rest) ≡ s
  server_at-serialize =
      ap (server_at (length s.location)) (serialize-fields s rest) ∙ server_at-fields

  read_step :
      (fuel : ℕ) (servers : List AuthorizedServer) (b : List ℕ)
      → b ≡ serialize s ++ rest
      → read_servers fuel rest ≡ ok servers
      → read_servers (suc fuel) b ≡ ok (s ∷ servers)
  unfolding read_servers
  read_step fuel servers [] e next =
      absurd (omega (arith, ap length e, length-append (serialize s) rest, length-serialize s h))
  read_step fuel servers (x ∷ b) e next =
      let n : location_len (x ∷ b) ≡ length s.location =
        ap location_len e ∙ location_len-serialize in
      let size : length (x ∷ b) ≡ 104 + length s.location + length rest =
        ap length e
        ∙ length-append (serialize s) rest
        ∙ ap (λ (k : ℕ). k + length rest) (length-serialize s h) in
      let left : drop (104 + location_len (x ∷ b)) (x ∷ b) ≡ rest =
        ap (λ (k : ℕ). drop (104 + k) (x ∷ b)) n ∙ ap (drop (104 + length s.location)) e ∙ behind in
      let first : server_at (location_len (x ∷ b)) (x ∷ b) ≡ s =
        ap (λ (k : ℕ). server_at k (x ∷ b)) n
        ∙ ap (server_at (length s.location)) e
        ∙ server_at-serialize in
      let enough : leb 34 (length (x ∷ b)) ≡ true = ground arith in
      let enough' : leb (34 + location_len (x ∷ b) + 70) (length (x ∷ b)) ≡ true = ground arith in
      rw (left, enough, enough', next, first) refl
    where
      behind : drop (104 + length s.location) (serialize s ++ rest) ≡ rest
      behind =
          let long = length-serialize s h in
          let zero_left : 104 + length s.location - length (serialize s) ≡ 0 = omega arith in
          drop-append (104 + length s.location) (serialize s) rest (omega arith)
          ∙ ap (λ (k : ℕ). drop k rest) zero_left

-- The loop reads back every list of servers that was written, on any fuel that is as long as its bytes.
pub read_servers-serialize_servers :
    (fuel : ℕ) (servers : List AuthorizedServer)
    → All IsAuthorizedServer servers
    → length (serialize_servers servers) ≤ fuel
    → read_servers fuel (serialize_servers servers) ≡ ok servers
read_servers-serialize_servers fuel [] h enough = unfold read_servers in refl
read_servers-serialize_servers zero (s ∷ servers) (h, hs) enough =
    absurd
      (omega (arith, length-append (serialize s) (serialize_servers servers), length-serialize s h))
read_servers-serialize_servers (suc fuel) (s ∷ servers) (h, hs) enough =
    let long = length-append (serialize s) (serialize_servers servers) in
    read_step s (serialize_servers servers) h fuel servers _ refl
      (read_servers-serialize_servers fuel servers hs (omega (arith, length-serialize s h)))
