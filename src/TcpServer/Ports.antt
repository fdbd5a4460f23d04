-- ===== src/TcpServer/Ports.antt =====
-- Which tunnel the server finds for a port.
use protogate.Base.{
  ℕ, ◌≡◌, refl, sym, Bool, true, false, false≢true, Bool-cases, ◌&&◌, ◌||◌, List, [], ◌∷◌, ◌++◌,
  arith, Option, some, leb, if◌then◌else◌, Text, codes, text_eq, text_eq_iff, All, Map, insert, inl,
  inr,
}
use protogate.Http.Lines.{Lacks}
use protogate.Models.Tunnel.{Tunnel}
use protogate.Security.Tokens.{has_prefix}
use protogate.Storage.Cache.{Entry, live}
use protogate.TcpServer.{is_tcp, behind_tcp, names_port, visit_port}

pub behind_tcp-key :
    (id rest : Text) → Lacks 58 id → behind_tcp (id ++ (codes ":tcp:" ++ rest)) ≡ some rest
unfolding behind_tcp has_prefix text_eq
behind_tcp-key [] rest clean = refl
behind_tcp-key (c ∷ id) rest (other, clean) = ground (arith, other, behind_tcp-key id rest clean)

module _ (stoi : Text → Option ℕ) (port : ℕ) (id : Text) where
  -- The tunnel is one of the port.
  abbrev fits : Text × Tunnel → Bool
  fits (key, tunnel) = names_port stoi port key && is_tcp tunnel.protocol

  unfoldable pub has_fit : List (Text × Tunnel) → Bool
  has_fit [] = false
  has_fit (pair ∷ pairs) = fits pair || has_fit pairs

  -- The tunnels of the port all have the id.
  abbrev pub IsOwn : List (Text × Tunnel) → Type 0
  IsOwn = All (λ pair. fits pair ≡ true → pair.1.tunnel_id ≡ id)

  pub visit_port-IsOwn :
      (matched : Text) (pairs : List (Text × Tunnel))
      → IsOwn pairs
      → visit_port stoi port matched pairs ≡ (if has_fit pairs then id else matched)
  unfolding visit_port has_fit
  visit_port-IsOwn matched [] own = refl
  visit_port-IsOwn matched ((key, tunnel) ∷ pairs) (first, own) =
      ground (arith, first, visit_port-IsOwn id pairs own, visit_port-IsOwn matched pairs own)

  IsOwn-cons :
      (expired : Bool) (pair : Text × Tunnel) (rest : List (Text × Tunnel))
      → (expired ≡ false → fits pair ≡ true → pair.1.tunnel_id ≡ id)
      → IsOwn rest
      → IsOwn (if expired then rest else pair ∷ rest)
  IsOwn-cons true pair rest first own = own
  IsOwn-cons (false) pair rest first own = (first refl, own)

  IsOwn-rest :
      (expired : Bool) (pair : Text × Tunnel) (rest : List (Text × Tunnel))
      → IsOwn (if expired then rest else pair ∷ rest)
      → (expired ≡ false → fits pair ≡ true → pair.1.tunnel_id ≡ id) × IsOwn rest
  IsOwn-rest true pair rest own = (λ e. absurd (false≢true (sym e)), own)
  IsOwn-rest (false) pair rest own = (λ e. own.0, own.1)

  module _ (later : ℕ) (key : Text) (e : Entry Tunnel) (named : e.value.tunnel_id ≡ id) where
    pub live-IsOwn :
        (m : Map (Entry Tunnel)) → IsOwn (live later m) → IsOwn (live later (insert key e m))
    unfolding live insert
    live-IsOwn [] own = IsOwn-cons (leb e.expires_at later) (key, e.value) [] (λ i f. named) tt
    live-IsOwn ((j, w) ∷ m) own =
        let (first, rest) = IsOwn-rest (leb w.expires_at later) (j, w.value) (live later m) own in
        elim (Bool-cases (text_eq j key)) [
          | inl same ↦ rw same (
              IsOwn-cons (leb e.expires_at later) (key, e.value) (live later m) (λ i f. named) rest)
          | inr other ↦ rw other (
              IsOwn-cons (leb w.expires_at later) (j, w.value) (live later (insert key e m)) first
                (live-IsOwn m rest))
        ]

    module _ (is_live : leb e.expires_at later ≡ false) (tcp : is_tcp e.value.protocol ≡ true) where
      pub has_fit-insert :
          (m : Map (Entry Tunnel))
          → names_port stoi port key ≡ true
          → has_fit (live later (insert key e m)) ≡ true
      unfolding live insert has_fit
      has_fit-insert [] names = ground arith
      has_fit-insert ((j, w) ∷ m) names = ground (arith, has_fit-insert m names)

      pub has_fit-kept :
          (m : Map (Entry Tunnel))
          → has_fit (live later m) ≡ true
          → has_fit (live later (insert key e m)) ≡ true
      unfolding live insert has_fit
      has_fit-kept [] fit = ground arith
      has_fit-kept ((j, w) ∷ m) fit = ground (arith, text_eq_iff j key, has_fit-kept m)
