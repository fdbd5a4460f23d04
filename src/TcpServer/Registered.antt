-- ===== src/TcpServer/Registered.antt =====
-- The agent server's tunnels of an agent's ports, as the TCP server finds them.
use protogate.AgentServer.{register_ports, tcp_tunnel, tcp_tunnel_key, day}
use protogate.Base.{
  ℕ, ◌+◌, ◌%◌, ◌^◌, ◌<◌, ◌≡◌, ◌≢◌, refl, sym, ◌∙◌, ap, Bool, true, false, false≢true, Bool-cases,
  Option-cases, List, [], ◌∷◌, arith, Option, none, some, length, ◌==◌, Text, Any, inl, inr,
}
use protogate.Http.Lines.{Lacks}
use protogate.Http.Response.{decimal}
use protogate.Http.Text.{trim}
use protogate.Models.Tunnel.{Tunnel}
use protogate.Storage.Cache.{Cache, for_each, put_ttl}
use protogate.TcpServer.Ports.{
  IsOwn, has_fit, live-IsOwn, has_fit-insert, has_fit-kept, behind_tcp-key,
}
use protogate.TcpServer.{names_port}

-- A text of the header is the port.
abbrev pub IsPort : (Text → Option ℕ) → ℕ → Text → Type 0
IsPort stoi port text =
    (n : ℕ) × (stoi (trim text) ≡ some n) × (n % 2 ^ 16 ≡ port) × (length (trim text) ≢ 0)

module _ (stoi : Text → Option ℕ) (port : ℕ) (id : Text) (now wall later : ℕ) (existing : Tunnel)
    (before : later < now + day) where
  abbrev registered : Cache Tunnel → ℕ → Cache Tunnel
  registered tunnels n =
      put_ttl now (tcp_tunnel_key id (n % 2 ^ 16)) (tcp_tunnel wall id existing) day tunnels

  abbrev register : List Text → Cache Tunnel → Bool × Cache Tunnel
  register = register_ports stoi now wall id existing

  register-blank :
      (text : Text) (texts : List Text) (tunnels : Cache Tunnel)
      → (length (trim text) == 0) ≡ true
      → register (text ∷ texts) tunnels ≡ register texts tunnels
  unfolding register_ports
  register-blank text texts tunnels blank = rw (register_ports, blank) refl

  register-thrown :
      (text : Text) (texts : List Text) (tunnels : Cache Tunnel)
      → (length (trim text) == 0) ≡ false
      → stoi (trim text) ≡ none
      → register (text ∷ texts) tunnels ≡ (false, tunnels)
  unfolding register_ports
  register-thrown text texts tunnels some_text thrown = rw (register_ports, some_text, thrown) refl

  register-read :
      (text : Text) (texts : List Text) (tunnels : Cache Tunnel) (n : ℕ)
      → (length (trim text) == 0) ≡ false
      → stoi (trim text) ≡ some n
      → register (text ∷ texts) tunnels ≡ register texts (registered tunnels n)
  unfolding register_ports
  register-read text texts tunnels n some_text read = rw (register_ports, some_text, read) refl

  -- What every registration keeps, the loop keeps.
  register_ports-loop :
      (P : Cache Tunnel → Type 0) (texts : List Text) (tunnels : Cache Tunnel)
      → ((n : ℕ) (c : Cache Tunnel) → P c → P (registered c n))
      → P tunnels
      → P (register texts tunnels).1
  unfolding register_ports
  register_ports-loop P [] tunnels keeps p = p
  register_ports-loop P (text ∷ texts) tunnels keeps p =
      elim (Bool-cases (length (trim text) == 0)) [
        | inl blank ↦
            rw (register-blank text texts tunnels blank)
              (register_ports-loop P texts tunnels keeps p)
        | inr some_text ↦ elim (Option-cases (stoi (trim text))) [
          | inl thrown ↦ rw (register-thrown text texts tunnels some_text thrown) p
          | inr (n, read) ↦
              rw (register-read text texts tunnels n some_text read)
                (register_ports-loop P texts (registered tunnels n) keeps (keeps n tunnels p))
        ]
      ]

  pub register_ports-IsOwn :
      (texts : List Text) (tunnels : Cache Tunnel)
      → IsOwn stoi port id (for_each later tunnels)
      → IsOwn stoi port id
          (for_each later (register_ports stoi now wall id existing texts tunnels).1)
  unfolding for_each put_ttl
  register_ports-IsOwn texts tunnels own =
      register_ports-loop (λ c. IsOwn stoi port id (for_each later c)) texts tunnels
        (λ n c. live-IsOwn stoi port id later _ _ refl c.entries) own

  register_ports-has_fit :
      (texts : List Text) (tunnels : Cache Tunnel)
      → has_fit stoi port id (for_each later tunnels) ≡ true
      → has_fit stoi port id
          (for_each later (register_ports stoi now wall id existing texts tunnels).1)
        ≡ true
  unfolding for_each put_ttl
  register_ports-has_fit texts tunnels fit =
      register_ports-loop (λ c. has_fit stoi port id (for_each later c) ≡ true) texts tunnels
        (λ n c. has_fit-kept stoi port id later _ _ refl (ground (arith, before)) refl c.entries)
        fit

  key-names_port :
      stoi (decimal port) ≡ some port
      → Lacks 58 id
      → port < 2 ^ 16
      → names_port stoi port (tcp_tunnel_key id port) ≡ true
  unfolding names_port
  key-names_port number clean small =
      rw (names_port, behind_tcp-key id (decimal port) clean, number) (ground (arith, small))

  module _ (number : stoi (decimal port) ≡ some port) (clean : Lacks 58 id)
      (small : port < 2 ^ 16) where
    registered-has_fit :
        (n : ℕ) (c : Cache Tunnel)
        → n % 2 ^ 16 ≡ port
        → has_fit stoi port id (for_each later (registered c n)) ≡ true
    unfolding for_each put_ttl
    registered-has_fit n c same =
        has_fit-insert stoi port id later _ _ refl (ground (arith, before)) refl c.entries
          (rw same (key-names_port number clean small))

    -- A blank text is no port.
    others :
        (text : Text) (texts : List Text)
        → Any (IsPort stoi port) (text ∷ texts)
        → (length (trim text) == 0) ≡ true
        → Any (IsPort stoi port) texts
    others text texts (inl (n, read, same, some_text)) blank =
        absurd (ground (arith, blank, some_text))
    others text texts (inr named) blank = named

    pub some_port-has_fit :
        (texts : List Text) (tunnels : Cache Tunnel)
        → Any (IsPort stoi port) texts
        → (register_ports stoi now wall id existing texts tunnels).0 ≡ true
        → has_fit stoi port id
            (for_each later (register_ports stoi now wall id existing texts tunnels).1)
          ≡ true
    some_port-has_fit [] tunnels named ends = absurd named
    some_port-has_fit (text ∷ texts) tunnels named ends =
        elim (Bool-cases (length (trim text) == 0)) [
          | inl blank ↦ rw (register-blank text texts tunnels blank) (
              some_port-has_fit texts tunnels (others text texts named blank)
                (rw (← register-blank text texts tunnels blank) ends))
          | inr some_text ↦ elim (Option-cases (stoi (trim text))) [
            | inl thrown ↦ absurd (
                false≢true (
                  sym (ap (λ p. p.0) (register-thrown text texts tunnels some_text thrown)) ∙ ends))
            | inr (n, read) ↦ rw (register-read text texts tunnels n some_text read) (elim named [
              | inl (m, also, same, _) ↦
                  register_ports-has_fit texts (registered tunnels n)
                    (registered-has_fit n tunnels (ground (arith, read, also, same)))
              | inr later_text ↦
                  some_port-has_fit texts (registered tunnels n) later_text
                    (rw (← register-read text texts tunnels n some_text read) ends)
            ])
          ]
        ]
