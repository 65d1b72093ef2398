-- ===== src/Context/Fields.antt =====
-- The common fields of rd-interface/src/context.rs, and the context of a client's socket address.
use rabbit_digger.Address.{SocketAddr}
use rabbit_digger.Base.{Bytes, ℕ, [], ◌∷◌, MayPanic, returns, panics}
use rabbit_digger.Context.{Context, Field, CommonField, ok, err, new, insert_common}

-- The fields `DestDomain`, `DestSocketAddr` and `SrcSocketAddr`: an `AddressDomain` is its domain and
-- its port.
pub record CommonFields (V : Type 0) : Type 0 where
  pub dest_domain : CommonField V (Bytes × ℕ)
  pub dest_socket_addr : CommonField V SocketAddr
  pub src_socket_addr : CommonField V SocketAddr

-- `"dest_domain"`.
abbrev pub dest_domain_key : Bytes
dest_domain_key = b'd' ∷ b'e' ∷ b's' ∷ b't' ∷ b'_' ∷ b'd' ∷ b'o' ∷ b'm' ∷ b'a' ∷ b'i' ∷ b'n' ∷ []

-- `"dest_socket_addr"`.
abbrev pub dest_socket_addr_key : Bytes
dest_socket_addr_key =
    b'd' ∷ b'e' ∷ b's' ∷ b't' ∷ b'_' ∷ b's' ∷ b'o' ∷ b'c' ∷ b'k' ∷ b'e' ∷ b't' ∷ b'_' ∷ b'a' ∷ b'd'
    ∷ b'd' ∷ b'r' ∷ []

-- `"src_socket_addr"`.
abbrev pub src_socket_addr_key : Bytes
src_socket_addr_key =
    b's' ∷ b'r' ∷ b'c' ∷ b'_' ∷ b's' ∷ b'o' ∷ b'c' ∷ b'k' ∷ b'e' ∷ b't' ∷ b'_' ∷ b'a' ∷ b'd' ∷ b'd'
    ∷ b'r' ∷ []

-- The fields of the source, with the way that their values are written as JSON.
unfoldable pub common_fields :
    {V : Type 0} → Field V (Bytes × ℕ) → Field V SocketAddr → CommonFields V
common_fields domains sockets = record {
  dest_domain = record { key = dest_domain_key; field = domains };
  dest_socket_addr = record { key = dest_socket_addr_key; field = sockets };
  src_socket_addr = record { key = src_socket_addr_key; field = sockets };
}

module _ {V : Type 0} (fields : CommonFields V) where
  -- `expect("Failed to insert src_socket_addr")`.
  unfoldable pub from_socketaddr : SocketAddr → MayPanic (Context V)
  from_socketaddr addr = elim (insert_common fields.src_socket_addr addr new) [
    | ok c ↦ returns c
    | err e ↦ panics
  ]
