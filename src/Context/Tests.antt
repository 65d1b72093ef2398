-- ===== src/Context/Tests.antt =====
-- Runs of the context, and the theorems about it with small JSON values.
use mathlib.Core.List.{lookup}
use rabbit_digger.Address.{SocketAddr, socket_v4}
use rabbit_digger.Base.{
  Bytes, ℕ, List, [], ◌∷◌, Option, none, some, ◌≡◌, refl, arith, returns, ℕ_discrete,
}
use rabbit_digger.Base.Assoc.{insert}
use rabbit_digger.CompactVecString.{from_iter}
use rabbit_digger.CompactVecString.Represents.{from_iter-Represents}
use rabbit_digger.CompactVecString.Serde.{Visited}
use rabbit_digger.Context.{
  Bytes-discrete, ok, err, non_exist, Json, Context, new, insert_value, get_value, remove_key,
  remove_value, insert_field, get_field, insert_common, get_common, to_value, from_value,
}
use rabbit_digger.Context.Fields.{
  CommonFields, dest_domain_key, dest_socket_addr_key, src_socket_addr_key, from_socketaddr,
}
use rabbit_digger.Context.Laws.{get_common-insert_common, remove_key_lem, from_value-to_value}

-- JSON values with just the cases that a context needs.
mutual
  pub data Value : Type 0 where
    texts : Visited → Value
    socket : SocketAddr → Value
    domain_port : Bytes → ℕ → Value
    fields : Members → Value

  pub data Members : Type 0 where
    end : Members
    member : Bytes → Value → Members → Members

abbrev members : List (Bytes × Value) → Members
members [] = end
members ((k, v) ∷ m) = member k v (members m)

abbrev entries_of : Members → List (Bytes × Value)
entries_of end = []
entries_of (member k v m) = (k, v) ∷ entries_of m

entries_of-members : (m : List (Bytes × Value)) → entries_of (members m) ≡ m
entries_of-members [] = refl
entries_of-members ((k, v) ∷ m) = rw (entries_of-members m)

abbrev as_fields : Value → Option (List (Bytes × Value))
as_fields (fields m) = some (entries_of m)
as_fields _ = none

abbrev as_texts : Value → Option Visited
as_texts (texts t) = some t
as_texts _ = none

pub as_fields-fields : (m : List (Bytes × Value)) → as_fields (fields (members m)) ≡ some m
as_fields-fields m = rw (entries_of-members m)

pub as_texts-texts : (t : Visited) → as_texts (texts t) ≡ some t
as_texts-texts t = refl

abbrev pub json : Json Value
json = record {
  object = λ m. fields (members m);
  as_object = as_fields;
  as_object-object = as_fields-fields;
  write_texts = texts;
  visit_texts = as_texts;
  visit-write_texts = as_texts-texts;
}

abbrev pub as_socket : Value → Option SocketAddr
as_socket (socket s) = some s
as_socket _ = none

abbrev pub as_domain : Value → Option (Bytes × ℕ)
as_domain (domain_port d p) = some (d, p)
as_domain _ = none

abbrev pub value_fields : CommonFields Value
value_fields = record {
  dest_domain = record {
    key = dest_domain_key;
    field = record { to_json = λ d. some (domain_port d.0 d.1); from_json = as_domain };
  };
  dest_socket_addr = record {
    key = dest_socket_addr_key;
    field = record { to_json = λ s. some (socket s); from_json = as_socket };
  };
  src_socket_addr = record {
    key = src_socket_addr_key;
    field = record { to_json = λ s. some (socket s); from_json = as_socket };
  };
}

abbrev client : SocketAddr
client = socket_v4 1 8080

abbrev pub of_client : Context Value
of_client = record {
  entries = (src_socket_addr_key, socket client) ∷ [];
  net_list = from_iter ((b'a' ∷ []) ∷ []);
}

runs :
    (from_socketaddr value_fields client
      ≡ returns (record of_client { net_list = (new {V = Value}).net_list }))
    × (get_common value_fields.src_socket_addr of_client ≡ ok (some client))
    × (get_common value_fields.dest_domain of_client ≡ ok none)
unfolding from_socketaddr new insert_common insert_field insert_value insert get_common get_field
    lookup Bytes-discrete ℕ_discrete
runs = (refl, refl, refl)

get_common-insert_common_example :
    (c' : Context Value) × (insert_common value_fields.dest_domain (b'd' ∷ [], 80) of_client
      ≡ ok c')
    × (get_common value_fields.dest_domain c' ≡ ok (some (b'd' ∷ [], 80)))
    × (get_common value_fields.src_socket_addr c'
        ≡ get_common value_fields.src_socket_addr of_client)
    × (get_value [] c' ≡ get_value [] of_client)
    × (c'.net_list ≡ of_client.net_list)
get_common-insert_common_example =
    get_common-insert_common value_fields.dest_domain value_fields.src_socket_addr (b'd' ∷ [], 80)
      [] of_client refl refl (ground arith) (ground arith)

remove_key_lem_example :
    (remove_key [] (insert_value [] (socket client) of_client)
      ≡ ok (remove_value [] (insert_value [] (socket client) of_client)))
    × (remove_key [] (remove_value [] of_client) ≡ err non_exist)
    × (get_value [] (remove_value [] of_client) ≡ err non_exist)
    × (get_value (0 ∷ []) (remove_value [] of_client) ≡ get_value (0 ∷ []) of_client)
remove_key_lem_example = remove_key_lem [] (0 ∷ []) (socket client) of_client (ground arith)

from_value-to_value_example :
    (v : Value) × (to_value json of_client ≡ returns v) × (from_value json v ≡ ok of_client)
unfolding lookup Bytes-discrete ℕ_discrete
from_value-to_value_example =
    from_value-to_value json of_client (from_iter-Represents ((b'a' ∷ []) ∷ [])) refl
