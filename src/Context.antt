-- ===== src/Context.antt =====
-- `Context` of rd-interface/src/context.rs: what is known of a connection while it is made, as JSON
-- values by key, with the list of nets that it passes through.
pub mod Fields
pub mod Laws
pub mod Tests
use mathlib.Core.List.{lookup}
use rabbit_digger.Base.{
  Bytes, ℕ, List, [], ◌∷◌, Option, none, some, ◌≡◌, MayPanic, returns, panics, ◌>>=◌, ℕ_discrete,
}
use rabbit_digger.Base.Assoc.{insert, remove}
use rabbit_digger.CompactVecString.{CompactVecString, push, new as no_texts}
use rabbit_digger.CompactVecString.Serde.{Visited, serialize, deserialize}

unfoldable pub Bytes-discrete : Discrete Bytes
Bytes-discrete = hlevel ℕ_discrete

-- `context::Error`.
pub data Error : Type 0 where
  serde non_exist bad_format : Error

pub data Result {ℓ} (A : Type ℓ) : Type ℓ where
  ok : A → Result A
  err : Error → Result A

-- The JSON values of serde_json that the context uses: an object is read back as the map that it
-- was made of, and what a serializer wrote is what a visitor is given.
pub record Json (V : Type 0) : Type 0 where
  pub object : List (Bytes × V) → V
  pub as_object : V → Option (List (Bytes × V))
  pub as_object-object : (m : List (Bytes × V)) → as_object (object m) ≡ some m
  pub write_texts : Visited → V
  pub visit_texts : V → Option Visited
  pub visit-write_texts : (t : Visited) → visit_texts (write_texts t) ≡ some t

-- A type that goes into a context and out of it, `Serialize` with `DeserializeOwned`.
pub record Field (V T : Type 0) : Type 0 where
  pub to_json : T → Option V
  pub from_json : V → Option T

-- `CommonField`.
pub record CommonField (V T : Type 0) : Type 0 where
  pub key : Bytes
  pub field : Field V T

pub record Context (V : Type 0) : Type 0 where
  pub entries : List (Bytes × V)
  pub net_list : CompactVecString

-- The key of the list of nets, "net_list".
abbrev pub net_list_key : Bytes
net_list_key = b'n' ∷ b'e' ∷ b't' ∷ b'_' ∷ b'l' ∷ b'i' ∷ b's' ∷ b't' ∷ []

module _ {V : Type 0} where
  unfoldable pub new : Context V
  new = record { entries = []; net_list = no_texts }

  unfoldable pub insert_value : Bytes → V → Context V → Context V
  insert_value k v c = record c { entries = insert Bytes-discrete k v c.entries }

  unfoldable pub get_value : Bytes → Context V → Result V
  get_value k c = elim (lookup Bytes-discrete k c.entries) [ some v ↦ ok v | none ↦ err non_exist ]

  -- `remove` fails on a missing key, `remove_value` does not.
  unfoldable pub remove_key : Bytes → Context V → Result (Context V)
  remove_key k c = elim (lookup Bytes-discrete k c.entries) [
    | some v ↦ ok (record c { entries = remove Bytes-discrete k c.entries })
    | none ↦ err non_exist
  ]

  unfoldable pub remove_value : Bytes → Context V → Context V
  remove_value k c = record c { entries = remove Bytes-discrete k c.entries }

  -- The generic `insert` and `get`.
  module _ {T : Type 0} where
    unfoldable pub insert_field : Field V T → Bytes → T → Context V → Result (Context V)
    insert_field f k t c = elim (f.to_json t) [
      | some v ↦ ok (insert_value k v c)
      | none ↦ err serde
    ]

    unfoldable pub get_field : Field V T → Bytes → Context V → Result (Option T)
    get_field f k c = elim (lookup Bytes-discrete k c.entries) [
      | none ↦ ok none
      | some v ↦ elim (f.from_json v) [ some t ↦ ok (some t) | none ↦ err serde ]
    ]

    unfoldable pub insert_common : CommonField V T → T → Context V → Result (Context V)
    insert_common f = insert_field f.field f.key

    unfoldable pub get_common : CommonField V T → Context V → Result (Option T)
    get_common f = get_field f.field f.key

  unfoldable pub append_net : Bytes → Context V → Context V
  append_net name c = record c { net_list = push c.net_list name }

  unfoldable pub take_net_list : Context V → CompactVecString × Context V
  take_net_list c = (c.net_list, record c { net_list = no_texts })

module _ {V : Type 0} (json : Json V) where
  open json use {object, as_object, write_texts, visit_texts}

  -- `to_value`: the entries as an object, with the list of nets under its key.
  unfoldable pub to_value : Context V → MayPanic V
  to_value c = serialize c.net_list >>= λ texts.
      returns (object (insert Bytes-discrete net_list_key (write_texts texts) c.entries))

  unfoldable pub read_net_list : V → Option CompactVecString
  read_net_list v = elim (visit_texts v) [ some t ↦ deserialize t | none ↦ none ]

  -- `from_value`, on the map of an object.
  unfoldable pub from_map : List (Bytes × V) → Result (Context V)
  from_map m = elim (lookup Bytes-discrete net_list_key m) [
    | none ↦ ok (record { entries = m; net_list = no_texts })
    | some v ↦ elim (read_net_list v) [
      | some nets ↦ ok (record { entries = remove Bytes-discrete net_list_key m; net_list = nets })
      | none ↦ err serde
    ]
  ]

  unfoldable pub from_value : V → Result (Context V)
  from_value v = elim (as_object v) [ some m ↦ from_map m | none ↦ err bad_format ]
