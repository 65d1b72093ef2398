-- ===== src/Context/Laws.antt =====
-- What a context gives back: its fields, and itself from the JSON value that it is sent as.
use mathlib.Core.List.{lookup}
use rabbit_digger.Base.{Bytes, List, none, some, ◌≡◌, ◌≢◌, refl, returns}
use rabbit_digger.Base.Assoc.{
  insert, lookup-insert_self, lookup-insert_ne, lookup-remove_self, lookup-remove_ne,
  remove-insert_new,
}
use rabbit_digger.CompactVecString.Represents.{Represents}
use rabbit_digger.CompactVecString.Serde.{deserialize-serialize}
use rabbit_digger.Context.{
  Bytes-discrete, non_exist, ok, err, Json, CommonField, Context, net_list_key, insert_value,
  get_value, remove_key, remove_value, insert_field, get_field, insert_common, get_common, to_value,
  read_net_list, from_map, from_value,
}

module _ {V T : Type 0} where
  -- Once a common field is stored, reading it gives the value, and reading any field with another
  -- key gives what it gave before; storing touches neither the nets nor, read raw, another key.
  pub get_common-insert_common :
      {U : Type 0} (f : CommonField V T) (g : CommonField V U) (t : T) (q : Bytes) {v : V}
      (c : Context V)
      → f.field.to_json t ≡ some v
      → f.field.from_json v ≡ some t
      → g.key ≢ f.key
      → q ≢ f.key
      → (c' : Context V) × (insert_common f t c ≡ ok c')
        × (get_common f c' ≡ ok (some t))
        × (get_common g c' ≡ get_common g c)
        × (get_value q c' ≡ get_value q c)
        × (c'.net_list ≡ c.net_list)
  unfolding insert_common insert_field insert_value get_common get_field get_value
  get_common-insert_common f g t q {v} c written read other raw = (
    record c { entries = insert Bytes-discrete f.key v c.entries },
    rw (insert_common, insert_field, written),
    rw (get_common, get_field, lookup-insert_self Bytes-discrete f.key v c.entries, read),
    rw (get_common, get_field, lookup-insert_ne Bytes-discrete f.key g.key v c.entries other),
    rw (get_value, lookup-insert_ne Bytes-discrete f.key q v c.entries raw),
    refl,
  )

module _ {V : Type 0} where
  -- `remove` succeeds exactly on a key that is there; then the key is gone and others stay, as with
  -- `remove_value`.
  pub remove_key_lem :
      (k q : Bytes) (v : V) (c : Context V)
      → q ≢ k
      → (remove_key k (insert_value k v c) ≡ ok (remove_value k (insert_value k v c)))
        × (remove_key k (remove_value k c) ≡ err non_exist)
        × (get_value k (remove_value k c) ≡ err non_exist)
        × (get_value q (remove_value k c) ≡ get_value q c)
  unfolding remove_key insert_value remove_value get_value
  remove_key_lem k q v c ne = (
    rw (remove_key, lookup-insert_self Bytes-discrete k v c.entries),
    rw (remove_key, lookup-remove_self Bytes-discrete k c.entries),
    rw (get_value, lookup-remove_self Bytes-discrete k c.entries),
    rw (get_value, lookup-remove_ne Bytes-discrete k q c.entries ne),
  )

module _ {V : Type 0} (json : Json V) where
  open json use {object, as_object, as_object-object, write_texts, visit_texts, visit-write_texts}

  -- A context that has no entry under the key of the list of nets is read back from the value that it
  -- is written as, and writing it does not panic.
  pub from_value-to_value :
      (c : Context V) {nets : List Bytes}
      → Represents c.net_list nets
      → lookup Bytes-discrete net_list_key c.entries ≡ none
      → (v : V) × (to_value json c ≡ returns v) × (from_value json v ≡ ok c)
  unfolding to_value from_value from_map read_net_list
  from_value-to_value c r absent =
      let (texts, written, read) = deserialize-serialize r in
      let entries = insert Bytes-discrete net_list_key (write_texts texts) c.entries in
      (
        object entries,
        rw written,
        rw (
          from_value,
          as_object-object,
          from_map,
          lookup-insert_self Bytes-discrete net_list_key (write_texts texts) c.entries,
          read_net_list,
          visit-write_texts,
          read,
          remove-insert_new Bytes-discrete net_list_key (write_texts texts) c.entries absent,
        ),
      )
