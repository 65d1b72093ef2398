-- ===== src/RabbitDigger.antt =====
-- The building of nets, `BuildContext` of src/rabbit_digger.rs: the nets that a configuration refers to
-- are built first, and those that it nests get entries of their own.
pub mod Build
pub mod Weight
pub mod Names
pub mod Visiting
pub mod Terminates
mod Tests
use rabbit_digger.Base.{Bytes, ℕ, List, [], ◌∷◌, ◌++◌, Option, none, some}

-- JSON values as far as the code looks at them: strings, and the configuration of a net, which serde
-- reads from a value.
pub record Json : Type 1 where
  pub V : Type 0
  pub null : V
  pub string : Bytes → V
  pub as_string : V → Option Bytes

-- `config::Net`.
pub record NetConf (V : Type 0) : Type 0 where
  pub net_type : Bytes
  pub opt : V

-- `Item<Net>` of the registry, by what its resolver does: read the configuration of its type, with the
-- references to nets in the order in which the visitor comes to them, each with its path; write it
-- again with other values for the references; and build the net from the nets of the references.
pub record Resolver (V N : Type 0) : Type 0 where
  pub parse : V → Option (List (List Bytes × V))
  pub write : V → List V → Option V
  pub build : V → List N → Option N

pub data BuildError : Type 0 where
  type_not_loaded : Bytes → BuildError
  net_not_found : Bytes → BuildError
  config_error build_failed : BuildError

-- A result, or the end of the fuel of the model.
pub data Built (A : Type 0) : Type 0 where
  ok : A → Built A
  err : BuildError → Built A
  out_of_fuel : Built A

-- `BuildContext`: the configuration of the nets, and the nets that were built.
pub record BuildContext (V N : Type 0) : Type 0 where
  pub config : List (Bytes × NetConf V)
  pub net_cache : List (Bytes × N)

-- "circular reference".
abbrev pub circular : Bytes
circular =
    b'c' ∷ b'i' ∷ b'r' ∷ b'c' ∷ b'u' ∷ b'l' ∷ b'a' ∷ b'r' ∷ b' ' ∷ b'r' ∷ b'e' ∷ b'f' ∷ b'e' ∷ b'r'
    ∷ b'e' ∷ b'n' ∷ b'c' ∷ b'e' ∷ []

-- `key.join("/")`.
unfoldable pub join_rest : List Bytes → Bytes
join_rest [] = []
join_rest (k ∷ ks) = b'/' ∷ (k ++ join_rest ks)

unfoldable pub join : List Bytes → Bytes
join [] = []
join (k ∷ ks) = k ++ join_rest ks
