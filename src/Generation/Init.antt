-- ===== src/Generation/Init.antt =====
-- The shared state of a namespace when nginx starts or reloads:
-- `ngx_http_cache_purge_generation_init`.
pub mod Epochs
mod Tests
use ngx_cache_purge.Prelude.{
  ℕ, ◌-◌, Bool, ◌&&◌, not, List, [], ◌∷◌, Option, none, some, ◌==◌, if◌then◌else◌, length, drop,
  bytes_eq, ◌>>=◌,
}
use ngx_cache_purge.Ngx.{Rc, ok, error}
use ngx_cache_purge.Generation.Rule.{null}
use ngx_cache_purge.Generation.State.{Generation}

-- A namespace of the configuration: where its state is kept, and the state once it has one.
pub record NamespaceConf : Type 0 where
  pub state_path : List ℕ
  pub shared : Option Generation

-- The zone of a namespace: whether it exists already, and what the head of its pool points at.
pub record Zone : Type 0 where
  pub exists : Bool
  pub head : Option Generation

-- The files are the names in the directory of the state.
pub record Initialized : Type 0 where
  pub rc : Rc
  pub zone : Zone
  pub namespace : NamespaceConf
  pub files : List (List ℕ)

-- `state->version`.
abbrev pub state_version : ℕ
state_version = 1

-- A state that a new configuration can go on with.
unfoldable pub fits : NamespaceConf → Generation → Bool
fits ns state = state.version == state_version && bytes_eq state.state_path ns.state_path

unfoldable pub adopt_state : Option Generation → Zone → NamespaceConf → List (List ℕ) → Initialized
adopt_state none zone ns files = record { rc = error; zone = zone; namespace = ns; files = files }
adopt_state (some state) zone ns files =
    if fits ns state
    then record {
      rc = ok;
      zone = zone;
      namespace = record ns { shared = some state };
      files = files;
    }
    else record { rc = error; zone = zone; namespace = ns; files = files }

-- The last ten bytes of the name of a file.
abbrev pub epoch_of : List ℕ → List ℕ
epoch_of name = drop (length name - 10) name

-- A namespace that begins with a marker of a name.
abbrev pub first_state : List ℕ → List ℕ → Generation
first_state state_path name = record {
  version = state_version;
  serial = 1;
  baseline = 1;
  epoch = epoch_of name;
  state_path = state_path;
  exact = null;
  prefix = null;
  allocated = [];
  tail = none;
  garbage = [];
}

-- `create_temp_file` is `ngx_create_temp_file` for a file that stays, in the directory of a path: it
-- gives the name of the new file, or nothing. `room` says whether the pool has memory.
module _ (create_temp_file : List ℕ → List (List ℕ) → Option (List ℕ)) where
  unfoldable pub begin_state : Bool → Zone → NamespaceConf → List (List ℕ) → Initialized
  begin_state room zone ns files =
      let failed : Initialized = record {
        rc = error;
        zone = zone;
        namespace = ns;
        files = files;
      } in
      if not room then failed else elim (create_temp_file ns.state_path files) [
        | none ↦ failed
        | some name ↦
            let state = first_state ns.state_path name in
            record {
              rc = ok;
              zone = record zone { head = some state };
              namespace = record ns { shared = some state };
              files = name ∷ files;
            }
      ]

  -- `old` is the namespace of the zone in the cycle before, if there is one.
  unfoldable pub generation_init :
      Bool → Option NamespaceConf → Zone → NamespaceConf → List (List ℕ) → Initialized
  generation_init room old zone ns files = elim old [
    | some o ↦ adopt_state o.shared zone ns files
    | none ↦
        if zone.exists then adopt_state zone.head zone ns files else begin_state room zone ns files
  ]
