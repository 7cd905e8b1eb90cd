-- ===== src/Factory/Hosts.antt =====
-- conjure-runtime/src/client_factory.rs, `raw_client` and `per_host_clients`, and per_host_clients.rs: a client for
-- each host, which is kept while the host is in the configuration.
--
-- A client is the address of its state, which a refresh of its handle replaces. Maps are association lists.
use conjure_rust_runtime.Prelude.{
  ℕ, ◌+◌, Bool, true, false, Option, none, some, List, [], ◌∷◌, ◌++◌, length, get_elem?, replace_at,
  ◌==◌, ◌&&◌, is_some, if◌then◌else◌,
}
use conjure_rust_runtime.Config.{ServiceConfig}

abbrev pub Map : Type 0
Map = List (ℕ × ℕ)

abbrev pub lookup : ℕ → Map → Option ℕ
lookup h [] = none
lookup h ((k, v) ∷ m) = if h == k then some v else lookup h m

abbrev pub remove : ℕ → Map → Map
remove h [] = []
remove h ((k, v) ∷ m) = let rest = remove h m in if h == k then rest else (k, v) ∷ rest

abbrev pub insert : ℕ → ℕ → Map → Map
insert h v m = (h, v) ∷ remove h m

-- A `Client` with its `RefreshHandle`: the configuration that the handle has, the index the client was made with, and
-- what is built of them.
pub record Client (S : Type 0) : Type 0 where
  pub config : ServiceConfig ℕ
  pub override_host_index : Option ℕ
  pub state : S

-- `current` is the value of the refreshable collection.
pub record PerHost (S : Type 0) : Type 0 where
  pub states : List (Client S)
  pub client_handles : Map
  pub current : Map

-- The variables of the loop; `errors` counts them.
pub record Loop (S : Type 0) : Type 0 where
  pub states : List (Client S)
  pub client_handles : Map
  pub new_client_handles : Map
  pub clients : Map
  pub errors : ℕ

-- `PerHostClients::eq`.
abbrev pub all_in : Map → Map → Bool
all_in [] m = true
all_in ((k, v) ∷ n) m = is_some (lookup k m) && all_in n m

unfoldable pub same_hosts : Map → Map → Bool
same_hosts m n = (length m == length n) && all_in m n

abbrev pub host_config : ServiceConfig ℕ → ℕ → ServiceConfig ℕ
host_config c u = record c { uris = u ∷ [] }

module _ {S : Type 0} where
  -- What the subscription does, and whether it fails: the old state is kept then.
  abbrev pub resubscribe : Client S → Option S → Client S × Bool
  resubscribe client none = (client, false)
  resubscribe client (some s) = (record client { state = s }, true)

  -- The client and its handle go into the two maps.
  abbrev pub keep : ℕ → ℕ → Loop S → Loop S
  keep u id l = record l {
    new_client_handles = insert u id l.new_client_handles;
    clients = insert u id l.clients;
  }

  abbrev pub store : ℕ → Client S × Bool → Loop S → Loop S
  store id (client, true) l = record l { states = replace_at id client l.states }
  store id (client, false) l = record l {
    states = replace_at id client l.states;
    errors = l.errors + 1;
  }

  abbrev pub make : ℕ → Option (Client S) → Loop S → Loop S
  make u none l = record l { errors = l.errors + 1 }
  make u (some client) l = keep u (length l.states) (record l { states = l.states ++ client ∷ [] })

  abbrev pub begin_loop : PerHost S → Loop S
  begin_loop w = record {
    states = w.states;
    client_handles = w.client_handles;
    new_client_handles = [];
    clients = [];
    errors = 0;
  }

-- `build` is `StateBuilder::build`; `notifies` says whether a handle that has one configuration and is given another
-- calls its subscriber; and `takes` whether the collection takes a new value that it is equal to.
module _ {S : Type 0} (build : ServiceConfig ℕ → Option ℕ → Option S)
    (notifies : ServiceConfig ℕ → ServiceConfig ℕ → Bool) (takes : Bool) where
  -- `raw_client`; the client is the next address.
  unfoldable pub raw_client : ServiceConfig ℕ → Option ℕ → Option (Client S)
  raw_client c index = elim (build c index) [
    | none ↦ none
    | some s ↦ some (record { config = c; override_host_index = index; state = s })
  ]

  -- `RefreshHandle::refresh` with the subscription of `raw_client`.
  unfoldable pub refresh : Client S → ServiceConfig ℕ → Client S × Bool
  refresh client c =
      if notifies client.config c
      then resubscribe (record client { config = c }) (build c client.override_host_index)
      else (record client { config = c }, true)

  abbrev pub refresh_at : ℕ → ServiceConfig ℕ → Option (Client S) → Loop S → Loop S
  refresh_at id c none l = l
  refresh_at id c (some client) l = store id (refresh client c) l

  -- `client_handles.remove(&host)` has given a handle or not.
  abbrev pub visit_with : ServiceConfig ℕ → ℕ → ℕ → Option ℕ → Loop S → Loop S
  visit_with c i u (some id) l = keep u id (
      refresh_at id (host_config c u) (get_elem? l.states id)
        (record l { client_handles = remove u l.client_handles }))
  visit_with c i u none l = make u (raw_client (host_config c u) (some i)) l

  unfoldable pub visit : ServiceConfig ℕ → ℕ → ℕ → Loop S → Loop S
  visit c i u l = visit_with c i u (lookup u l.client_handles) l

  unfoldable pub visit_all : ServiceConfig ℕ → ℕ → List ℕ → Loop S → Loop S
  visit_all c i [] l = l
  visit_all c i (u ∷ us) l = visit_all c (i + 1) us (visit c i u l)

  abbrev pub publish : Map → Map → Map
  publish current clients =
      if same_hosts current clients then if takes then clients else current else clients

  -- After the loop. The handles are replaced in any case, the collection only without an error.
  abbrev pub after_loop : Map → Loop S → PerHost S × Bool
  after_loop current l =
      if l.errors == 0
      then (
        record {
          states = l.states;
          client_handles = l.new_client_handles;
          current = publish current l.clients;
        },
        true,
      )
      else (
        record { states = l.states; client_handles = l.new_client_handles; current = current },
        false,
      )

  -- The closure of `per_host_clients_inner`, and what the collection does with its result.
  unfoldable pub reload : PerHost S → ServiceConfig ℕ → PerHost S × Bool
  reload w c = after_loop w.current (visit_all c 0 c.uris (begin_loop w))
